-- ===== src/Cipher/Validity.antt =====
-- One state for each channel, and where the cipher panics.
use frost_tools.Prelude.{
  ◌≡◌, ◌≢◌, inl, inr, refl, false, not, none, some, Outcome, ok, err, panic, is_panic, is_some,
  arith, get, get-insert, length, length-insert, ◌==◌, eq_iff, Bool-cases, Option-cases,
}
use frost_tools.Api.{Bytes, max_msg_size, PublicKey, public_key_eq}
use frost_tools.Cipher.Snow.{Snow, IsRegular}
use frost_tools.Cipher.Noise.{Noise, write_message, read_message, after_handshake}
use frost_tools.Cipher.Peers.{Cipher, CipherError, Noises, at_peer, from_snow}

module _ (S : Snow) where
  open S use {HandshakeState, TransportState, SnowError}

  -- "Only one of them must have a value at any given time".
  abbrev pub HasOneState : Noise S → Type 0
  HasOneState n = is_some n.handshake_state ≡ not (is_some n.transport_state)

  pub record AllOneState (m : Noises S) : Type 0 where
    pub one_state : (p : PublicKey) (n : Noise S) → get m p ≡ some n → HasOneState n

  pub record IsValid (c : Cipher S) : Type 0 where
    pub sending : AllOneState c.send_noise_map
    pub receiving : AllOneState c.recv_noise_map

  -- The operation keeps one state in a channel that has one, and returns.
  pub record IsSafe (op : Noise S → Outcome SnowError Bytes × Noise S) : Type 0 where
    pub keeps : (n : Noise S) → HasOneState n → HasOneState (op n).1
    pub returns : (n : Noise S) → HasOneState n → is_panic (op n).0 ≡ false

  from_snow-returns :
      (r : Outcome SnowError Bytes) → is_panic r ≡ false → is_panic (from_snow S r) ≡ false
  from_snow-returns (ok a) h = refl
  from_snow-returns (err e) h = refl
  from_snow-returns panic h = cc

  module _ (R : IsRegular S) where
    no_transport_lem :
        (n : Noise S) (h : HandshakeState)
        → HasOneState n
        → n.handshake_state ≡ some h
        → n.transport_state ≡ none
    no_transport_lem n h one eh = ground arith

    after_handshake-HasOneState :
        (r : Outcome SnowError Bytes) (h : HandshakeState) (n : Noise S)
        → n.transport_state ≡ none
        → is_panic r ≡ false
        → HasOneState (after_handshake S r h n).1 × (is_panic (after_handshake S r h n).0 ≡ false)
    unfolding after_handshake
    after_handshake-HasOneState r h n e returns = elim (Bool-cases (S.is_handshake_finished h)) [
      | inl done ↦ let (t, et) = R.finishes h done in rw (done, et) (refl, returns)
      | inr going ↦ rw (going, e) (refl, returns)
    ]

    write_message-safe :
        (b : Bytes) (n : Noise S)
        → HasOneState n
        → HasOneState (write_message S b n).1 × (is_panic (write_message S b n).0 ≡ false)
    unfolding write_message
    write_message-safe b n one = elim (Option-cases n.handshake_state) [
      | inl no_handshake ↦ elim (Option-cases n.transport_state) [
        | inl no_transport ↦ absurd (ground arith)
        | inr (t, et) ↦ rw (no_handshake, et) (refl, R.write_transport_returns max_msg_size b t)
      ]
      | inr (h, eh) ↦ rw eh (
          after_handshake-HasOneState (S.write_handshake max_msg_size b h).0
            (S.write_handshake max_msg_size b h).1 n (no_transport_lem n h one eh)
            (R.write_handshake_returns max_msg_size b h))
    ]

    read_message-safe :
        (b : Bytes) (n : Noise S)
        → HasOneState n
        → HasOneState (read_message S b n).1 × (is_panic (read_message S b n).0 ≡ false)
    unfolding read_message
    read_message-safe b n one = elim (Option-cases n.handshake_state) [
      | inl no_handshake ↦ elim (Option-cases n.transport_state) [
        | inl no_transport ↦ absurd (ground arith)
        | inr (t, et) ↦ rw (no_handshake, et) (refl, R.read_transport_returns max_msg_size b t)
      ]
      | inr (h, eh) ↦ rw eh (
          after_handshake-HasOneState (S.read_handshake max_msg_size b h).0
            (S.read_handshake max_msg_size b h).1 n (no_transport_lem n h one eh)
            (R.read_handshake_returns max_msg_size b h))
    ]

    pub write_message-IsSafe : (b : Bytes) → IsSafe (write_message S b)
    write_message-IsSafe b = record {
      keeps = λ n one. (write_message-safe b n one).0;
      returns = λ n one. (write_message-safe b n one).1;
    }

    pub read_message-IsSafe : (b : Bytes) → IsSafe (read_message S b)
    read_message-IsSafe b = record {
      keeps = λ n one. (read_message-safe b n one).0;
      returns = λ n one. (read_message-safe b n one).1;
    }

  -- What an operation on the channel of one peer does to all the channels.
  pub at_peer-AllOneState :
      (p : PublicKey) (e : CipherError S) (op : Noise S → Outcome SnowError Bytes × Noise S)
      (m : Noises S)
      → IsSafe op
      → AllOneState m
      → AllOneState (at_peer S p e op m).1 × (is_panic (at_peer S p e op m).0 ≡ false)
  unfolding at_peer
  at_peer-AllOneState p e op m safe valid = elim (Option-cases (get m p)) [
    | inl none_there ↦ rw (none_there, at_peer) (valid, refl)
    | inr (n, en) ↦
        rw (en, at_peer)
          (
            record {
              one_state = λ q k h. elim (Bool-cases (p == q)) [
                | inl same ↦
                    ground (arith, get-insert p q (op n).1 m, safe.keeps n (valid.one_state p n en))
                | inr other ↦ valid.one_state q k (ground (arith, get-insert p q (op n).1 m))
              ];
            },
            from_snow-returns (op n).0 (safe.returns n (valid.one_state p n en)),
          )
  ]

  -- A peer that is not there is an error, and changes nothing; no other peer is affected.
  pub at_peer-get :
      (p : PublicKey) (e : CipherError S) (op : Noise S → Outcome SnowError Bytes × Noise S)
      (m : Noises S)
      → (get m p ≡ none → at_peer S p e op m ≡ (err e, m))
        × ((q : PublicKey) → q ≢ p → get (at_peer S p e op m).1 q ≡ get m q)
        × (length (at_peer S p e op m).1 ≡ length m)
  unfolding at_peer
  at_peer-get p e op m = (
    λ none_there. rw (none_there, at_peer) refl,
    λ q other. elim (Option-cases (get m p)) [
      | inl none_there ↦ rw (none_there, at_peer) refl
      | inr (n, en) ↦
          rw (en, at_peer) (ground (arith, other, get-insert p q (op n).1 m, eq_iff p q))
    ],
    elim (Option-cases (get m p)) [
      | inl none_there ↦ rw (none_there, at_peer) refl
      | inr (n, en) ↦ rw (en, at_peer) (ground (arith, length-insert p (op n).1 m))
    ],
  )
