-- ===== src/Comms/Arrivals.antt =====
-- Where the messages that a client takes come from.
use mathlib.Core.List.{Mem}
use frost_tools.Prelude.{
  ◌≡◌, ◌⊎◌, ◌∙◌, refl, sym, ap, Bool, Bool-cases, none, some, Option-cases, inl, inr, List, get,
  Outcome, ok, err, panic, Outcome-cases,
}
use frost_tools.Api.{Uuid, Bytes, PublicKey, public_key_eq, Msg, max_msg_size}
use frost_tools.Client.Transport.{Transport}
use frost_tools.Client.Calls.{Link, receive}
use frost_tools.Cipher.Snow.{Snow}
use frost_tools.Cipher.Noise.{Noise, read_message, after_handshake}
use frost_tools.Cipher.Peers.{
  Cipher, CipherError, Noises, decrypt, at_peer, from_snow, from_sender, unknown_sender,
}

module _ (S : Snow) where
  open S use {HandshakeState, TransportState, SnowError}

  -- snow has read `sealed` as a message with this payload: a handshake, or a transport.
  abbrev pub Opens : Bytes → Bytes → Type 0
  Opens sealed payload =
      ((h : HandshakeState) × (k : HandshakeState) × (S.read_handshake max_msg_size sealed h
          ≡ (ok payload, k)))
      ⊎ ((t : TransportState) × (u : TransportState) × (S.read_transport max_msg_size sealed t
            ≡ (ok payload, u)))

  second : {A B : Type 0} (x : A × B) {a : A} → x.0 ≡ a → x ≡ (a, x.1)
  second x e = ap (λ y. (y, x.1)) e

  after_handshake-ok :
      (r : Outcome SnowError Bytes) (h : HandshakeState) (n : Noise S) (payload : Bytes)
      → (after_handshake S r h n).0 ≡ ok payload
      → r ≡ ok payload
  unfolding after_handshake
  after_handshake-ok r h n payload e = elim (Bool-cases (S.is_handshake_finished h)) [
    | inr more ↦ rw (more, after_handshake) at e
    | inl done ↦ elim (Outcome-cases (S.into_transport_mode h)) [
      | inl (t, f) ↦ rw (done, f, after_handshake) at e
      | inr (inl (x, f)) ↦ let g = rw (done, f, after_handshake) at e in cc
      | inr (inr f) ↦ let g = rw (done, f, after_handshake) at e in cc
    ]
  ]

  read_message-Opens :
      (sealed payload : Bytes) (n : Noise S)
      → (read_message S sealed n).0 ≡ ok payload
      → Opens sealed payload
  unfolding read_message
  read_message-Opens sealed payload n e = elim (Option-cases n.handshake_state) [
    | inr (h, is) ↦
        let x = S.read_handshake max_msg_size sealed h in
        let r = after_handshake-ok x.0 x.1 n payload (rw (is, read_message) at e) in
        inl (h, x.1, second x r)
    | inl over ↦ elim (Option-cases n.transport_state) [
      | inr (t, is) ↦
          let x = S.read_transport max_msg_size sealed t in
          let r : x.0 ≡ ok payload = rw (over, is, read_message) at e in inr (t, x.1, second x r)
      | inl nothing ↦ let f = rw (over, nothing, read_message) at e in cc
    ]
  ]

  from_snow-ok : {A : Type 0} (r : Outcome SnowError A) {a : A} → from_snow S r ≡ ok a → r ≡ ok a
  from_snow-ok (ok b) e = let same : b ≡ _ = cc in ap ok same
  from_snow-ok (err x) e = cc
  from_snow-ok panic e = cc

  at_peer-some :
      (p : PublicKey) (op : Noise S → Outcome SnowError Bytes × Noise S) (m : Noises S)
      (n : Noise S)
      → get m p ≡ some n
      → (at_peer S p unknown_sender op m).0 ≡ from_snow S (op n).0
  unfolding at_peer
  at_peer-some p op m n e = rw (e, at_peer) refl

  at_peer-none :
      (p : PublicKey) (op : Noise S → Outcome SnowError Bytes × Noise S) (m : Noises S)
      → get m p ≡ none
      → (at_peer S p unknown_sender op m).0 ≡ err unknown_sender
  unfolding at_peer
  at_peer-none p op m e = rw (e, at_peer) refl

  from_sender-ok :
      (p : PublicKey) (r : Outcome (CipherError S) Bytes) (clear : Msg)
      → from_sender S p r ≡ ok clear
      → (clear.sender ≡ p) × (r ≡ ok clear.msg)
  from_sender-ok p (ok b) clear e =
      let sender : p ≡ clear.sender = cc in
      let same : b ≡ clear.msg = cc in (sym sender, ap ok same)
  from_sender-ok p (err x) clear e = cc
  from_sender-ok p panic clear e = cc

  -- What is decrypted was read by snow, in a channel from the sender.
  pub decrypt-Opens :
      (m clear : Msg) (cipher : Cipher S)
      → (decrypt S m cipher).0 ≡ ok clear
      → (clear.sender ≡ m.sender) × Opens m.msg clear.msg
  unfolding decrypt
  decrypt-Opens m clear cipher e =
      let op = read_message S m.msg in
      let (sender, r) =
        from_sender-ok m.sender (at_peer S m.sender unknown_sender op cipher.recv_noise_map).0 clear
          e in
      elim (Option-cases (get cipher.recv_noise_map m.sender)) [
        | inl missing ↦
            let f = sym (at_peer-none m.sender op cipher.recv_noise_map missing) ∙ r in cc
        | inr (n, there) ↦ (
          sender,
          read_message-Opens m.msg clear.msg n (
              from_snow-ok (op n).0
                (sym (at_peer-some m.sender op cipher.recv_noise_map n there) ∙ r)),
        )
      ]

-- The message was in a batch that the server has returned to `receive`, and was decrypted.
pub record Arrived (T : Transport) (S : Snow) (as_coordinator : Bool) (m : Msg) : Type 0 where
  pub session_id : Uuid
  pub before : Link T
  pub after : Link T
  pub batch : List Msg
  pub sealed : Msg
  pub fetched :
      receive T (record { session_id = session_id; as_coordinator = as_coordinator }) before
      ≡ (ok batch, after)
  pub there : Mem sealed batch
  pub sender : m.sender ≡ sealed.sender
  pub opened : Opens S sealed.msg m.msg
