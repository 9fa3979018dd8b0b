-- ===== src/Cipher/Use.antt =====
-- Each operation of the cipher on each of its branches.
use mathlib.Core.Path.{subst}
use frost_tools.Prelude.{
  ◌≡◌, ◌≢◌, ◌⊎◌, inl, inr, refl, ap, ◌∙◌, true, false, not, ◌&&◌, Option, none, some, List, [], ◌∷◌,
  Outcome, ok, err, panic, is_panic, is_some, arith, get, insert, get-insert, length, contains,
  ◌==◌, ◌||◌, nat_eq, Bool-cases, bind-eq-ok,
}
use frost_tools.Api.{Bytes, PublicKey, public_key_eq, Msg}
use frost_tools.Cipher.Snow.{Snow, IsRegular}
use frost_tools.Cipher.Noise
use frost_tools.Cipher.Noise.{Noise, write_message, read_message}
use frost_tools.Cipher.Peers.{
  Cipher, CipherError, Noises, new, add_peers, encrypt, decrypt, recipient_of, at_peer, from_snow,
  unknown_recipient, unknown_sender, from_sender,
}
use frost_tools.Cipher.Validity.{
  AllOneState, IsValid, at_peer-AllOneState, at_peer-get, write_message-IsSafe, read_message-IsSafe,
}

module _ (S : Snow) where
  add_one :
      (p : PublicKey) (h : S.HandshakeState) (m : Noises S)
      → AllOneState S m
      → AllOneState S (insert p (Noise.new S h) m)
  unfolding Noise.new
  add_one p h m valid = record {
    one_state = λ q n e. elim (Bool-cases (p == q)) [
      | inl same ↦ ground (arith, get-insert p q (Noise.new S h) m)
      | inr other ↦ valid.one_state q n (ground (arith, get-insert p q (Noise.new S h) m))
    ];
  }

  -- The peers of `c` are `ps` besides those of `before`, in both directions.
  pub record Adds (ps : List PublicKey) (before c : Cipher S) : Type 0 where
    pub to_send :
        (p : PublicKey)
        → is_some (get c.send_noise_map p)
          ≡ (contains ps p || is_some (get before.send_noise_map p))
    pub to_receive :
        (p : PublicKey)
        → is_some (get c.recv_noise_map p)
          ≡ (contains ps p || is_some (get before.recv_noise_map p))

  add_peers_lem :
      (key : Bytes) (ps : List PublicKey) (before c : Cipher S)
      → IsValid S before
      → add_peers S key ps before ≡ ok c
      → IsValid S c × Adds ps before c
  unfolding add_peers contains
  add_peers_lem key [] before c valid e =
      subst (λ x. IsValid S x × Adds [] before x) (same_cipher before c e)
        (valid, record { to_send = λ p. refl; to_receive = λ p. refl })
    where
      same_cipher :
          (b d : Cipher S) → ◌≡◌ {A = Outcome (CipherError S) (Cipher S)} (ok b) (ok d) → b ≡ d
      same_cipher b d q = cc
  add_peers_lem key (p ∷ ps) before c valid e =
      let (h, eh, e1) = bind-eq-ok (from_snow S (S.build_initiator key p.bytes)) _ e in
      let (k, ek, e2) = bind-eq-ok (from_snow S (S.build_responder key p.bytes)) _ e1 in
      let (vc, adds) =
        add_peers_lem key ps
          (record {
            send_noise_map = insert p (Noise.new S h) before.send_noise_map;
            recv_noise_map = insert p (Noise.new S k) before.recv_noise_map;
          })
          c
          (record {
            sending = add_one p h before.send_noise_map valid.sending;
            receiving = add_one p k before.recv_noise_map valid.receiving;
          })
          e2 in
      (
        vc,
        record {
          to_send = λ q.
              ground (arith, adds.to_send q, get-insert p q (Noise.new S h) before.send_noise_map);
          to_receive = λ q.
              ground
                (arith, adds.to_receive q, get-insert p q (Noise.new S k) before.recv_noise_map);
        },
      )

  -- A new cipher has a channel to and from exactly the given peers, each in one state.
  pub new_peers :
      (key : Bytes) (ps : List PublicKey) (c : Cipher S)
      → new S key ps ≡ ok c
      → IsValid S c
        × ((p : PublicKey)
            → (is_some (get c.send_noise_map p) ≡ contains ps p)
              × (is_some (get c.recv_noise_map p) ≡ contains ps p))
  unfolding new get
  new_peers key ps c e =
      let (valid, adds) =
        add_peers_lem key ps (record { send_noise_map = []; recv_noise_map = [] }) c
          (record {
            sending = record { one_state = λ p n h. absurd (ground arith) };
            receiving = record { one_state = λ p n h. absurd (ground arith) };
          })
          e in
      (valid, λ p. (ground (arith, adds.to_send p), ground (arith, adds.to_receive p)))

  sender-returns :
      (p : PublicKey) (r : Outcome (CipherError S) Bytes)
      → is_panic r ≡ false
      → is_panic (from_sender S p r) ≡ false
  sender-returns p (ok a) h = refl
  sender-returns p (err e) h = refl
  sender-returns p panic h = cc

  pub sender_kept :
      (p : PublicKey) (m : Msg) (r : Outcome (CipherError S) Bytes)
      → from_sender S p r ≡ ok m
      → m.sender ≡ p
  sender_kept p m (ok a) h = ground arith
  sender_kept p m (err e) h = cc
  sender_kept p m panic h = cc

  named : (p q : PublicKey) → ◌≡◌ {A = Option PublicKey} (some p) (some q) → p ≡ q
  named p q e = cc

  unnamed :
      (m : Noises S)
      → ((p : PublicKey) × (recipient_of S none m ≡ ok p) × ((length m == 1) ≡ true))
        ⊎ ((recipient_of S none m ≡ panic) × ((length m == 1) ≡ false))
  unfolding recipient_of
  unnamed [] = inr (refl, refl)
  unnamed ((p, n) ∷ []) = inl (p, refl, refl)
  unnamed ((p, n) ∷ q ∷ m) = inr (refl, ground arith)

  module _ (R : IsRegular S) where
    -- In a valid cipher, `encrypt` panics exactly if no recipient is named and there is not just one
    -- peer. It keeps the cipher valid and the channels from the peers as they were. A named recipient
    -- who is no peer is an error that changes nothing; a named peer's channel alone is changed.
    pub encrypt_lem :
        (recipient : Option PublicKey) (msg : Bytes) (c : Cipher S)
        → IsValid S c
        → let (r, c') = encrypt S recipient msg c in
          IsValid S c'
          × (is_panic r ≡ (not (is_some recipient) && not (length c.send_noise_map == 1)))
          × (c'.recv_noise_map ≡ c.recv_noise_map)
          × ((p : PublicKey)
              → recipient ≡ some p
              → (get c.send_noise_map p ≡ none → (r ≡ err unknown_recipient) × (c' ≡ c))
                × ((q : PublicKey) → q ≢ p → get c'.send_noise_map q ≡ get c.send_noise_map q))
    unfolding encrypt recipient_of
    encrypt_lem (some p) msg c valid =
        let op = write_message S msg in
        let (kept, returns) =
          at_peer-AllOneState S p unknown_recipient op c.send_noise_map
            (write_message-IsSafe S R msg) valid.sending in
        let (absent, others, size) = at_peer-get S p unknown_recipient op c.send_noise_map in
        (
          record { sending = kept; receiving = valid.receiving },
          returns,
          refl,
          λ p' e.
              let same = named p p' e in
              (
                λ none_there.
                    let at_p = ap (get c.send_noise_map) same ∙ none_there in
                    (rw (absent at_p) refl, rw (absent at_p) refl),
                λ q other. others q (λ q_p. other (q_p ∙ same)),
              ),
        )
    encrypt_lem none msg c valid = elim (unnamed c.send_noise_map) [
      | inl (p, to_p, single) ↦
          let op = write_message S msg in
          let (kept, returns) =
            at_peer-AllOneState S p unknown_recipient op c.send_noise_map
              (write_message-IsSafe S R msg) valid.sending in
          rw (encrypt, to_p, single)
            (
              record { sending = kept; receiving = valid.receiving },
              returns,
              refl,
              λ q e. absurd cc,
            )
      | inr (no_one, several) ↦ rw (encrypt, no_one, several) (valid, refl, refl, λ q e. absurd cc)
    ]

    -- In a valid cipher, `decrypt` returns, keeps the cipher valid, and leaves the channels to the
    -- peers as they were. A message of a sender who is no peer is an error that changes nothing; a
    -- message of a peer changes that peer's channel alone, and what it decrypts to keeps its sender.
    pub decrypt_lem :
        (msg : Msg) (c : Cipher S)
        → IsValid S c
        → let (r, c') = decrypt S msg c in
          IsValid S c'
          × (is_panic r ≡ false)
          × (c'.send_noise_map ≡ c.send_noise_map)
          × (get c.recv_noise_map msg.sender ≡ none → (r ≡ err unknown_sender) × (c' ≡ c))
          × ((q : PublicKey) → q ≢ msg.sender → get c'.recv_noise_map q ≡ get c.recv_noise_map q)
          × ((m : Msg) → r ≡ ok m → m.sender ≡ msg.sender)
    unfolding decrypt
    decrypt_lem msg c valid =
        let op = read_message S msg.msg in
        let done = at_peer S msg.sender unknown_sender op c.recv_noise_map in
        let (kept, returns) =
          at_peer-AllOneState S msg.sender unknown_sender op c.recv_noise_map
            (read_message-IsSafe S R msg.msg) valid.receiving in
        let (absent, others, size) = at_peer-get S msg.sender unknown_sender op c.recv_noise_map in
        (
          record { sending = valid.sending; receiving = kept },
          sender-returns msg.sender done.0 returns,
          refl,
          λ none_there. (rw (absent none_there) refl, rw (absent none_there) refl),
          others,
          λ m e. sender_kept msg.sender m done.0 e,
        )
