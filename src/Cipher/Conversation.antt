-- ===== src/Cipher/Conversation.antt =====
-- What one cipher encrypts, the cipher of the recipient decrypts.
use frost_tools.Prelude.{
  ◌≡◌, ◌+◌, ◌≤◌, ◌⊎◌, inl, inr, refl, true, none, some, arith, List, [], ◌∷◌, ok, Method, ◌>>=◌,
  pure, get, insert, get-insert, contains, eq_self, length, ap,
}
use frost_tools.Api.{Bytes, PublicKey, public_key_eq, Msg, max_msg_size}
use frost_tools.Cipher.Snow.{Snow, Channels}
use frost_tools.Cipher.Noise
use frost_tools.Cipher.Noise.{Noise, write_message, read_message, after_handshake}
use frost_tools.Cipher.Peers.{Cipher, CipherError, encrypt, decrypt, recipient_of, at_peer, new}
use frost_tools.Cipher.Opening.{new-IsNew}

module _ (S : Snow) where
  -- Messages for one recipient, encrypted one after the other.
  unfoldable pub encrypt_all :
      PublicKey → List Bytes → Method (CipherError S) (Cipher S) (List Bytes)
  encrypt_all p [] = pure []
  encrypt_all p (m ∷ ms) = do b ← encrypt S (some p) m; bs ← encrypt_all p ms; pure (b ∷ bs)

  -- Messages from one sender, decrypted one after the other.
  unfoldable pub decrypt_all : PublicKey → List Bytes → Method (CipherError S) (Cipher S) (List Msg)
  decrypt_all p [] = pure []
  decrypt_all p (b ∷ bs) = do
    m ← decrypt S (record { sender = p; msg = b })
    ms ← decrypt_all p bs
    pure (m ∷ ms)

  abbrev pub sent_by : PublicKey → List Bytes → List Msg
  sent_by p [] = []
  sent_by p (m ∷ ms) = record { sender = p; msg = m } ∷ sent_by p ms

  encrypt_at :
      (p : PublicKey) (m : Bytes) (c : Cipher S) (n n' : Noise S) (bytes : Bytes)
      → get c.send_noise_map p ≡ some n
      → write_message S m n ≡ (ok bytes, n')
      → encrypt S (some p) m c
        ≡ (ok bytes, record c { send_noise_map = insert p n' c.send_noise_map })
  unfolding encrypt recipient_of at_peer
  encrypt_at p m c n n' bytes there wrote = rw (there, wrote, at_peer) refl

  decrypt_at :
      (p : PublicKey) (b : Bytes) (c : Cipher S) (n n' : Noise S) (m : Bytes)
      → get c.recv_noise_map p ≡ some n
      → read_message S b n ≡ (ok m, n')
      → decrypt S (record { sender = p; msg = b }) c ≡ (
        ok (record { sender = p; msg = m }),
        record c { recv_noise_map = insert p n' c.recv_noise_map },
      )
  unfolding decrypt at_peer
  decrypt_at p b c n n' m there read = rw (there, read, at_peer) refl

  module _ (K : Channels S) where
    abbrev pub Fits : List Bytes → Type 0
    Fits [] = Unit
    Fits (m ∷ ms) = (length m + K.overhead ≤ max_msg_size) × Fits ms

    abbrev transport : S.TransportState → Noise S
    transport t = record { handshake_state = none; transport_state = some t }

    -- The two ends are in step.
    record Linked (n k : Noise S) : Type 0 where
      ends :
          ((h : S.HandshakeState) × (g : S.HandshakeState) × (n ≡ Noise.new S h)
            × (k ≡ Noise.new S g)
            × K.Fresh h g)
          ⊎ ((t : S.TransportState) × (u : S.TransportState) × (n ≡ transport t)
              × (k ≡ transport u)
              × K.Open t u)

    message-Linked :
        (n k : Noise S) (payload : Bytes)
        → Linked n k
        → length payload + K.overhead ≤ max_msg_size
        → (bytes : Bytes) × (n' : Noise S) × (k' : Noise S) × (write_message S payload n
            ≡ (ok bytes, n'))
          × (read_message S bytes k ≡ (ok payload, k'))
          × Linked n' k'
    unfolding Noise.new write_message read_message after_handshake
    message-Linked n k payload link fits = elim link.ends [
      | inl (h, g, en, eg, f) ↦
          let (h', g', bytes, t, u, p, dh, dg, th, tg, o) = K.first h g payload f fits in
          (
            bytes,
            transport t,
            transport u,
            rw (en, p.written, dh, th) (ap (λ r. (r.0, transport t)) p.written),
            rw (eg, p.received, dg, tg) (ap (λ r. (r.0, transport u)) p.received),
            record { ends = inr (t, u, refl, refl, o) },
          )
      | inr (t, u, et, eu, o) ↦
          let (t', u', bytes, p, o') = K.later t u payload o fits in
          (
            bytes,
            transport t',
            transport u',
            rw (et, p.written) refl,
            rw (eu, p.received) refl,
            record { ends = inr (t', u', refl, refl, o') },
          )
    ]

    -- A channel from the cipher `a` to the cipher `b`, whose ends are in step.
    record Connected (a_key b_key : PublicKey) (a b : Cipher S) : Type 0 where
      sender : Noise S
      receiver : Noise S
      sends : get a.send_noise_map b_key ≡ some sender
      receives : get b.recv_noise_map a_key ≡ some receiver
      linked : Linked sender receiver

    message-Connected :
        (a_key b_key : PublicKey) (m : Bytes) (a b : Cipher S)
        → Connected a_key b_key a b
        → length m + K.overhead ≤ max_msg_size
        → (bytes : Bytes) × (a' : Cipher S) × (b' : Cipher S) × (encrypt S (some b_key) m a
            ≡ (ok bytes, a'))
          × (decrypt S (record { sender = a_key; msg = bytes }) b
              ≡ (ok (record { sender = a_key; msg = m }), b'))
          × Connected a_key b_key a' b'
    unfolding encrypt decrypt recipient_of at_peer
    message-Connected a_key b_key m a b c fits =
        let (bytes, n, k, wrote, read, link) = message-Linked c.sender c.receiver m c.linked fits in
        (
          bytes,
          record a { send_noise_map = insert b_key n a.send_noise_map },
          record b { recv_noise_map = insert a_key k b.recv_noise_map },
          encrypt_at b_key m a c.sender n bytes c.sends wrote,
          decrypt_at a_key bytes b c.receiver k m c.receives read,
          record {
            sender = n;
            receiver = k;
            sends = ground (arith, get-insert b_key b_key n a.send_noise_map, eq_self b_key);
            receives = ground (arith, get-insert a_key a_key k b.recv_noise_map, eq_self a_key);
            linked = link;
          },
        )

    all-Connected :
        (a_key b_key : PublicKey) (ms : List Bytes) (a b : Cipher S)
        → Connected a_key b_key a b
        → Fits ms
        → (cs : List Bytes) × (a' : Cipher S) × (b' : Cipher S) × (encrypt_all b_key ms a
            ≡ (ok cs, a'))
          × (decrypt_all a_key cs b ≡ (ok (sent_by a_key ms), b'))
    unfolding encrypt_all decrypt_all
    all-Connected a_key b_key [] a b c fits = ([], a, b, refl, refl)
    all-Connected a_key b_key (m ∷ ms) a b c fits =
        let (bytes, a', b', e, d, c') = message-Connected a_key b_key m a b c fits.0 in
        let (cs, a'', b'', es, ds) = all-Connected a_key b_key ms a' b' c' fits.1 in
        (bytes ∷ cs, a'', b'', rw (e, es) refl, rw (d, ds) refl)

    -- Of two participants who each hold a key pair and know the other's public key: if both have made
    -- their ciphers, then what the one encrypts for the other, in any number of messages that fit, is
    -- encrypted without an error, and the other decrypts it, in order, to the same messages, each with
    -- the key of the first as its sender.
    pub conversation :
        (a_private b_private : Bytes) (a_key b_key : PublicKey) (a_peers b_peers : List PublicKey)
        (a b : Cipher S) (ms : List Bytes)
        → K.IsPair a_private a_key.bytes
        → K.IsPair b_private b_key.bytes
        → new S a_private a_peers ≡ ok a
        → new S b_private b_peers ≡ ok b
        → contains a_peers b_key ≡ true
        → contains b_peers a_key ≡ true
        → Fits ms
        → (cs : List Bytes) × (a' : Cipher S) × (b' : Cipher S) × (encrypt_all b_key ms a
            ≡ (ok cs, a'))
          × (decrypt_all a_key cs b ≡ (ok (sent_by a_key ms), b'))
    conversation a_private b_private a_key b_key a_peers b_peers a b ms pa pb na nb ab ba fits =
        let n = new-IsNew S a_private a_peers a b_key na ab in
        let k = new-IsNew S b_private b_peers b a_key nb ba in
        all-Connected a_key b_key ms a b
          (record {
            sender = Noise.new S n.initiator;
            receiver = Noise.new S k.responder;
            sends = n.sends;
            receives = k.receives;
            linked = record {
              ends = inl (
                n.initiator,
                k.responder,
                refl,
                refl,
                K.fresh a_private a_key.bytes b_private b_key.bytes n.initiator k.responder pa pb
                    n.initiates k.responds,
              );
            };
          })
          fits
