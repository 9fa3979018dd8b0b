-- ===== src/Cipher/Peers.antt =====
-- The struct `Cipher`: a channel to and from each peer.
use frost_tools.Prelude.{
  Option, none, some, List, [], ◌∷◌, Outcome, ok, err, panic, bind, Map, get, insert, nat_eq,
  length, ◌==◌, if◌then◌else◌,
}
use frost_tools.Api.{Bytes, Uuid, PublicKey, public_key_eq, Msg}
use frost_tools.Cipher.Snow.{Snow}
use frost_tools.Cipher.Noise
use frost_tools.Cipher.Noise.{Noise, write_message, read_message}

module _ (S : Snow) where
  open S use {SnowError}

  -- `Error` of cipher.rs; its spelling of `unknown` is corrected.
  pub data CipherError : Type 0 where
    snow_error : SnowError → CipherError
    unknown_recipient unknown_sender invalid_private_key : CipherError

  -- `?` at a result of snow.
  abbrev pub from_snow : {A : Type 0} → Outcome SnowError A → Outcome CipherError A
  from_snow (ok a) = ok a
  from_snow (err e) = err (snow_error e)
  from_snow panic = panic

  -- `PrivateKey::sign`, where `xed_sign` is the signature of the crate xeddsa by a key of 32 bytes, for
  -- the randomness that it draws.
  unfoldable pub sign : (Bytes → Uuid → Bytes) → Bytes → Uuid → Outcome CipherError Bytes
  sign xed_sign key msg =
      if length key == 32 then ok (xed_sign key msg) else err invalid_private_key

  abbrev pub Noises : Type 0
  Noises = Map PublicKey (Noise S)

  pub record Cipher : Type 0 where
    pub send_noise_map : Noises
    pub recv_noise_map : Noises

  -- A private key and its public key.
  unfoldable pub generate_keypair : Outcome CipherError (Bytes × PublicKey)
  generate_keypair =
      bind (from_snow S.generate_keypair) (λ pair. ok (pair.0, record { bytes = pair.1 }))

  -- The loop of `Cipher::new`, over the peers that are left.
  unfoldable pub add_peers : Bytes → List PublicKey → Cipher → Outcome CipherError Cipher
  add_peers private_key [] c = ok c
  add_peers private_key (p ∷ ps) c =
      bind (from_snow (S.build_initiator private_key p.bytes)) (λ send_noise.
        bind (from_snow (S.build_responder private_key p.bytes)) (λ recv_noise.
          add_peers private_key ps (record {
            send_noise_map = insert p (Noise.new S send_noise) c.send_noise_map;
            recv_noise_map = insert p (Noise.new S recv_noise) c.recv_noise_map;
          })))

  unfoldable pub new : Bytes → List PublicKey → Outcome CipherError Cipher
  new private_key peers =
      add_peers private_key peers (record { send_noise_map = []; recv_noise_map = [] })

  -- The recipient of a message, the only peer if none is named.
  unfoldable pub recipient_of : Option PublicKey → Noises → Outcome CipherError PublicKey
  recipient_of (some p) m = ok p
  recipient_of none ((p, n) ∷ []) = ok p
  recipient_of none m = panic

  -- `get_mut` at a peer, and one operation on the `Noise` that is there, in place.
  unfoldable pub at_peer :
      PublicKey
      → CipherError
      → (Noise S → Outcome SnowError Bytes × Noise S)
      → Noises
      → Outcome CipherError Bytes × Noises
  at_peer p unknown op m = elim (get m p) [
    | none ↦ (err unknown, m)
    | some n ↦ let (r, n') = op n in (from_snow r, insert p n' m)
  ]

  unfoldable pub encrypt : Option PublicKey → Bytes → Cipher → Outcome CipherError Bytes × Cipher
  unfolding at_peer
  encrypt recipient msg c = elim (recipient_of recipient c.send_noise_map) [
    | ok p ↦
        let (r, m) = at_peer p unknown_recipient (write_message S msg) c.send_noise_map in
        (r, record c { send_noise_map = m })
    | err e ↦ (err e, c)
    | panic ↦ (panic, c)
  ]

  -- The decrypted message keeps its sender.
  abbrev pub from_sender : PublicKey → Outcome CipherError Bytes → Outcome CipherError Msg
  from_sender p r = bind r (λ payload. ok (record { sender = p; msg = payload }))

  unfoldable pub decrypt : Msg → Cipher → Outcome CipherError Msg × Cipher
  unfolding at_peer
  decrypt msg c =
      let (r, m) = at_peer msg.sender unknown_sender (read_message S msg.msg) c.recv_noise_map in
      (from_sender msg.sender r, record c { recv_noise_map = m })
