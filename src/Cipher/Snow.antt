-- ===== src/Cipher/Snow.antt =====
-- The crate snow, as far as cipher.rs calls it, and what its documentation says of the pattern K.
use frost_tools.Prelude.{ℕ, ◌≡◌, ◌+◌, ◌≤◌, Bool, true, false, is_panic, Outcome, ok, length}
use frost_tools.Api.{Bytes, max_msg_size}

-- An operation that writes into a buffer is given the buffer's size and returns what it has written
-- there. A state is changed in place: the new one is beside the result.
pub record Snow : Type 1 where
  pub HandshakeState : Type 0
  pub TransportState : Type 0
  pub SnowError : Type 0
  pub generate_keypair : Outcome SnowError (Bytes × Bytes)
  pub build_initiator : Bytes → Bytes → Outcome SnowError HandshakeState
  pub build_responder : Bytes → Bytes → Outcome SnowError HandshakeState
  pub write_handshake : ℕ → Bytes → HandshakeState → Outcome SnowError Bytes × HandshakeState
  pub read_handshake : ℕ → Bytes → HandshakeState → Outcome SnowError Bytes × HandshakeState
  pub is_handshake_finished : HandshakeState → Bool
  pub into_transport_mode : HandshakeState → Outcome SnowError TransportState
  pub write_transport : ℕ → Bytes → TransportState → Outcome SnowError Bytes × TransportState
  pub read_transport : ℕ → Bytes → TransportState → Outcome SnowError Bytes × TransportState

module _ (S : Snow) where
  open S use {HandshakeState, TransportState, SnowError}

  -- `into_transport_mode` fails only before the handshake is finished, and reading and writing
  -- return.
  pub record IsRegular : Type 0 where
    pub finishes :
        (h : HandshakeState)
        → S.is_handshake_finished h ≡ true
        → (t : TransportState) × (S.into_transport_mode h ≡ ok t)
    pub write_handshake_returns :
        (n : ℕ) (b : Bytes) (h : HandshakeState) → is_panic (S.write_handshake n b h).0 ≡ false
    pub read_handshake_returns :
        (n : ℕ) (b : Bytes) (h : HandshakeState) → is_panic (S.read_handshake n b h).0 ≡ false
    pub write_transport_returns :
        (n : ℕ) (b : Bytes) (t : TransportState) → is_panic (S.write_transport n b t).0 ≡ false
    pub read_transport_returns :
        (n : ℕ) (b : Bytes) (t : TransportState) → is_panic (S.read_transport n b t).0 ≡ false

  -- `r` accepts `bytes` as `payload` and ends in `r'`, after `w` has written them and ended in `w'`.
  pub record Passes {W R : Type 0} (write : Bytes → W → Outcome SnowError Bytes × W)
      (read : Bytes → R → Outcome SnowError Bytes × R) (payload : Bytes) (w w' : W) (r r' : R)
      (bytes : Bytes) : Type 0 where
    pub written : write payload w ≡ (ok bytes, w')
    pub received : read bytes r ≡ (ok payload, r')

  -- The two ends of a channel from an initiator to a responder. In the pattern K the one handshake
  -- message carries the first payload; `overhead` is the most that a message is longer than its
  -- payload. `IsPair` holds of a private key and its public key.
  pub record Channels : Type 1 where
    pub overhead : ℕ
    pub Fresh : HandshakeState → HandshakeState → Type 0
    pub Open : TransportState → TransportState → Type 0
    pub IsPair : Bytes → Bytes → Type 0
    pub fresh :
        (a_private a_public b_private b_public : Bytes) (h k : HandshakeState)
        → IsPair a_private a_public
        → IsPair b_private b_public
        → S.build_initiator a_private b_public ≡ ok h
        → S.build_responder b_private a_public ≡ ok k
        → Fresh h k
    pub first :
        (h k : HandshakeState) (payload : Bytes)
        → Fresh h k
        → length payload + overhead ≤ max_msg_size
        → (h' k' : HandshakeState) × (bytes : Bytes) × (t u : TransportState) × Passes
            (S.write_handshake max_msg_size)
            (S.read_handshake max_msg_size)
            payload
            h
            h'
            k
            k'
            bytes
          × (S.is_handshake_finished h' ≡ true)
          × (S.is_handshake_finished k' ≡ true)
          × (S.into_transport_mode h' ≡ ok t)
          × (S.into_transport_mode k' ≡ ok u)
          × Open t u
    pub later :
        (t u : TransportState) (payload : Bytes)
        → Open t u
        → length payload + overhead ≤ max_msg_size
        → (t' u' : TransportState) × (bytes : Bytes) × Passes
            (S.write_transport max_msg_size)
            (S.read_transport max_msg_size)
            payload
            t
            t'
            u
            u'
            bytes
          × Open t' u'
