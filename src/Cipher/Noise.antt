-- ===== src/Cipher/Noise.antt =====
-- The struct `Noise` of cipher.rs, a handshake that turns into a transport.
use frost_tools.Prelude.{Option, none, some, Outcome, ok, err, panic, if◌then◌else◌}
use frost_tools.Api.{Bytes, max_msg_size}
use frost_tools.Cipher.Snow.{Snow}

module _ (S : Snow) where
  open S use {HandshakeState, TransportState, SnowError}

  pub record Noise : Type 0 where
    pub handshake_state : Option HandshakeState
    pub transport_state : Option TransportState

  unfoldable pub new : HandshakeState → Noise
  new h = record { handshake_state = some h; transport_state = none }

  -- After a handshake message: `r` was its result, `h` the handshake, still in its field.
  -- A failure of `into_transport_mode` comes after the field was emptied.
  unfoldable pub after_handshake :
      Outcome SnowError Bytes → HandshakeState → Noise → Outcome SnowError Bytes × Noise
  after_handshake r h n =
      if S.is_handshake_finished h
      then elim (S.into_transport_mode h) [
        | ok t ↦ (r, record { handshake_state = none; transport_state = some t })
        | err e ↦ (err e, record n { handshake_state = none })
        | panic ↦ (panic, record n { handshake_state = none })
      ]
      else (r, record n { handshake_state = some h })

  unfoldable pub write_message : Bytes → Noise → Outcome SnowError Bytes × Noise
  unfolding after_handshake
  write_message payload n = elim n.handshake_state [
    | some h ↦ let (r, h') = S.write_handshake max_msg_size payload h in after_handshake r h' n
    | none ↦ elim n.transport_state [
      | some t ↦
          let (r, t') = S.write_transport max_msg_size payload t in
          (r, record n { transport_state = some t' })
      | none ↦ (panic, n)
    ]
  ]

  unfoldable pub read_message : Bytes → Noise → Outcome SnowError Bytes × Noise
  unfolding after_handshake
  read_message payload n = elim n.handshake_state [
    | some h ↦ let (r, h') = S.read_handshake max_msg_size payload h in after_handshake r h' n
    | none ↦ elim n.transport_state [
      | some t ↦
          let (r, t') = S.read_transport max_msg_size payload t in
          (r, record n { transport_state = some t' })
      | none ↦ (panic, n)
    ]
  ]
