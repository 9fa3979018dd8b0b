-- ===== src/Frostd/State.antt =====
-- frostd/src/state.rs: sessions, the server's state and the tasks that drop what has timed out.
use frost_tools.Prelude.{
  ℕ, ◌*◌, ◌≡◌, ◌↔◌, Bool, true, false, none, some, List, [], ◌∷◌, arith, PartialEq, ◌==◌, nat_eq,
  Map, get, insert, or_default, set_insert, set_remove,
}
use frost_tools.Api.{Uuid, Bytes, PublicKey, public_key_eq, public_key_beq_iff, Msg}
use frost_tools.Frostd.Delay.{DelayMap, DelaySet}

-- In seconds.
abbrev pub session_timeout : ℕ
session_timeout = 60 * 60 * 24

abbrev pub challenge_timeout : ℕ
challenge_timeout = 10

abbrev pub access_token_timeout : ℕ
access_token_timeout = 60 * 60

pub data SessionParticipant : Type 0 where
  coordinator : SessionParticipant
  participant : PublicKey → SessionParticipant

unfoldable pub session_participant_beq : SessionParticipant → SessionParticipant → Bool
session_participant_beq coordinator coordinator = true
session_participant_beq (participant a) (participant b) = a == b
session_participant_beq _ _ = false

pub session_participant_beq_iff :
    (a b : SessionParticipant) → (session_participant_beq a b ≡ true) ↔ (a ≡ b)
unfolding session_participant_beq
session_participant_beq_iff coordinator coordinator = ground arith
session_participant_beq_iff coordinator (participant b) = ground arith
session_participant_beq_iff (participant a) coordinator = ground arith
session_participant_beq_iff (participant a) (participant b) = ground (arith, public_key_beq_iff a b)

instance abbrev pub session_participant_eq : PartialEq SessionParticipant
session_participant_eq = record {
  eq = session_participant_beq;
  eq_law = session_participant_beq_iff;
}

pub record Session : Type 0 where
  pub pubkeys : List PublicKey
  pub coordinator_pubkey : PublicKey
  pub message_count : ℕ
  pub queue : Map SessionParticipant (List Msg)

-- The index `sessions_by_pubkey`; its values are hash sets.
abbrev pub Index : Type 0
Index = Map PublicKey (List Uuid)

-- The crates that the server stands on: the delay maps, and XEd25519 verification of a signature
-- by a 32-byte key over the bytes of a challenge.
pub record Env : Type 1 where
  pub sessions : DelayMap session_timeout Session
  pub challenges : DelaySet challenge_timeout
  pub access_tokens : DelayMap access_token_timeout PublicKey
  pub verify : Bytes → Uuid → Bytes → Bool

pub record AppState (E : Env) : Type 0 where
  pub sessions : E.sessions.M
  pub sessions_by_pubkey : Index
  pub challenges : E.challenges.S
  pub access_tokens : E.access_tokens.M

unfoldable pub new : (E : Env) → AppState E
new E = record {
  sessions = E.sessions.new;
  sessions_by_pubkey = [];
  challenges = E.challenges.new;
  access_tokens = E.access_tokens.new;
}

-- `sessions_by_pubkey.entry(pubkey).or_default().insert(id)`
unfoldable pub register : Uuid → PublicKey → Index → Index
register id pubkey m = insert pubkey (set_insert id (or_default (get m pubkey))) m

-- `if let Some(v) = sessions_by_pubkey.get_mut(&pubkey) { v.remove(&id); }`
unfoldable pub unregister : Uuid → PublicKey → Index → Index
unregister id pubkey m = elim (get m pubkey) [
  | none ↦ m
  | some ids ↦ insert pubkey (set_remove id ids) m
]

unfoldable pub register_all : Uuid → List PublicKey → Index → Index
register_all id [] m = m
register_all id (pubkey ∷ rest) m = register_all id rest (register id pubkey m)

unfoldable pub unregister_all : Uuid → List PublicKey → Index → Index
unregister_all id [] m = m
unregister_all id (pubkey ∷ rest) m = unregister_all id rest (unregister id pubkey m)

module _ (E : Env) (now : ℕ) where
  -- One round of the task that polls `sessions`.
  unfoldable pub expire_session : AppState E → AppState E
  expire_session s = elim (E.sessions.next now s.sessions) [
    | none ↦ s
    | some (id, session, rest) ↦ record s {
      sessions = rest;
      sessions_by_pubkey = unregister_all id session.pubkeys s.sessions_by_pubkey;
    }
  ]

  -- The same for `challenges`.
  unfoldable pub expire_challenge : AppState E → AppState E
  expire_challenge s = elim (E.challenges.next now s.challenges) [
    | none ↦ s
    | some (challenge, rest) ↦ record s { challenges = rest }
  ]

  -- The same for `access_tokens`.
  unfoldable pub expire_access_token : AppState E → AppState E
  expire_access_token s = elim (E.access_tokens.next now s.access_tokens) [
    | none ↦ s
    | some (token, pubkey, rest) ↦ record s { access_tokens = rest }
  ]
