-- ===== src/Frostd/Functions.antt =====
-- frostd/src/functions.rs and user.rs: the handlers of the API, and the authentication of a user.
use frost_tools.Prelude.{
  ℕ, Bool, false, not, ◌&&◌, ◌||◌, Option, none, some, List, [], ◌∷◌, ◌++◌, map, ◌==◌, nat_eq, Map,
  get, insert, or_default, contains, any, is_empty, length, ltb, if◌then◌else◌, ok, ok_or, guard,
  Method, ◌>>=◌, ◌>>◌, pure, lift, gets, modify,
}
use frost_tools.Api.{
  Uuid, PublicKey, public_key_eq, LoginArgs, CreateNewSessionArgs, GetSessionInfoOutput, SendArgs,
  Msg, ReceiveArgs, Error, invalid_argument, unauthorized, session_not_found, not_coordinator,
  not_in_session, max_msg_size,
}
use frost_tools.Frostd.State.{
  SessionParticipant, coordinator, participant, session_participant_eq, Session, Env, AppState,
  register, register_all, unregister, unregister_all, session_timeout,
}

pub record User : Type 0 where
  pub pubkey : PublicKey
  pub current_token : Uuid

-- `session.queue.entry(recipient).or_default().push_back(msg)`, for each recipient in turn.
abbrev pub Queues : Type 0
Queues = Map SessionParticipant (List Msg)

unfoldable pub push_back : Msg → SessionParticipant → Queues → Queues
push_back m r q = insert r (or_default (get q r) ++ m ∷ []) q

unfoldable pub push_all : Msg → List SessionParticipant → Queues → Queues
push_all m [] q = q
push_all m (r ∷ rest) q = push_all m rest (push_back m r q)

-- The recipients of a `send`: none given means the coordinator.
unfoldable pub recipients_of : List PublicKey → List SessionParticipant
recipients_of [] = coordinator ∷ []
recipients_of (r ∷ rest) = map participant (r ∷ rest)

unfoldable pub in_session : Session → PublicKey → Bool
in_session session pubkey = contains session.pubkeys pubkey || session.coordinator_pubkey == pubkey

unfoldable pub is_stranger : Session → SessionParticipant → Bool
is_stranger session coordinator = false
is_stranger session (participant pubkey) = not (contains session.pubkeys pubkey)

-- The queue that a `receive` reads.
unfoldable pub mailbox : Session → PublicKey → Bool → SessionParticipant
mailbox session pubkey as_coordinator =
    if pubkey == session.coordinator_pubkey && as_coordinator
    then coordinator
    else participant pubkey

-- The messages drained, and the queues after that: a drained queue stays, empty.
unfoldable pub drain : SessionParticipant → Queues → List Msg × Queues
drain p q = elim (get q p) [ none ↦ ([], q) | some ms ↦ (ms, insert p [] q) ]

module _ (E : Env) where
  abbrev Handler : Type 0 → Type 0
  Handler A = Method Error (AppState E) A

  -- `User::from_request_parts`: the bearer token of the request, if it has one that parses.
  unfoldable pub authenticate : Option Uuid → Handler User
  authenticate bearer = do
    token ← lift (ok_or bearer unauthorized)
    found ← gets (λ s. E.access_tokens.get s.access_tokens token)
    pubkey ← lift (ok_or found unauthorized)
    pure (record { pubkey = pubkey; current_token = token })

  -- `fresh` is what `Uuid::new_v4` returns.
  unfoldable pub challenge : ℕ → Uuid → Handler Uuid
  challenge now fresh = do
    modify (λ s. record s { challenges = E.challenges.insert now fresh s.challenges })
    pure fresh

  take_challenge : Uuid → Handler Bool
  take_challenge c s =
      let (found, rest) = E.challenges.take c s.challenges in
      (ok found, record s { challenges = rest })

  unfoldable pub login : ℕ → Uuid → LoginArgs → Handler Uuid
  unfolding take_challenge
  login now fresh args = do
    lift (
        guard (not (is_empty args.signature || is_empty args.pubkey.bytes))
          (invalid_argument "signature or pubkey"))
    lift (guard (length args.pubkey.bytes == 32) (invalid_argument "pubkey"))
    lift (guard (length args.signature == 64) (invalid_argument "signature"))
    lift (guard (E.verify args.pubkey.bytes args.challenge args.signature) unauthorized)
    found ← take_challenge args.challenge
    lift (guard found unauthorized)
    modify (λ s. record s {
      access_tokens = E.access_tokens.insert now fresh args.pubkey s.access_tokens;
    })
    pure fresh

  unfoldable pub logout : User → Handler (Unit {0})
  logout user =
      modify (λ s. record s {
        access_tokens = E.access_tokens.remove user.current_token s.access_tokens;
      })

  unfoldable pub create_new_session : ℕ → Uuid → User → CreateNewSessionArgs → Handler Uuid
  create_new_session now id user args = do
    lift (guard (not (args.message_count == 0)) (invalid_argument "message_count"))
    modify (λ s. record s {
      sessions_by_pubkey =
          register id user.pubkey (register_all id args.pubkeys s.sessions_by_pubkey);
      sessions =
          E.sessions.insert now id
            (record {
              pubkeys = args.pubkeys;
              coordinator_pubkey = user.pubkey;
              message_count = args.message_count;
              queue = [];
            })
            s.sessions;
    })
    pure id

  unfoldable pub list_sessions : User → Handler (List Uuid)
  list_sessions user s =
      (ok (elim (get s.sessions_by_pubkey user.pubkey) [ none ↦ [] | some ids ↦ ids ]), s)

  -- The checks that `get_session_info` and `close_session` begin with.
  unfoldable pub listed_session : User → Uuid → Handler Session
  listed_session user id = do
    mine ← gets (λ s. get s.sessions_by_pubkey user.pubkey)
    user_sessions ← lift (ok_or mine session_not_found)
    lift (guard (contains user_sessions id) session_not_found)
    found ← gets (λ s. E.sessions.get s.sessions id)
    lift (ok_or found session_not_found)

  unfoldable pub get_session_info : User → Uuid → Handler GetSessionInfoOutput
  unfolding listed_session
  get_session_info user id = do
    session ← listed_session user id
    pure (record {
      message_count = session.message_count;
      pubkeys = session.pubkeys;
      coordinator_pubkey = session.coordinator_pubkey;
    })

  unfoldable pub send : ℕ → User → SendArgs → Handler (Unit {0})
  send now user args = do
    lift (guard (not (ltb max_msg_size (length args.msg))) (invalid_argument "msg is too big"))
    found ← gets (λ s. E.sessions.get s.sessions args.session_id)
    session ← lift (ok_or found session_not_found)
    let recipients = recipients_of args.recipients
    lift (
        guard (in_session session user.pubkey && not (any (is_stranger session) recipients))
          not_in_session)
    modify (λ s. record s {
      sessions = E.sessions.update_timeout now args.session_id session_timeout (
          E.sessions.set args.session_id
            (record session {
              queue =
                  push_all (record { sender = user.pubkey; msg = args.msg }) recipients
                    session.queue;
            })
            s.sessions);
    })

  unfoldable pub receive : ℕ → User → ReceiveArgs → Handler (List Msg)
  receive now user args = do
    found ← gets (λ s. E.sessions.get s.sessions args.session_id)
    session ← lift (ok_or found session_not_found)
    lift (guard (in_session session user.pubkey) not_in_session)
    let drained = drain (mailbox session user.pubkey args.as_coordinator) session.queue
    modify (λ s. record s {
      sessions = E.sessions.set args.session_id (record session { queue = drained.1 }) s.sessions;
    })
    modify (λ s. if is_empty drained.0 then s else record s {
      sessions = E.sessions.update_timeout now args.session_id session_timeout s.sessions;
    })
    pure drained.0

  unfoldable pub close_session : User → Uuid → Handler (Unit {0})
  unfolding listed_session
  close_session user id = do
    session ← listed_session user id
    lift (guard (session.coordinator_pubkey == user.pubkey) not_coordinator)
    modify (λ s. record s {
      sessions_by_pubkey =
          unregister id user.pubkey (unregister_all id session.pubkeys s.sessions_by_pubkey);
      sessions = E.sessions.remove id s.sessions;
    })
