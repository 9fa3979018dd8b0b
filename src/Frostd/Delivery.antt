-- ===== src/Frostd/Delivery.antt =====
-- Exactly-once delivery, in order: the queues against the history of a session.
pub mod History
use frost_tools.Prelude.{
  ℕ, ◌≡◌, inl, inr, refl, Bool, true, false, ◌&&◌, none, some, Option, List, [], ◌∷◌, ◌++◌, arith,
  ◌==◌, nat_eq, nat_beq, Option-cases, Bool-cases, is_ok, is_ok-eq, is_some, Outcome, ok, err,
  panic, if◌then◌else◌, ◌>>=◌, ◌>>◌, pure, or_default, get, ap, sym,
}
use mathlib.Core.List.{append-nil, append_assoc}
use frost_tools.Api.{
  Uuid, PublicKey, public_key_eq, SendArgs, ReceiveArgs, CreateNewSessionArgs, Msg, Error,
}
use frost_tools.Frostd.State.{
  Session, SessionParticipant, session_participant_eq, session_participant_beq_iff, Env, AppState,
  expire_session, expire_challenge, expire_access_token,
}
use frost_tools.Frostd.Functions.{
  User, authenticate, challenge, login, logout, create_new_session, list_sessions, get_session_info,
  send, receive, close_session, recipients_of, mailbox, in_session,
}
use frost_tools.Frostd.Server
use frost_tools.Frostd.Server.{Request, Call, Event, dispatch, handle, step, call}
use frost_tools.Frostd.Index.{listed}
use frost_tools.Frostd.Registry.{IsFresh}
use frost_tools.Frostd.Reach.{
  DrawsFresh, Allowed, Reach, start, next, authenticated, wrapped, finished,
}
use frost_tools.Frostd.Listing.{listed-members}
use frost_tools.Frostd.Mailbox.{copies, queued, send-copies, receive-drains, receive_refused}
use frost_tools.Frostd.Lifetime.{send_renews}

module _ (E : Env) (id : Uuid) (r : SessionParticipant) where
  -- The messages that an accepted `send` addresses to the queue of `r` in session `id`.
  sent_by : ℕ → SendArgs → AppState E → User → List Msg
  sent_by now args s user =
      if args.session_id == id && is_ok (send E now user args s).0
      then copies (record { sender = user.pubkey; msg = args.msg }) r
          (recipients_of args.recipients)
      else []

  messages : Outcome Error (List Msg) → List Msg
  messages (ok ms) = ms
  messages (err e) = []
  messages panic = []

  -- The messages that a `receive` returns from that queue.
  taken_by : ℕ → ReceiveArgs → AppState E → User → List Msg
  unfolding messages
  taken_by now args s user = elim (E.sessions.get s.sessions args.session_id) [
    | none ↦ []
    | some x ↦
        if args.session_id == id && mailbox x user.pubkey args.as_coordinator == r
        then messages (receive E now user args s).0
        else []
  ]

  for_user : (User → List Msg) → Outcome Error User → List Msg
  for_user f (ok user) = f user
  for_user f (err e) = []
  for_user f panic = []

  sent_in : AppState E → Call → Request → List Msg
  unfolding sent_by for_user
  sent_in s c (Request.send args) = for_user (sent_by c.now args s) (authenticate E c.bearer s).0
  sent_in s c _ = []

  taken_in : AppState E → Call → Request → List Msg
  unfolding taken_by for_user
  taken_in s c (Request.receive args) =
      for_user (taken_by c.now args s) (authenticate E c.bearer s).0
  taken_in s c _ = []

  -- What an event adds to the queue, and what it hands to the client.
  pub sent : AppState E → Event → List Msg
  unfolding sent_in
  sent s (call c) = sent_in s c c.request
  sent s _ = []

  pub taken : AppState E → Event → List Msg
  unfolding taken_in
  taken s (call c) = taken_in s c c.request
  taken s _ = []

  send_balance :
      (now : ℕ) (args : SendArgs) (s : AppState E) (u : User)
      → queued E (send E now u args s).1 id r ≡ queued E s id r ++ sent_by now args s u
  unfolding sent_by
  send_balance now args s u = elim (Bool-cases (is_ok (send E now u args s).0)) [
    | inl h ↦ ground (arith, send-copies E now u s args h id r)
    | inr h ↦ rw ((send_renews E s now u args).1 h) (ground (arith, append-nil (queued E s id r)))
  ]

  receive_balance :
      (now : ℕ) (args : ReceiveArgs) (s : AppState E) (u : User)
      → taken_by now args s u ++ queued E (receive E now u args s).1 id r ≡ queued E s id r
  unfolding taken_by messages
  receive_balance now args s u = elim (Bool-cases (is_ok (receive E now u args s).0)) [
    | inr h ↦
        rw (receive_refused E now u s args h)
          (refused (receive E now u args s).0 h (E.sessions.get s.sessions args.session_id))
    | inl h ↦ elim (Option-cases (E.sessions.get s.sessions args.session_id)) [
      | inl e ↦ absurd (unfold receive in ground arith)
      | inr (x, e) ↦
          let (ms, o) = is_ok-eq (receive E now u args s).0 h in
          let (whole, rest) = receive-drains E now u s args x ms e o in
          ground (
            arith,
            whole,
            rest id r,
            append-nil (queued E s id r),
            session_participant_beq_iff (mailbox x u.pubkey args.as_coordinator) r,
          )
    ]
  ]
    where
      refused :
          (o : Outcome Error (List Msg))
          → is_ok o ≡ false
          → (x : Option Session)
          → (elim x [
            | none ↦ []
            | some x ↦
                if args.session_id == id && mailbox x u.pubkey args.as_coordinator == r
                then messages o
                else []
          ])
              ++ queued E s id r
            ≡ queued E s id r
      refused (ok ms) h x = cc
      refused (err e) h x = ground arith
      refused panic h x = ground arith

  -- The session is there, and its queue as before unless it has ended.
  record Keeps (s t : AppState E) : Type 0 where
    still : is_some (E.sessions.get t.sessions id) ≡ true → queued E t id r ≡ queued E s id r

  same_sessions : {s t : AppState E} → t.sessions ≡ s.sessions → Keeps s t
  unfolding queued
  same_sessions {s} {t} e = record { still = λ h. rw e refl }

  create-Keeps :
      (now : ℕ) (fresh : Uuid) (args : CreateNewSessionArgs) (s : AppState E) (u : User)
      → nat_beq fresh id ≡ false
      → Keeps s (create_new_session E now fresh u args s).1
  unfolding create_new_session queued
  create-Keeps now fresh args s u ne = record {
    still = λ h. ground (
      arith,
      E.sessions.get_insert now fresh id
          (record {
            pubkeys = args.pubkeys;
            coordinator_pubkey = u.pubkey;
            message_count = args.message_count;
            queue = [];
          })
          s.sessions,
    );
  }

  close-Keeps : (j : Uuid) (s : AppState E) (u : User) → Keeps s (close_session E u j s).1
  unfolding close_session queued
  close-Keeps j s u = record { still = λ h. ground (arith, E.sessions.get_remove j id s.sessions) }

  expire-Keeps : (now : ℕ) (s : AppState E) → Keeps s (expire_session E now s)
  unfolding expire_session queued
  expire-Keeps now s = record {
    still = λ h. elim (Option-cases (E.sessions.next now s.sessions)) [
      | inl e ↦ ground arith
      | inr ((j, x, rest), e) ↦ ground (arith, E.sessions.next_removes now j x s.sessions rest e id)
    ];
  }

  send_step :
      (now : ℕ) (args : SendArgs) (bearer : Option Uuid) (s : AppState E)
      → queued E ((authenticate E bearer >>= λ u. send E now u args >> pure Server.done) s).1 id r
        ≡ queued E s id r ++ for_user (sent_by now args s) (authenticate E bearer s).0
  unfolding authenticate for_user
  send_step now args none s = rw append-nil
  send_step now args (some t) s = elim (Option-cases (E.access_tokens.get s.access_tokens t)) [
    | inl e ↦ rw (e, authenticate) (rw append-nil)
    | inr (k, e) ↦
        let u : User = record { pubkey = k; current_token = t } in
        rw (e, authenticate)
          (finished E (λ t. queued E t id r ≡ queued E s id r ++ sent_by now args s u)
            (send E now u args) Server.done s (send_balance now args s u))
  ]

  receive_step :
      (now : ℕ) (args : ReceiveArgs) (bearer : Option Uuid) (s : AppState E)
      → for_user (taken_by now args s) (authenticate E bearer s).0
          ++ queued E
              ((authenticate E bearer >>= λ u. receive E now u args >>= λ ms. pure (Server.msgs ms))
                s).1
              id
              r
        ≡ queued E s id r
  unfolding authenticate for_user
  receive_step now args none s = refl
  receive_step now args (some t) s = elim (Option-cases (E.access_tokens.get s.access_tokens t)) [
    | inl e ↦ rw (e, authenticate) refl
    | inr (k, e) ↦
        let u : User = record { pubkey = k; current_token = t } in
        rw (e, authenticate)
          (wrapped E (λ t. taken_by now args s u ++ queued E t id r ≡ queued E s id r)
            (receive E now u args) Server.msgs s (receive_balance now args s u))
  ]
