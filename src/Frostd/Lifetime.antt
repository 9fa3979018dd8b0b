-- ===== src/Frostd/Lifetime.antt =====
-- How sessions end: closed by their coordinator, or dropped by the timer.
use frost_tools.Prelude.{
  ℕ, ◌+◌, ◌≤◌, ◌≡◌, true, false, not, ◌&&◌, none, some, List, arith, ◌==◌, nat_eq, Option-cases,
  inl, inr, is_ok, ◌≢◌, is_empty, contains, ok, if◌then◌else◌,
}
use frost_tools.Api.{Uuid, PublicKey, public_key_eq, public_key_beq_iff, SendArgs, ReceiveArgs, Msg}
use frost_tools.Frostd.State.{
  Session, Env, AppState, unregister_all, session_timeout, expire_session,
}
use frost_tools.Frostd.Functions.{
  User, in_session, send, receive, close_session, push_all, recipients_of, drain, mailbox,
}
use frost_tools.Frostd.Index.{listed, listed-unregister, listed-unregister_all}
use frost_tools.Frostd.Reach.{Reach}
use frost_tools.Frostd.Listing.{listed-members}

module _ (E : Env) (s : AppState E) where
  -- A coordinator who has the session in their list can close it, and then nobody has it in their
  -- list any more and the session is gone; all other sessions and lists stay.
  pub close_lem :
      (user : User) (id : Uuid) (x : Session)
      → Reach E s
      → E.sessions.get s.sessions id ≡ some x
      → x.coordinator_pubkey ≡ user.pubkey
      → let (r, t) = close_session E user id s in
        (r ≡ ok tt)
        × ((j : Uuid)
            → E.sessions.get t.sessions j ≡ (if id == j then none else E.sessions.get s.sessions j))
        × ((p : PublicKey) (j : Uuid)
            → listed t.sessions_by_pubkey p j ≡ (not (id == j) && listed s.sessions_by_pubkey p j))
  unfolding close_session listed in_session
  close_lem user id x r e c =
      let own = listed-members E r id x user.pubkey e in
      let mine = public_key_beq_iff x.coordinator_pubkey user.pubkey in
      (
        ground (arith, own, mine),
        λ j. ground (arith, own, mine, E.sessions.get_remove id j s.sessions),
        λ p j. ground (
          arith,
          own,
          mine,
          listed-members E r id x p e,
          listed-unregister id user.pubkey (unregister_all id x.pubkeys s.sessions_by_pubkey) p j,
          listed-unregister_all id x.pubkeys s.sessions_by_pubkey p j,
        ),
      )

  -- No other user can close a session: the call fails and changes nothing.
  pub close_refused :
      (user : User) (id : Uuid)
      → ((x : Session) → E.sessions.get s.sessions id ≡ some x → x.coordinator_pubkey ≢ user.pubkey)
      → (is_ok (close_session E user id s).0 ≡ false) × ((close_session E user id s).1 ≡ s)
  unfolding close_session
  close_refused user id h = elim (Option-cases (E.sessions.get s.sessions id)) [
    | inl e ↦ (ground arith, ground arith)
    | inr (x, e) ↦
        let other = h x e in
        let mine = public_key_beq_iff x.coordinator_pubkey user.pubkey in
        (ground (arith, other, mine), ground (arith, other, mine))
  ]

  -- When the timer drops a session, which is then due, its id stays in a list exactly if that is
  -- the list of a coordinator who is not among the participants.
  pub expire_leaves :
      (now : ℕ) (id : Uuid) (x : Session) (rest : E.sessions.M)
      → Reach E s
      → E.sessions.next now s.sessions ≡ some (id, x, rest)
      → let t = expire_session E now s in
        (E.sessions.get t.sessions id ≡ none)
        × ((p : PublicKey)
            → listed t.sessions_by_pubkey p id
              ≡ (x.coordinator_pubkey == p && not (contains x.pubkeys p)))
        × ((d : ℕ) × (E.sessions.deadline s.sessions id ≡ some d) × (d ≤ now))
  unfolding expire_session in_session
  expire_leaves now id x rest r e = (
    ground (arith, E.sessions.next_removes now id x s.sessions rest e id),
    λ p. ground (
      arith,
      listed-members E r id x p (E.sessions.next_present now id x s.sessions rest e),
      listed-unregister_all id x.pubkeys s.sessions_by_pubkey p id,
    ),
    E.sessions.next_due now id x s.sessions rest e,
  )

  -- A message that is accepted puts the session's deadline off to a full timeout from now; a
  -- refused one changes nothing.
  pub send_renews :
      (now : ℕ) (user : User) (args : SendArgs)
      → let (r, t) = send E now user args s in
        (is_ok r ≡ true
          → E.sessions.deadline t.sessions args.session_id ≡ some (now + session_timeout))
        × (is_ok r ≡ false → t ≡ s)
  unfolding send
  send_renews now user args = elim (Option-cases (E.sessions.get s.sessions args.session_id)) [
    | inl e ↦ (ground arith, ground arith)
    | inr (y, e) ↦
        let y' : Session = record y {
          queue =
              push_all (record { sender = user.pubkey; msg = args.msg })
                (recipients_of args.recipients) y.queue;
        } in
        let m = E.sessions.set args.session_id y' s.sessions in
        (
          ground (
            arith,
            E.sessions.get_set args.session_id args.session_id y' s.sessions,
            E.sessions.deadline_update_timeout now args.session_id session_timeout args.session_id
                m,
          ),
          ground arith,
        )
  ]

  -- A successful `receive` puts the session's deadline off to a full timeout from now if it returns
  -- a message, and leaves it as it was if it returns none.
  pub receive_renews :
      (now : ℕ) (user : User) (args : ReceiveArgs) (ms : List Msg)
      → (receive E now user args s).0 ≡ ok ms
      → E.sessions.deadline (receive E now user args s).1.sessions args.session_id ≡ (
          if is_empty ms
          then E.sessions.deadline s.sessions args.session_id
          else some (now + session_timeout))
  unfolding receive
  receive_renews now user args ms h =
      elim (Option-cases (E.sessions.get s.sessions args.session_id)) [
        | inl e ↦ absurd (ground arith)
        | inr (y, e) ↦
            let y' : Session = record y {
              queue = (drain (mailbox y user.pubkey args.as_coordinator) y.queue).1;
            } in
            let m = E.sessions.set args.session_id y' s.sessions in
            ground (
              arith,
              E.sessions.get_set args.session_id args.session_id y' s.sessions,
              E.sessions.deadline_set args.session_id args.session_id y' s.sessions,
              E.sessions.deadline_update_timeout now args.session_id session_timeout args.session_id
                  m,
            )
      ]
