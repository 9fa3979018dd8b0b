-- ===== src/Frostd/Delivery/History.antt =====
-- Exactly-once delivery over whole histories of the server.
use frost_tools.Prelude.{
  ◌≡◌, inl, inr, refl, true, false, List, [], ◌∷◌, ◌++◌, arith, nat_beq, Option-cases, is_some,
}
use mathlib.Core.List.{append-nil, append_assoc}
use frost_tools.Api.{Uuid, Msg, public_key_eq, public_key_beq_iff}
use frost_tools.Frostd.State.{
  SessionParticipant, Env, AppState, expire_challenge, expire_access_token,
}
use frost_tools.Frostd.Functions.{
  challenge, login, logout, create_new_session, list_sessions, get_session_info, close_session,
  in_session,
}
use frost_tools.Frostd.Server
use frost_tools.Frostd.Server.{Request, Call, Event, dispatch, handle, step, run, call}
use frost_tools.Frostd.Registry.{IsFresh}
use frost_tools.Frostd.Reach.{DrawsFresh, Allowed, Reach, next, authenticated, wrapped, finished}
use frost_tools.Frostd.Listing.{listed-members}
use frost_tools.Frostd.Mailbox.{queued}
use frost_tools.Frostd.Delivery.{
  sent, taken, sent_in, taken_in, Keeps, same_sessions, create-Keeps, close-Keeps, expire-Keeps,
  send_step, receive_step,
}

module _ (E : Env) (id : Uuid) (r : SessionParticipant) where
  -- An id that is in nobody's list is not the id of a live session: the coordinator has that one.
  fresh_ne :
      {s : AppState E} (fresh : Uuid)
      → Reach E s
      → IsFresh E s fresh
      → is_some (E.sessions.get s.sessions id) ≡ true
      → nat_beq fresh id ≡ false
  unfolding in_session
  fresh_ne {s} fresh reach f live = elim (Option-cases (E.sessions.get s.sessions id)) [
    | inl e ↦ absurd (ground arith)
    | inr (x, e) ↦ ground (
      arith,
      f.unlisted x.coordinator_pubkey,
      listed-members E reach id x x.coordinator_pubkey e,
      public_key_beq_iff x.coordinator_pubkey x.coordinator_pubkey,
    )
  ]

  balanced :
      {s t : AppState E}
      → Keeps E id r s t
      → is_some (E.sessions.get t.sessions id) ≡ true
      → [] ++ queued E t id r ≡ queued E s id r ++ []
  balanced k live = rw (append-nil, k.still live)

  dispatch_balance :
      {s : AppState E} (c : Call) (q : Request)
      → Reach E s
      → DrawsFresh E s c.fresh q
      → is_some (E.sessions.get s.sessions id) ≡ true
      → is_some (E.sessions.get (dispatch E c.now c.fresh c.bearer q s).1.sessions id) ≡ true
      → taken_in E id r s c q ++ queued E (dispatch E c.now c.fresh c.bearer q s).1 id r
        ≡ queued E s id r ++ sent_in E id r s c q
  unfolding dispatch sent_in taken_in
  dispatch_balance {s} c (Request.send args) reach f live after =
      send_step E id r c.now args c.bearer s
  dispatch_balance {s} c (Request.receive args) reach f live after =
      rw append-nil (receive_step E id r c.now args c.bearer s)
  dispatch_balance {s} c Request.challenge reach f live after =
      balanced (same_sessions E id r (unfold challenge in refl)) after
  dispatch_balance {s} c (Request.login args) reach f live after =
      balanced
        (wrapped E (Keeps E id r s) (login E c.now c.fresh args) Server.uuid s
          (same_sessions E id r (unfold login in ground arith)))
        after
  dispatch_balance {s} c Request.logout reach f live after =
      balanced
        (authenticated E (Keeps E id r s) c.bearer s _ (same_sessions E id r refl) λ u.
          finished E (Keeps E id r s) (logout E u) Server.done s
            (same_sessions E id r (unfold logout in refl)))
        after
  dispatch_balance {s} c (Request.create_new_session args) reach f live after =
      balanced
        (authenticated E (Keeps E id r s) c.bearer s _ (same_sessions E id r refl) λ u.
          wrapped E (Keeps E id r s) (create_new_session E c.now c.fresh u args) Server.uuid s
            (create-Keeps E id r c.now c.fresh args s u (fresh_ne c.fresh reach f live)))
        after
  dispatch_balance {s} c Request.list_sessions reach f live after =
      balanced
        (authenticated E (Keeps E id r s) c.bearer s _ (same_sessions E id r refl) λ u.
          wrapped E (Keeps E id r s) (list_sessions E u) Server.uuids s
            (same_sessions E id r (unfold list_sessions in refl)))
        after
  dispatch_balance {s} c (Request.get_session_info j) reach f live after =
      balanced
        (authenticated E (Keeps E id r s) c.bearer s _ (same_sessions E id r refl) λ u.
          wrapped E (Keeps E id r s) (get_session_info E u j) Server.session_info s
            (same_sessions E id r (unfold get_session_info in ground arith)))
        after
  dispatch_balance {s} c (Request.close_session j) reach f live after =
      balanced
        (authenticated E (Keeps E id r s) c.bearer s _ (same_sessions E id r refl) λ u.
          finished E (Keeps E id r s) (close_session E u j) Server.done s
            (close-Keeps E id r j s u))
        after

  step_balance :
      {s : AppState E} (e : Event)
      → Reach E s
      → Allowed E s e
      → is_some (E.sessions.get s.sessions id) ≡ true
      → is_some (E.sessions.get (step E s e).sessions id) ≡ true
      → taken E id r s e ++ queued E (step E s e) id r ≡ queued E s id r ++ sent E id r s e
  unfolding step handle sent taken
  step_balance (call c) reach f live after = dispatch_balance c c.request reach f live after
  step_balance {s} (Event.session_timer now) reach f live after =
      balanced (expire-Keeps E id r now s) after
  step_balance (Event.challenge_timer now) reach f live after =
      balanced (same_sessions E id r (unfold expire_challenge in ground arith)) after
  step_balance (Event.access_token_timer now) reach f live after =
      balanced (same_sessions E id r (unfold expire_access_token in ground arith)) after

  -- The events run from `s`, each allowed where it comes, and session `id` lives all the while.
  abbrev pub Lives : AppState E → List Event → Type 0
  Lives s [] = is_some (E.sessions.get s.sessions id) ≡ true
  Lives s (e ∷ es) =
      (is_some (E.sessions.get s.sessions id) ≡ true) × Allowed E s e × Lives (step E s e) es

  Lives-live :
      (s : AppState E) (es : List Event)
      → Lives s es
      → is_some (E.sessions.get s.sessions id) ≡ true
  Lives-live s [] l = l
  Lives-live s (e ∷ es) l = l.0

  -- All that clients received from the queue in a run, and all that was sent to it.
  pub all_taken : AppState E → List Event → List Msg
  all_taken s [] = []
  all_taken s (e ∷ es) = taken E id r s e ++ all_taken (step E s e) es

  pub all_sent : AppState E → List Event → List Msg
  all_sent s [] = []
  all_sent s (e ∷ es) = sent E id r s e ++ all_sent (step E s e) es

  -- While a session lives, what its clients have received from a queue, followed by what still
  -- waits there, is what waited at the start followed by what was accepted for that queue since,
  -- in order: no message is lost, repeated or reordered, whatever calls and timers run in between.
  pub delivery :
      (s : AppState E) (es : List Event)
      → Reach E s
      → Lives s es
      → all_taken s es ++ queued E (run E s es) id r ≡ queued E s id r ++ all_sent s es
  unfolding all_taken all_sent run
  delivery s [] reach l = rw append-nil
  delivery s (e ∷ es) reach l =
      let t = step E s e in
      let one = step_balance e reach l.1 l.0 (Lives-live t es l.2) in
      let rest = delivery t es (next reach e l.1) l.2 in
      rw
        (
          append_assoc (taken E id r s e),
          rest,
          ← append_assoc (taken E id r s e),
          one,
          append_assoc (queued E s id r),
        )
        refl
