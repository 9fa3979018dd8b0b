-- ===== src/Frostd/Listing.antt =====
-- The index stays right through every call and every timer.
use frost_tools.Prelude.{ℕ, Option, ◌≡◌, refl, arith, some}
use frost_tools.Api.{Uuid, PublicKey}
use frost_tools.Frostd.State.{Session, Env, AppState, new, expire_challenge, expire_access_token}
use frost_tools.Frostd.Functions.{
  challenge, login, logout, create_new_session, list_sessions, get_session_info, send, receive,
  close_session, in_session,
}
use frost_tools.Frostd.Index.{listed}
use frost_tools.Frostd.Server
use frost_tools.Frostd.Server.{Request, Event, dispatch, handle, step, call, session_timer}
use frost_tools.Frostd.Registry.{
  IsIndexed, create-IsIndexed, close-IsIndexed, send-IsIndexed, receive-IsIndexed, expire-IsIndexed,
}
use frost_tools.Frostd.Reach.{
  DrawsFresh, Allowed, Reach, start, next, authenticated, wrapped, finished,
}

module _ (E : Env) where
  new-IsIndexed : IsIndexed E (new E)
  unfolding new
  new-IsIndexed = record { members = λ id x p h. ground (arith, E.sessions.get_new id) }

  -- Only the fields `sessions` and `sessions_by_pubkey` matter.
  same-IsIndexed :
      {s t : AppState E}
      → IsIndexed E s
      → t.sessions ≡ s.sessions
      → t.sessions_by_pubkey ≡ s.sessions_by_pubkey
      → IsIndexed E t
  same-IsIndexed v a b = record { members = λ id x p h. rw b (v.members id x p (rw a at h)) }

  dispatch-IsIndexed :
      (now : ℕ) (fresh : Uuid) (bearer : Option Uuid) (r : Request) (s : AppState E)
      → IsIndexed E s
      → DrawsFresh E s fresh r
      → IsIndexed E (dispatch E now fresh bearer r s).1
  unfolding dispatch
  dispatch-IsIndexed now fresh bearer Request.challenge s v d =
      same-IsIndexed v (unfold challenge in refl) (unfold challenge in refl)
  dispatch-IsIndexed now fresh bearer (Request.login args) s v d =
      wrapped E (IsIndexed E) (login E now fresh args) Server.uuid s
        (same-IsIndexed v (unfold login in ground arith) (unfold login in ground arith))
  dispatch-IsIndexed now fresh bearer Request.logout s v d =
      authenticated E (IsIndexed E) bearer s _ v
        λ u. same-IsIndexed v (unfold logout in refl) (unfold logout in refl)
  dispatch-IsIndexed now fresh bearer (Request.create_new_session args) s v d =
      authenticated E (IsIndexed E) bearer s _ v λ u.
        wrapped E (IsIndexed E) (create_new_session E now fresh u args) Server.uuid s
          (create-IsIndexed E s v now fresh u args d)
  dispatch-IsIndexed now fresh bearer Request.list_sessions s v d =
      authenticated E (IsIndexed E) bearer s _ v
        λ u. same-IsIndexed v (unfold list_sessions in refl) (unfold list_sessions in refl)
  dispatch-IsIndexed now fresh bearer (Request.get_session_info id) s v d =
      authenticated E (IsIndexed E) bearer s _ v λ u.
        wrapped E (IsIndexed E) (get_session_info E u id) Server.session_info s (
          same-IsIndexed v (unfold get_session_info in ground arith)
            (unfold get_session_info in ground arith))
  dispatch-IsIndexed now fresh bearer (Request.send args) s v d =
      authenticated E (IsIndexed E) bearer s _ v λ u.
        finished E (IsIndexed E) (send E now u args) Server.done s (send-IsIndexed E s v now u args)
  dispatch-IsIndexed now fresh bearer (Request.receive args) s v d =
      authenticated E (IsIndexed E) bearer s _ v λ u.
        wrapped E (IsIndexed E) (receive E now u args) Server.msgs s
          (receive-IsIndexed E s v now u args)
  dispatch-IsIndexed now fresh bearer (Request.close_session id) s v d =
      authenticated E (IsIndexed E) bearer s _ v λ u.
        finished E (IsIndexed E) (close_session E u id) Server.done s (close-IsIndexed E s v u id)

  step-IsIndexed :
      (s : AppState E) (e : Event) → IsIndexed E s → Allowed E s e → IsIndexed E (step E s e)
  unfolding step handle
  step-IsIndexed s (call c) v d = dispatch-IsIndexed c.now c.fresh c.bearer c.request s v d
  step-IsIndexed s (session_timer now) v d = expire-IsIndexed E s v now
  step-IsIndexed s (Event.challenge_timer now) v d =
      same-IsIndexed v (unfold expire_challenge in ground arith)
        (unfold expire_challenge in ground arith)
  step-IsIndexed s (Event.access_token_timer now) v d =
      same-IsIndexed v (unfold expire_access_token in ground arith)
        (unfold expire_access_token in ground arith)

  Reach-IsIndexed : {s : AppState E} → Reach E s → IsIndexed E s
  Reach-IsIndexed start = new-IsIndexed
  Reach-IsIndexed (next {s} r e d) = step-IsIndexed s e (Reach-IsIndexed r) d

  -- In every state that the server can reach when each new session has an id that is in nobody's
  -- list, a key has the id of a live session in its list exactly when it is the key of a
  -- participant or of the coordinator of that session.
  pub listed-members :
      {s : AppState E}
      → Reach E s
      → (id : Uuid) (x : Session) (p : PublicKey) → E.sessions.get s.sessions id ≡ some x
      → listed s.sessions_by_pubkey p id ≡ in_session x p
  listed-members r = (Reach-IsIndexed r).members
