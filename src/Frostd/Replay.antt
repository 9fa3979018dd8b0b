-- ===== src/Frostd/Replay.antt =====
-- Challenges that were used up: what may happen at the server after a login.
use frost_tools.Prelude.{
  ℕ, ◌≡◌, inl, inr, true, false, Bool, Option, List, [], ◌∷◌, arith, nat_beq, Option-cases,
  Bool-cases, is_ok,
}
use frost_tools.Api.{Uuid, LoginArgs}
use frost_tools.Frostd.State.{Env, AppState, expire_session, expire_challenge, expire_access_token}
use frost_tools.Frostd.Functions.{
  challenge, login, logout, create_new_session, list_sessions, get_session_info, send, receive,
  close_session,
}
use frost_tools.Frostd.Server
use frost_tools.Frostd.Server.{Request, Call, Event, dispatch, handle, step, run, call}
use frost_tools.Frostd.Reach.{authenticated, wrapped, finished}
use frost_tools.Frostd.Auth.{login_iff, login_effect}

-- The call draws `c` as a new challenge.
abbrev pub draws : Uuid → Uuid → Request → Bool
draws c fresh Request.challenge = nat_beq fresh c
draws c fresh _ = false

-- None of the events draws `c` as a new challenge.
abbrev pub NeverDrawn : Uuid → List Event → Type 0
NeverDrawn c [] = Unit
NeverDrawn c (call k ∷ es) = (draws c k.fresh k.request ≡ false) × NeverDrawn c es
NeverDrawn c (_ ∷ es) = NeverDrawn c es

module _ (E : Env) (c : Uuid) where
  abbrev Spent : AppState E → Type 0
  Spent s = E.challenges.contains s.challenges c ≡ false

  login-Spent :
      (now : ℕ) (fresh : Uuid) (args : LoginArgs) (s : AppState E)
      → Spent s
      → Spent (login E now fresh args s).1
  unfolding login
  login-Spent now fresh args s h =
      ground (arith, E.challenges.contains_take args.challenge c s.challenges)

  challenge-Spent :
      (now : ℕ) (fresh : Uuid) (s : AppState E)
      → nat_beq fresh c ≡ false
      → Spent s
      → Spent (challenge E now fresh s).1
  unfolding challenge
  challenge-Spent now fresh s other h =
      ground (arith, E.challenges.contains_insert now fresh c s.challenges)

  dispatch-Spent :
      (now : ℕ) (fresh : Uuid) (bearer : Option Uuid) (r : Request) (s : AppState E)
      → draws c fresh r ≡ false
      → Spent s
      → Spent (dispatch E now fresh bearer r s).1
  unfolding dispatch
  dispatch-Spent now fresh bearer Request.challenge s n h =
      wrapped E Spent (challenge E now fresh) Server.uuid s (challenge-Spent now fresh s n h)
  dispatch-Spent now fresh bearer (Request.login args) s n h =
      wrapped E Spent (login E now fresh args) Server.uuid s (login-Spent now fresh args s h)
  dispatch-Spent now fresh bearer Request.logout s n h =
      authenticated E Spent bearer s _ h
        λ u. finished E Spent (logout E u) Server.done s (unfold logout in h)
  dispatch-Spent now fresh bearer (Request.create_new_session args) s n h =
      authenticated E Spent bearer s _ h λ u.
        wrapped E Spent (create_new_session E now fresh u args) Server.uuid s
          (unfold create_new_session in ground arith)
  dispatch-Spent now fresh bearer Request.list_sessions s n h =
      authenticated E Spent bearer s _ h λ u. unfold list_sessions in h
  dispatch-Spent now fresh bearer (Request.get_session_info id) s n h =
      authenticated E Spent bearer s _ h λ u.
        wrapped E Spent (get_session_info E u id) Server.session_info s
          (unfold get_session_info in ground arith)
  dispatch-Spent now fresh bearer (Request.send args) s n h =
      authenticated E Spent bearer s _ h
        λ u. finished E Spent (send E now u args) Server.done s (unfold send in ground arith)
  dispatch-Spent now fresh bearer (Request.receive args) s n h =
      authenticated E Spent bearer s _ h
        λ u. wrapped E Spent (receive E now u args) Server.msgs s (unfold receive in ground arith)
  dispatch-Spent now fresh bearer (Request.close_session id) s n h =
      authenticated E Spent bearer s _ h λ u.
        finished E Spent (close_session E u id) Server.done s (unfold close_session in ground arith)

  expire-Spent : (now : ℕ) (s : AppState E) → Spent s → Spent (expire_challenge E now s)
  unfolding expire_challenge
  expire-Spent now s h = elim (Option-cases (E.challenges.next now s.challenges)) [
    | inl e ↦ rw (e, expire_challenge) h
    | inr ((k, rest), e) ↦ ground (arith, E.challenges.next_removes now k s.challenges rest e c)
  ]

  run-Spent : (es : List Event) (s : AppState E) → NeverDrawn c es → Spent s → Spent (run E s es)
  unfolding run step handle
  run-Spent [] s n h = h
  run-Spent (call k ∷ es) s n h =
      run-Spent es (step E s (call k)) n.1 (dispatch-Spent k.now k.fresh k.bearer k.request s n.0 h)
  run-Spent (Event.session_timer now ∷ es) s n h =
      run-Spent es (expire_session E now s) n (unfold expire_session in ground arith)
  run-Spent (Event.challenge_timer now ∷ es) s n h =
      run-Spent es (expire_challenge E now s) n (expire-Spent now s h)
  run-Spent (Event.access_token_timer now ∷ es) s n h =
      run-Spent es (expire_access_token E now s) n (unfold expire_access_token in ground arith)

-- A challenge is good for one login: after a success, and then any calls and timers that do not draw
-- the same challenge anew, every login with it fails, whoever sends it.
pub login_once :
    (E : Env) (now : ℕ) (fresh : Uuid) (args : LoginArgs) (s : AppState E) (es : List Event)
    (later : ℕ) (fresh' : Uuid) (args' : LoginArgs)
    → is_ok (login E now fresh args s).0 ≡ true
    → NeverDrawn args.challenge es
    → args'.challenge ≡ args.challenge
    → is_ok (login E later fresh' args' (run E (login E now fresh args s).1 es)).0 ≡ false
login_once E now fresh args s es later fresh' args' h never same =
    let t = (login E now fresh args s).1 in
    let u = run E t es in
    let spent =
      run-Spent E args.challenge es t never
        (ground (arith, ((login_effect E now fresh args s).0 h).1 args.challenge)) in
    elim (Bool-cases (is_ok (login E later fresh' args' u).0)) [
      | inl again ↦
          let has : E.challenges.contains u.challenges args.challenge ≡ true =
            rw same at ((login_iff E later fresh' args' u).0 again).3 in
          cc
      | inr refused ↦ refused
    ]
