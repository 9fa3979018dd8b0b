-- ===== src/Frostd/Reach.antt =====
-- The states that the server can be in, and the rule by which an invariant is proved of them.
use frost_tools.Prelude.{
  Option, none, some, Outcome, ok, err, panic, Method, continue, ◌>>=◌, ◌>>◌, pure, Option-cases,
  inl, inr,
}
use frost_tools.Api.{Uuid, Error}
use frost_tools.Frostd.State.{Env, AppState, new}
use frost_tools.Frostd.Functions.{User, authenticate}
use frost_tools.Frostd.Server.{Request, Event, call, step}
use frost_tools.Frostd.Registry.{IsFresh}

module _ (E : Env) where
  -- What is asked of the UUID that a call draws: a new session's id is in nobody's list.
  abbrev pub DrawsFresh : AppState E → Uuid → Request → Type 0
  DrawsFresh s id (Request.create_new_session args) = IsFresh E s id
  DrawsFresh s id _ = Unit

  abbrev pub Allowed : AppState E → Event → Type 0
  Allowed s (call c) = DrawsFresh s c.fresh c.request
  Allowed s _ = Unit

  pub data Reach : AppState E → Type 0 where
    start : Reach (new E)
    next : {s : AppState E} → Reach s → (e : Event) → Allowed s e → Reach (step E s e)

  -- A handler that runs for an authenticated user keeps what it keeps for every user.
  pub authenticated :
      {A : Type 0} (P : AppState E → Type 0) (bearer : Option Uuid) (s : AppState E)
      (h : User → Method Error (AppState E) A)
      → P s
      → ((u : User) → P (h u s).1)
      → P ((authenticate E bearer >>= h) s).1
  unfolding authenticate
  authenticated P none s h p keep = p
  authenticated P (some t) s h p keep =
      elim (Option-cases (E.access_tokens.get s.access_tokens t)) [
        | inl e ↦ rw (e, authenticate) p
        | inr (k, e) ↦ rw (e, authenticate) (keep (record { pubkey = k; current_token = t }))
      ]

  -- The last step of a handler wraps the result.
  pub wrapped :
      {A B : Type 0} (P : AppState E → Type 0) (m : Method Error (AppState E) A) (f : A → B)
      (s : AppState E)
      → P (m s).1
      → P ((m >>= λ a. pure (f a)) s).1
  wrapped {A} {B} P m f s p = last (m s).0 (m s).1 p
    where
      last : (r : Outcome Error A) (t : AppState E) → P t → P (continue r (λ a. pure (f a)) t).1
      last (ok a) t p = p
      last (err e) t p = p
      last panic t p = p

  -- A handler with no result to wrap ends in `done`.
  pub finished :
      {A : Type 0} (P : AppState E → Type 0) (m : Method Error (AppState E) (Unit {0})) (a : A)
      (s : AppState E)
      → P (m s).1
      → P ((m >> pure a) s).1
  finished P m a s p = wrapped P m (λ _. a) s p
