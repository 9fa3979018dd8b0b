-- ===== src/Frostd/Tokens.antt =====
-- Where access tokens come from.
use frost_tools.Prelude.{
  ℕ, ◌≡◌, ◌≢◌, ◌⊎◌, inl, inr, refl, some, Option, arith, nat_beq, Option-cases, Bool-cases, is_ok,
}
use frost_tools.Api.{Uuid, PublicKey, LoginArgs}
use frost_tools.Frostd.State.{Env, AppState, expire_session, expire_challenge, expire_access_token}
use frost_tools.Frostd.Functions.{
  User, challenge, login, logout, create_new_session, list_sessions, get_session_info, send,
  receive, close_session,
}
use frost_tools.Frostd.Server
use frost_tools.Frostd.Server.{Request, Call, Event, dispatch, handle, step, call}
use frost_tools.Frostd.Reach.{authenticated, wrapped, finished}
use frost_tools.Frostd.Auth.{Presents, login_iff, login_effect}

-- The event is a login for `p` that presents what a login has to, and that draws `k`.
pub record IsLogin (E : Env) (s : AppState E) (e : Event) (k : Uuid) (p : PublicKey) : Type 0 where
  pub c : Call
  pub args : LoginArgs
  pub is_call : e ≡ call c
  pub is_login : c.request ≡ Request.login args
  pub drawn : c.fresh ≡ k
  pub for_key : args.pubkey ≡ p
  pub presents : Presents E s args

-- No token stands for a key that it did not stand for before.
record AddsNone (E : Env) (s t : AppState E) : Type 0 where
  before :
      (k : Uuid) (p : PublicKey)
      → E.access_tokens.get t.access_tokens k ≡ some p
      → E.access_tokens.get s.access_tokens k ≡ some p

module _ (E : Env) where
  same_tokens : {s t : AppState E} → t.access_tokens ≡ s.access_tokens → AddsNone E s t
  same_tokens e = record { before = λ k p h. rw e at h }

  logout_adds : (s : AppState E) (u : User) → AddsNone E s (logout E u s).1
  unfolding logout
  logout_adds s u = record {
    before = λ k p h. ground (arith, E.access_tokens.get_remove u.current_token k s.access_tokens);
  }

  expire_adds : (s : AppState E) (now : ℕ) → AddsNone E s (expire_access_token E now s)
  unfolding expire_access_token
  expire_adds s now = record {
    before = λ k p h. elim (Option-cases (E.access_tokens.next now s.access_tokens)) [
      | inl e ↦ ground arith
      | inr ((j, q, rest), e) ↦
          ground (arith, E.access_tokens.next_removes now j q s.access_tokens rest e k)
    ];
  }

  login_adds :
      (s : AppState E) (c : Call) (args : LoginArgs) (k : Uuid) (p : PublicKey)
      → c.request ≡ Request.login args
      → E.access_tokens.get (login E c.now c.fresh args s).1.access_tokens k ≡ some p
      → (E.access_tokens.get s.access_tokens k ≡ some p) ⊎ IsLogin E s (call c) k p
  login_adds s c args k p q h =
      let (good, bad) = login_effect E c.now c.fresh args s in
      elim (Bool-cases (is_ok (login E c.now c.fresh args s).0)) [
        | inr e ↦ inl (rw (bad e) at h)
        | inl fine ↦ elim (Bool-cases (nat_beq c.fresh k)) [
          | inr other ↦ inl (ground (arith, (good fine).2 k))
          | inl same ↦ inr (record {
            c = c;
            args = args;
            is_call = refl;
            is_login = q;
            drawn = ground arith;
            for_key = ground (arith, (good fine).2 k);
            presents = (login_iff E c.now c.fresh args s).0 fine;
          })
        ]
      ]

  -- What every endpoint but `login` does to the tokens.
  dispatch_adds :
      (now : ℕ) (fresh : Uuid) (bearer : Option Uuid) (r : Request) (s : AppState E)
      → ((args : LoginArgs) → r ≢ Request.login args)
      → AddsNone E s (dispatch E now fresh bearer r s).1
  unfolding dispatch
  dispatch_adds now fresh bearer Request.challenge s n = same_tokens (unfold challenge in refl)
  dispatch_adds now fresh bearer (Request.login args) s n = absurd (n args refl)
  dispatch_adds now fresh bearer Request.logout s n =
      authenticated E (AddsNone E s) bearer s _ (same_tokens refl)
        λ u. finished E (AddsNone E s) (logout E u) Server.done s (logout_adds s u)
  dispatch_adds now fresh bearer (Request.create_new_session args) s n =
      authenticated E (AddsNone E s) bearer s _ (same_tokens refl) λ u.
        wrapped E (AddsNone E s) (create_new_session E now fresh u args) Server.uuid s
          (same_tokens (unfold create_new_session in ground arith))
  dispatch_adds now fresh bearer Request.list_sessions s n =
      authenticated E (AddsNone E s) bearer s _ (same_tokens refl)
        λ u. same_tokens (unfold list_sessions in refl)
  dispatch_adds now fresh bearer (Request.get_session_info id) s n =
      authenticated E (AddsNone E s) bearer s _ (same_tokens refl) λ u.
        wrapped E (AddsNone E s) (get_session_info E u id) Server.session_info s
          (same_tokens (unfold get_session_info in ground arith))
  dispatch_adds now fresh bearer (Request.send args) s n =
      authenticated E (AddsNone E s) bearer s _ (same_tokens refl) λ u.
        finished E (AddsNone E s) (send E now u args) Server.done s
          (same_tokens (unfold send in ground arith))
  dispatch_adds now fresh bearer (Request.receive args) s n =
      authenticated E (AddsNone E s) bearer s _ (same_tokens refl) λ u.
        wrapped E (AddsNone E s) (receive E now u args) Server.msgs s
          (same_tokens (unfold receive in ground arith))
  dispatch_adds now fresh bearer (Request.close_session id) s n =
      authenticated E (AddsNone E s) bearer s _ (same_tokens refl) λ u.
        finished E (AddsNone E s) (close_session E u id) Server.done s
          (same_tokens (unfold close_session in ground arith))

  call_origin :
      (s : AppState E) (c : Call) (r : Request) (k : Uuid) (p : PublicKey)
      → c.request ≡ r
      → E.access_tokens.get (dispatch E c.now c.fresh c.bearer r s).1.access_tokens k ≡ some p
      → (E.access_tokens.get s.access_tokens k ≡ some p) ⊎ IsLogin E s (call c) k p
  unfolding dispatch
  call_origin s c (Request.login args) k p q h = login_adds s c args k p q (
      wrapped E
        (λ t.
          E.access_tokens.get t.access_tokens k ≡ some p
          → E.access_tokens.get (login E c.now c.fresh args s).1.access_tokens k ≡ some p)
        (login E c.now c.fresh args) Server.uuid s (λ x. x) h)
  call_origin s c r k p q h =
      inl ((dispatch_adds c.now c.fresh c.bearer r s (λ args e. cc)).before k p h)

  -- If a token stands for a key after an event, it stood for that key before, or the event is a
  -- login for that key that presented an outstanding challenge and a signature of it that verifies.
  pub token_origin :
      (s : AppState E) (e : Event) (k : Uuid) (p : PublicKey)
      → E.access_tokens.get (step E s e).access_tokens k ≡ some p
      → (E.access_tokens.get s.access_tokens k ≡ some p) ⊎ IsLogin E s e k p
  unfolding step handle
  token_origin s (call c) k p h = call_origin s c c.request k p refl h
  token_origin s (Event.session_timer now) k p h = inl (
      (same_tokens {s = s} {t = expire_session E now s}
          (unfold expire_session in ground arith)).before
        k p h)
  token_origin s (Event.challenge_timer now) k p h = inl (
      (same_tokens {s = s} {t = expire_challenge E now s}
          (unfold expire_challenge in ground arith)).before
        k p h)
  token_origin s (Event.access_token_timer now) k p h = inl ((expire_adds s now).before k p h)
