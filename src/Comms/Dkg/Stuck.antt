-- ===== src/Comms/Dkg/Stuck.antt =====
-- The loops of the first round when the messages of the second one come early.
use frost_tools.Prelude.{
  ℕ, ◌≡◌, ◌≢◌, ◌⊎◌, inl, inr, ap, sym, ◌∙◌, Bool, true, false, Option, none, some, List, Map, ok,
}
use frost_tools.Api.{PublicKey, Msg, ReceiveArgs}
use frost_tools.Client.Transport.{Transport}
use frost_tools.Cipher.Snow.{Snow}
use frost_tools.Session.Suite.{Suite}
use frost_tools.Session.Dkg.{
  State, round2_packages_ready, recv, has_round1_packages, has_round1_broadcast_packages,
}
use frost_tools.Comms.Core.{Polling, poll, poll_once}
use frost_tools.Comms.Arrivals.{Arrived}
use frost_tools.Comms.Polling.{
  Accepts, none_left, accept, Waits, at_once, wait, Returns, poll-Returns, poll_once-Accepts,
  Waits-Accepts,
}
use frost_tools.Comms.Payloads.{Payloads}
use frost_tools.Comms.Dkg.{recv_as}

module _ (T : Transport) (S : Snow) (C : Suite) (P : Payloads C) (me : Option C.Identifier)
    (args : ReceiveArgs) where
  open C use {Identifier, Round2Package}

  refused :
      (i : Option Identifier) (m : Msg) (pubkeys : Map PublicKey Identifier)
      (r2 : Map Identifier Round2Package) (t : State C)
      → recv_as T S C P i m (round2_packages_ready pubkeys r2) ≢ (ok tt, t)
  unfolding recv
  refused none m pubkeys r2 t e = cc
  refused (some id) m pubkeys r2 t e = cc

  -- No message is taken any more.
  ready-Accepts :
      (pubkeys : Map PublicKey Identifier) (r2 : Map Identifier Round2Package) (ds : List Msg)
      (s t : State C)
      → s ≡ round2_packages_ready pubkeys r2
      → Accepts (Arrived T S args.as_coordinator) (recv_as T S C P me) ds s t
      → t ≡ round2_packages_ready pubkeys r2
  ready-Accepts pubkeys r2 ds s t is none_left = is
  ready-Accepts pubkeys r2 ds s t is (accept {m} {t = u} d e a) =
      absurd (refused me m pubkeys r2 u (rw is at e))

  module _ (pubkeys : Map PublicKey Identifier) (r2 : Map Identifier Round2Package)
      (done : State C → Bool) (early : done (round2_packages_ready pubkeys r2) ≡ false) where
    abbrev Ready : Polling T S (State C) → Type 0
    Ready p = p.state ≡ round2_packages_ready pubkeys r2

    not_last :
        (p q : Polling T S (State C))
        → Ready p
        → poll_once T S (recv_as T S C P me) done args p ≢ (ok true, q)
    not_last p q is e =
        let ((ds, a), last) = poll_once-Accepts T S (recv_as T S C P me) done args p q true e in
        let still = ready-Accepts pubkeys r2 ds p.state q.state is a in
        let no = early in
        let yes : done (round2_packages_ready pubkeys r2) ≡ true = rw still at last in cc

    not_returned :
        {k : ℕ} (p t q r : Polling T S (State C)) (b : Bool)
        → poll_once T S (recv_as T S C P me) done args p ≡ (ok b, t)
        → Ready t
        → Waits T S (recv_as T S C P me) done args k p q
        → poll_once T S (recv_as T S C P me) done args q ≢ (ok true, r)
    not_returned p t q r b once is at_once e =
        let ((ds, a), last) = poll_once-Accepts T S (recv_as T S C P me) done args p r true e in
        let same : t ≡ r = ap (λ x. x.1) (sym once ∙ e) in
        let still = rw same at is in
        let no = early in
        let yes : done (round2_packages_ready pubkeys r2) ≡ true = rw still at last in cc
    not_returned p t q r b once is (wait {q = u} f w) e =
        let same : t ≡ u = ap (λ x. x.1) (sym once ∙ f) in
        let there : Ready u = rw same at is in
        let (ds, a) = Waits-Accepts T S (recv_as T S C P me) done args w in
        not_last q r (ready-Accepts pubkeys r2 ds u.state q.state there a) e

  -- If the messages of one round take the session to the state in which all second-round packages
  -- are there, neither loop of `get_round1_packages` ends well, however many rounds it is given.
  pub overtaken :
      (pubkeys : Map PublicKey Identifier) (r2 : Map Identifier Round2Package) (rounds : ℕ)
      (done : State C → Bool) (p t q : Polling T S (State C)) (b : Bool)
      → (done ≡ has_round1_packages C) ⊎ (done ≡ has_round1_broadcast_packages C)
      → poll_once T S (recv_as T S C P me) done args p ≡ (ok b, t)
      → t.state ≡ round2_packages_ready pubkeys r2
      → poll T S (recv_as T S C P me) done args rounds p ≢ (ok tt, q)
  unfolding has_round1_packages has_round1_broadcast_packages Returns
  overtaken pubkeys r2 rounds done p t q b loop once is e =
      let early : done (round2_packages_ready pubkeys r2) ≡ false = elim loop [
        | inl h ↦ ap (λ (f : State C → Bool). f (round2_packages_ready pubkeys r2)) h
        | inr h ↦ ap (λ (f : State C → Bool). f (round2_packages_ready pubkeys r2)) h
      ] in
      let (k, u, w, last) = poll-Returns T S (recv_as T S C P me) done args rounds p q e in
      not_returned pubkeys r2 done early p t u q b once is w last
