-- ===== src/Comms/Polling.antt =====
-- The loop that waits for messages: when it ends, and what the session state is then.
use mathlib.Core.Path.{subst, subst⁻¹}
use mathlib.Core.List.{Mem, mem-cons_self, mem-cons_of_mem}
use frost_tools.Prelude.{
  ℕ, zero, suc, ◌<◌, arith, ◌≡◌, refl, ap, Bool, true, false, List, [], ◌∷◌, ◌++◌, Outcome, ok, err,
  panic, Method, ◌>>◌, pure, gets, inl, inr, Outcome-cases,
}
use frost_tools.Prelude.Contracts.{continue-eq-ok}
use frost_tools.Api.{Msg, ReceiveArgs}
use frost_tools.Client.Transport.{Transport}
use frost_tools.Cipher.Snow.{Snow}
use frost_tools.Cipher.Peers.{decrypt}
use frost_tools.Client.Calls.{Link, ClientError, receive}
use frost_tools.Comms.Arrivals.{Opens, decrypt-Opens, Arrived}
use frost_tools.Session.Suite.{SessionError}
use frost_tools.Comms.Core.{
  CommsError, from_client, from_session, Polling, receiving, take_msg, take_msgs, poll_once, poll,
}

-- The session state takes every one of the messages, the first one first; each is in `D`.
pub data Accepts {State : Type 0} (D : Msg → Type 0)
    (recv : Msg → State → Outcome SessionError (Unit {0}) × State)
    : List Msg → State → State → Type 0 where
  none_left : {s : State} → Accepts D recv [] s s
  accept :
      {m : Msg} {ms : List Msg} {s t u : State}
      → D m
      → recv m s ≡ (ok tt, t)
      → Accepts D recv ms t u
      → Accepts D recv (m ∷ ms) s u

pub Accepts-append :
    {State : Type 0} {D : Msg → Type 0}
    {recv : Msg → State → Outcome SessionError (Unit {0}) × State} {ms ns : List Msg}
    {s t u : State}
    → Accepts D recv ms s t
    → Accepts D recv ns t u
    → Accepts D recv (ms ++ ns) s u
Accepts-append none_left b = b
Accepts-append (accept d e a) b = accept d e (Accepts-append a b)

pub from_session-ok :
    (T : Transport) (S : Snow) {A : Type 0} {a : A} (r : Outcome SessionError A)
    → from_session T S r ≡ ok a
    → r ≡ ok a
from_session-ok T S (ok b) e = let same : b ≡ _ = cc in ap ok same
from_session-ok T S (err x) e = cc
from_session-ok T S panic e = cc

module _ (T : Transport) (S : Snow) {State : Type 0}
    (recv : Msg → State → Outcome SessionError (Unit {0}) × State) (done : State → Bool)
    (args : ReceiveArgs) where
  -- Rounds of the loop that were not the last one.
  pub data Waits : ℕ → Polling T S State → Polling T S State → Type 0 where
    at_once : {p : Polling T S State} → Waits 0 p p
    wait :
        {n : ℕ} {p q r : Polling T S State}
        → poll_once T S recv done args p ≡ (ok false, q)
        → Waits n q r
        → Waits (suc n) p r

  abbrev D : Msg → Type 0
  D = Arrived T S args.as_coordinator

  from_session-state :
      (x : Outcome SessionError (Unit {0}) × State) (p q : Polling T S State)
      → ◌≡◌ {A = Outcome (CommsError T S) (Unit {0}) × Polling T S State}
          (from_session T S x.0, record p { state = x.1 })
          (ok tt, q)
      → x ≡ (ok tt, q.state)
  from_session-state (ok u, s) p q e = ap (λ y. (ok tt, Polling.state y.1)) e
  from_session-state (err x, s) p q e = cc
  from_session-state (panic, s) p q e = cc

  take_msg-Accepts :
      (m : Msg) (p q : Polling T S State)
      → take_msg T S recv done args m p ≡ (ok tt, q)
      → (d : Msg) × (recv d p.state ≡ (ok tt, q.state))
        × (d.sender ≡ m.sender)
        × Opens S m.msg d.msg
  unfolding take_msg
  take_msg-Accepts m p q e = elim (Outcome-cases (decrypt S m p.cipher).0) [
    | inl (d, h) ↦ (
      d,
      from_session-state (recv d p.state) (record p { cipher = (decrypt S m p.cipher).1 }) q
          (rw (h, take_msg) at e),
      (decrypt-Opens S m d p.cipher h).0,
      (decrypt-Opens S m d p.cipher h).1,
    )
    | inr (inl (x, h)) ↦ let f = rw (h, take_msg) at e in cc
    | inr (inr h) ↦ let f = rw (h, take_msg) at e in cc
  ]

  take_msgs-Accepts :
      (l k : Link T) (batch : List Msg)
      → receive T args l ≡ (ok batch, k)
      → (ms : List Msg) (p q : Polling T S State) → ((m : Msg) → Mem m ms → Mem m batch)
      → take_msgs T S recv done args ms p ≡ (ok tt, q)
      → (ds : List Msg) × Accepts D recv ds p.state q.state
  unfolding take_msgs
  take_msgs-Accepts l k batch got [] p q within e =
      let same : p.state ≡ q.state = ap (λ x. Polling.state x.1) e in
      ([], subst (λ s. Accepts D recv [] p.state s) same none_left)
  take_msgs-Accepts l k batch got (m ∷ ms) p q within e =
      let (u, r, first, second) =
        continue-eq-ok (take_msg T S recv done args m p) (λ u. take_msgs T S recv done args ms) e in
      let (d, one, sender, opened) = take_msg-Accepts m p r first in
      let (ds, rest) =
        take_msgs-Accepts l k batch got ms r q (λ x i. within x (mem-cons_of_mem m i)) second in
      let arrived : D d = record {
        session_id = args.session_id;
        before = l;
        after = k;
        batch = batch;
        sealed = m;
        fetched = got;
        there = within m mem-cons_self;
        sender = sender;
        opened = opened;
      } in
      (d ∷ ds, accept arrived one rest)

  from_client-ok :
      (x : Outcome (ClientError T) (List Msg) × Link T) (p q : Polling T S State) (ms : List Msg)
      → ◌≡◌ {A = Outcome (CommsError T S) (List Msg) × Polling T S State}
          (from_client T S x.0, record p { link = x.1 })
          (ok ms, q)
      → x ≡ (ok ms, q.link)
  from_client-ok (ok ns, l) p q ms e =
      let same : ns ≡ ms = cc in
      let link : l ≡ q.link = ap (λ y. Polling.link y.1) e in rw (same, link) refl
  from_client-ok (err x, l) p q ms e = cc
  from_client-ok (panic, l) p q ms e = cc

  pub poll_once-Accepts :
      (p q : Polling T S State) (b : Bool)
      → poll_once T S recv done args p ≡ (ok b, q)
      → ((ds : List Msg) × Accepts D recv ds p.state q.state) × (done q.state ≡ b)
  unfolding poll_once receiving
  poll_once-Accepts p q b e =
      let (ms, r, first, second) =
        continue-eq-ok (receiving T S recv done args p)
          (λ ms. take_msgs T S recv done args ms >> gets (λ p. done p.state)) e in
      let (u, t, taken, last) =
        continue-eq-ok (take_msgs T S recv done args ms r) (λ u. gets (λ p. done p.state)) second in
      let unmoved : p.state ≡ r.state = ap (λ x. Polling.state x.1) first in
      let still : t ≡ q = ap (λ x. x.1) last in
      let (ds, a) =
        take_msgs-Accepts p.link r.link ms (from_client-ok (receive T args p.link) p r ms first) ms
          r t (λ x i. i) taken in
      let same : t.state ≡ q.state = ap Polling.state still in
      let test : done t.state ≡ b = cc in
      ((ds, subst⁻¹ (λ s. Accepts D recv ds s q.state) unmoved (rw same at a)), rw same at test)

  pub poll-Waits :
      (n : ℕ) {k : ℕ} {p q : Polling T S State} (r : Polling T S State)
      → k < n
      → Waits k p q
      → poll_once T S recv done args q ≡ (ok true, r)
      → poll T S recv done args n p ≡ (ok tt, r)
  unfolding poll
  poll-Waits zero r h w e = absurd (omega arith)
  poll-Waits (suc n) r h at_once e = rw (e, poll) refl
  poll-Waits (suc n) r h (wait f w) e = rw (f, poll) (poll-Waits n r (omega arith) w e)

  abbrev unless_last : ℕ → Bool → Method (CommsError T S) (Polling T S State) (Unit {0})
  unless_last n last = elim last [ true ↦ pure tt | false ↦ poll T S recv done args n ]

  unfoldable pub Returns : Polling T S State → Polling T S State → Type 0
  Returns p r =
      (k : ℕ) × (q : Polling T S State) × Waits k p q
      × (poll_once T S recv done args q ≡ (ok true, r))

  poll_once-Returns :
      (n : ℕ) (p t r : Polling T S State)
      → (poll T S recv done args n t ≡ (ok tt, r) → Returns t r)
      → (b : Bool) → poll_once T S recv done args p ≡ (ok b, t)
      → unless_last n b t ≡ (ok tt, r)
      → Returns p r
  unfolding Returns
  poll_once-Returns n p t r rest true first second =
      let same : t ≡ r = ap (λ x. x.1) second in (0, p, at_once, rw same at first)
  poll_once-Returns n p t r rest false first second =
      let (k, q, w, l) = rest second in (suc k, q, wait first w, l)

  pub poll-Returns :
      (n : ℕ) (p r : Polling T S State) → poll T S recv done args n p ≡ (ok tt, r) → Returns p r
  unfolding poll
  poll-Returns zero p r e = cc
  poll-Returns (suc n) p r e =
      let (b, t, first, second) =
        continue-eq-ok (poll_once T S recv done args p) (unless_last n) e in
      poll_once-Returns n p t r (poll-Returns n t r) b first second

  pub Waits-Accepts :
      {k : ℕ} {p q : Polling T S State}
      → Waits k p q
      → (ds : List Msg) × Accepts D recv ds p.state q.state
  Waits-Accepts at_once = ([], none_left)
  Waits-Accepts (wait {p} {q} e w) =
      let (ds, a) = (poll_once-Accepts p q false e).0 in
      let (es, b) = Waits-Accepts w in (ds ++ es, Accepts-append a b)

  -- When the loop returns, the session state is what the messages that it decrypted have made of
  -- it, each of which the state took, and it has all that was waited for.
  pub poll-Accepts :
      (n : ℕ) (p r : Polling T S State)
      → poll T S recv done args n p ≡ (ok tt, r)
      → ((ds : List Msg) × Accepts D recv ds p.state r.state) × (done r.state ≡ true)
  unfolding Returns
  poll-Accepts n p r e =
      let (k, q, w, l) = poll-Returns n p r e in
      let (ds, a) = Waits-Accepts w in
      let ((es, b), last) = poll_once-Accepts q r true l in ((ds ++ es, Accepts-append a b), last)
