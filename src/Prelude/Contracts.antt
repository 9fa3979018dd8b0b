-- ===== src/Prelude/Contracts.antt =====
-- What a method has established when it returns a result.
use mathlib.Core.Path.{◌≡◌, refl, ap, sym, ◌∙◌}
use mathlib.Core.Bool.{Bool, true, false}
use frost_tools.Prelude.Tests.{if◌then◌else◌}
use frost_tools.Prelude.Outcomes.{
  Outcome, ok, err, panic, Method, continue, ◌>>=◌, pure, lift, gets, modify, unless,
}

-- From a state in `P`, a result of `m` and the state after it are in `Q`.
pub record Ensures {E S A : Type 0} (P : S → Type 0) (m : Method E S A) (Q : A → S → Type 0)
    : Type 0 where
  pub ensured : (s : S) → P s → (a : A) (t : S) → m s ≡ (ok a, t) → Q a t

pub continue-eq-ok :
    {E S A B : Type 0} (x : Outcome E A × S) (f : A → Method E S B) {b : B} {t : S}
    → continue x.0 f x.1 ≡ (ok b, t)
    → (a : A) × (s : S) × (x ≡ (ok a, s)) × (f a s ≡ (ok b, t))
continue-eq-ok (ok a, s) f e = (a, s, refl, e)
continue-eq-ok (err x, s) f e = cc
continue-eq-ok (panic, s) f e = cc

pub ensures_then :
    {E S A B : Type 0} {P : S → Type 0} {m : Method E S A} {Q : A → S → Type 0}
    {f : A → Method E S B} {R : B → S → Type 0}
    → Ensures P m Q
    → ((a : A) → Ensures (Q a) (f a) R)
    → Ensures P (m >>= f) R
ensures_then {m} {f} h k = record {
  ensured = λ s p b t e.
      let (a, u, first, second) = continue-eq-ok (m s) f e in
      (k a).ensured u (h.ensured s p a u first) b t second;
}

-- The same from what the method comes to at each state.
pub ensures_at :
    {E S A : Type 0} {P : S → Type 0} {m : Method E S A} {Q : A → S → Type 0} (r : S → Outcome E A)
    (f : S → S)
    → ((s : S) → m s ≡ (r s, f s))
    → ((s : S) → P s → (a : A) → r s ≡ ok a → Q a (f s))
    → Ensures P m Q
ensures_at r f is h = record {
  ensured = λ s p a t e.
      let same : f s ≡ t = ap (λ x. x.1) (sym (is s) ∙ e) in
      rw same at (h s p a (ap (λ x. x.0) (sym (is s) ∙ e)));
}

pub ensures_pure :
    {E S A : Type 0} {P : S → Type 0} {Q : A → S → Type 0} (a : A)
    → ((s : S) → P s → Q a s)
    → Ensures {E = E} P (pure a) Q
ensures_pure a h =
    ensures_at (λ s. ok a) (λ s. s) (λ s. refl)
      (λ s p b e. let same : a ≡ b = cc in rw same at (h s p))

pub ensures_lift :
    {E S A : Type 0} {P : S → Type 0} {Q : A → S → Type 0} (r : Outcome E A)
    → ((s : S) → P s → (a : A) → r ≡ ok a → Q a s)
    → Ensures P (lift r) Q
ensures_lift r h = ensures_at (λ s. r) (λ s. s) (λ s. refl) h

pub ensures_gets :
    {E S A : Type 0} {P : S → Type 0} {Q : A → S → Type 0} (f : S → A)
    → ((s : S) → P s → Q (f s) s)
    → Ensures {E = E} P (gets f) Q
ensures_gets f h =
    ensures_at (λ s. ok (f s)) (λ s. s) (λ s. refl)
      (λ s p b e. let same : f s ≡ b = cc in rw same at (h s p))

pub ensures_modify :
    {E S : Type 0} {P : S → Type 0} {Q : Unit {0} → S → Type 0} (f : S → S)
    → ((s : S) → P s → Q tt (f s))
    → Ensures {E = E} P (modify f) Q
ensures_modify f h = ensures_at (λ s. ok tt) f (λ s. refl) (λ s p b e. h s p)

pub ensures_unless :
    {E S : Type 0} {P : S → Type 0} {m : Method E S (Unit {0})} {Q : Unit {0} → S → Type 0}
    (b : Bool)
    → ((s : S) → P s → b ≡ true → Q tt s)
    → (b ≡ false → Ensures P m Q)
    → Ensures P (unless b m) Q
ensures_unless true h k = ensures_pure tt (λ s p. h s p refl)
ensures_unless false h k = k refl

-- A method that only adds to what holds.
pub ensures_keep :
    {E S A : Type 0} {P : S → Type 0} {m : Method E S A}
    → ((s : S) → P s → P (m s).1)
    → Ensures P m (λ a. P)
ensures_keep {m} h = ensures_at (λ s. (m s).0) (λ s. (m s).1) (λ s. refl) (λ s p a e. h s p)

pub lift_keep : {E S A : Type 0} {P : S → Type 0} (r : Outcome E A) → Ensures P (lift r) (λ a. P)
lift_keep r = ensures_lift r (λ s p a e. p)

pub ensures_weaker :
    {E S A : Type 0} {P P' : S → Type 0} {m : Method E S A} {Q : A → S → Type 0}
    → ((s : S) → P' s → P s)
    → Ensures P m Q
    → Ensures P' m Q
ensures_weaker w h = record { ensured = λ s p. h.ensured s (w s p) }

pub ensures_both :
    {E S A : Type 0} {P P' : S → Type 0} {m : Method E S A} {Q Q' : A → S → Type 0}
    → Ensures P m Q
    → Ensures P' m Q'
    → Ensures (λ s. P s × P' s) m (λ a s. Q a s × Q' a s)
ensures_both h k = record { ensured = λ s p a t e. (h.ensured s p.0 a t e, k.ensured s p.1 a t e) }

pub ensures_if :
    {E S A : Type 0} {P : S → Type 0} {m n : Method E S A} {Q : A → S → Type 0} (b : Bool)
    → Ensures P m Q
    → Ensures P n Q
    → Ensures P (if b then m else n) Q
ensures_if true h k = h
ensures_if false h k = k

-- What does not speak of the state stays.
pub ensures_fact :
    {E S A Fact : Type 0} (m : Method E S A) → Ensures {S = S} (λ s. Fact) m (λ a s. Fact)
ensures_fact m = ensures_keep (λ s p. p)

pub ensures_true :
    {E S A : Type 0} (m : Method E S A) → Ensures {S = S} (λ s. Unit {0}) m (λ a s. Unit {0})
ensures_true m = ensures_fact m
