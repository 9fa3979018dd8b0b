-- ===== src/Prelude/Outcomes.antt =====
-- What a fallible function ends in, and methods that change a state and may fail.
use mathlib.Core.Path.{◌≡◌, refl, ap}
use mathlib.Core.Logic.{◌⊎◌, inl, inr}
use mathlib.Core.Bool.{Bool, true, false}
use mathlib.Core.Option.{Option, none, some}

-- `err e` is a returned `Err`, `panic` a panic of the thread.
pub data Outcome (E : Type 0) (A : Type 0) : Type 0 where
  ok : A → Outcome E A
  err : E → Outcome E A
  panic : Outcome E A

abbrev pub bind : {E A B : Type 0} → Outcome E A → (A → Outcome E B) → Outcome E B
bind (ok a) f = f a
bind (err e) f = err e
bind panic f = panic

-- `ok_or` of an `Option`.
abbrev pub ok_or : {E A : Type 0} → Option A → E → Outcome E A
ok_or none e = err e
ok_or (some a) e = ok a

abbrev pub guard : {E : Type 0} → Bool → E → Outcome E (Unit {0})
guard true e = ok tt
guard false e = err e

abbrev pub is_ok : {E A : Type 0} → Outcome E A → Bool
is_ok (ok a) = true
is_ok (err e) = false
is_ok panic = false

abbrev pub is_panic : {E A : Type 0} → Outcome E A → Bool
is_panic (ok a) = false
is_panic (err e) = false
is_panic panic = true

-- A method on `S`: what was written before a failure stays written.
abbrev pub Method : Type 0 → Type 0 → Type 0 → Type 0
Method E S A = S → Outcome E A × S

abbrev pub continue : {E S A B : Type 0} → Outcome E A → (A → Method E S B) → Method E S B
continue (ok a) f s = f a s
continue (err e) f s = (err e, s)
continue panic f s = (panic, s)

infixl 5 ◌>>=◌ ◌>>◌
abbrev pub ◌>>=◌ : {E S A B : Type 0} → Method E S A → (A → Method E S B) → Method E S B
◌>>=◌ m f s = let (r, s') = m s in continue r f s'

abbrev pub ◌>>◌ : {E S B : Type 0} → Method E S (Unit {0}) → Method E S B → Method E S B
m >> n = m >>= λ _. n

abbrev pub pure : {E S A : Type 0} → A → Method E S A
pure a s = (ok a, s)

abbrev pub lift : {E S A : Type 0} → Outcome E A → Method E S A
lift r s = (r, s)

abbrev pub gets : {E S A : Type 0} → (S → A) → Method E S A
gets f s = (ok (f s), s)

abbrev pub modify : {E S : Type 0} → (S → S) → Method E S (Unit {0})
modify f s = (ok tt, f s)

abbrev pub unless : {E S : Type 0} → Bool → Method E S (Unit {0}) → Method E S (Unit {0})
unless true m = pure tt
unless false m = m

pub guard-ok : {E : Type 0} (b : Bool) (e : E) {u : Unit {0}} → guard b e ≡ ok u → b ≡ true
guard-ok true e h = refl
guard-ok false e h = cc

pub ok_or-ok : {E A : Type 0} (o : Option A) (e : E) {a : A} → ok_or o e ≡ ok a → o ≡ some a
ok_or-ok none e h = cc
ok_or-ok (some b) e h = let same : b ≡ _ = cc in ap some same

pub bind-eq-ok :
    {E A B : Type 0} (r : Outcome E A) (next : A → Outcome E B) {b : B}
    → bind r next ≡ ok b
    → (a : A) × (r ≡ ok a) × (next a ≡ ok b)
bind-eq-ok panic next run = cc
bind-eq-ok (err e) next run = cc
bind-eq-ok (ok a) next run = (a, refl, run)

pub is_ok-eq : {E A : Type 0} (r : Outcome E A) → is_ok r ≡ true → (a : A) × (r ≡ ok a)
is_ok-eq (ok a) h = (a, refl)
is_ok-eq (err e) h = cc
is_ok-eq panic h = cc

pub Outcome-cases :
    {E A : Type 0} (r : Outcome E A)
    → ((a : A) × (r ≡ ok a)) ⊎ ((e : E) × (r ≡ err e)) ⊎ (r ≡ panic)
Outcome-cases (ok a) = inl (a, refl)
Outcome-cases (err e) = inr (inl (e, refl))
Outcome-cases panic = inr (inr refl)
