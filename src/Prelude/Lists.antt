-- ===== src/Prelude/Lists.antt =====
-- Lists measured by native numbers, and lists read as sets.
use Prim.Native.Nat.{ℕ, zero, suc, ◌+◌, ◌<◌}
use mathlib.Core.Path.{◌≡◌, refl, subst}
use mathlib.Core.Bool.{Bool, true, false, not, ◌&&◌, ◌||◌}
use mathlib.Core.List.{List, [], ◌∷◌, ◌++◌}
use mathlib.Core.Option.{Option, none, some}
use native.Mathlib.Omega.{arith}
use frost_tools.Prelude.Tests.{if◌then◌else◌}
use frost_tools.Prelude.Classes.{PartialEq, ◌==◌, eq_iff}

module _ {ℓ} {A : Type ℓ} where
  abbrev pub length : List A → ℕ
  length [] = 0
  length (x ∷ xs) = suc (length xs)

  abbrev pub get_elem? : List A → ℕ → Option A
  get_elem? [] i = none
  get_elem? (x ∷ xs) zero = some x
  get_elem? (x ∷ xs) (suc i) = get_elem? xs i

  abbrev pub is_empty : List A → Bool
  is_empty [] = true
  is_empty (x ∷ xs) = false

  abbrev pub take : ℕ → List A → List A
  take zero xs = []
  take (suc n) [] = []
  take (suc n) (x ∷ xs) = x ∷ take n xs

  abbrev pub is_some : Option A → Bool
  is_some none = false
  is_some (some a) = true

  -- `entry(k).or_default()` at a vector, a set or a queue.
  abbrev pub or_default : Option (List A) → List A
  or_default none = []
  or_default (some xs) = xs

  abbrev pub all : (A → Bool) → List A → Bool
  all p [] = true
  all p (x ∷ xs) = p x && all p xs

  abbrev pub any : (A → Bool) → List A → Bool
  any p [] = false
  any p (x ∷ xs) = p x || any p xs

  pub length-append : (xs ys : List A) → length (xs ++ ys) ≡ length xs + length ys
  length-append [] ys = omega arith
  length-append (x ∷ xs) ys = omega (arith, length-append xs ys)

  pub get_elem?-lt : (xs : List A) (i : ℕ) → i < length xs → (a : A) × (get_elem? xs i ≡ some a)
  get_elem?-lt [] i h = absurd (omega arith)
  get_elem?-lt (x ∷ xs) zero h = (x, refl)
  get_elem?-lt (x ∷ xs) (suc i) h = get_elem?-lt xs i (omega arith)

module _ {ℓ} {A : Type ℓ} ⦃e : PartialEq A⦄ where
  -- `contains` of a `Vec` and of a `HashSet`.
  unfoldable pub contains : List A → A → Bool
  contains [] a = false
  contains (x ∷ xs) a = x == a || contains xs a

  -- `insert` and `remove` of a `HashSet`.
  unfoldable pub set_insert : A → List A → List A
  set_insert a xs = if contains xs a then xs else a ∷ xs

  unfoldable pub set_remove : A → List A → List A
  set_remove a [] = []
  set_remove a (x ∷ xs) = let rest = set_remove a xs in if x == a then rest else x ∷ rest

  -- Equality of sets.
  unfoldable pub set_eq : List A → List A → Bool
  set_eq xs ys = all (contains ys) xs && all (contains xs) ys

  pub contains-set_insert :
      (a b : A) (xs : List A) → contains (set_insert a xs) b ≡ (a == b || contains xs b)
  unfolding set_insert contains
  contains-set_insert a b xs = ground (arith, eq_iff a b)

  pub contains-set_remove :
      (a b : A) (xs : List A) → contains (set_remove a xs) b ≡ (not (a == b) && contains xs b)
  unfolding set_remove contains
  contains-set_remove a b [] = ground arith
  contains-set_remove a b (x ∷ xs) =
      ground (arith, contains-set_remove a b xs, eq_iff x a, eq_iff x b, eq_iff a b)

  pub all-contains :
      (p : A → Bool) (xs : List A) (a : A) → all p xs ≡ true → contains xs a ≡ true → p a ≡ true
  unfolding contains
  all-contains p [] a h c = absurd (ground arith)
  all-contains p (x ∷ xs) a h c = ground (arith, eq_iff x a, all-contains p xs a)

  pub all-of_contains :
      (p : A → Bool) (xs : List A) → ((a : A) → contains xs a ≡ true → p a ≡ true) → all p xs ≡ true
  unfolding contains
  all-of_contains p [] h = refl
  all-of_contains p (x ∷ xs) h =
      ground
        (arith, eq_iff x x, h x, all-of_contains p xs (λ a c. h a (ground (arith, eq_iff x a))))

  -- Two sets are equal exactly when they have the same members.
  pub set_eq-contains :
      (xs ys : List A) (a : A) → set_eq xs ys ≡ true → contains xs a ≡ contains ys a
  unfolding set_eq
  set_eq-contains xs ys a h =
      ground (arith, all-contains (contains ys) xs a, all-contains (contains xs) ys a)

  pub set_eq-of_contains :
      (xs ys : List A) → ((a : A) → contains xs a ≡ contains ys a) → set_eq xs ys ≡ true
  unfolding set_eq
  set_eq-of_contains xs ys h = ground (
    arith,
    all-of_contains (contains ys) xs (λ a c. ground (arith, h a)),
    all-of_contains (contains xs) ys (λ a c. ground (arith, h a)),
  )

-- Each element is in `Q` with its index.
unfoldable pub EachAt : {A : Type 0} → (ℕ → A → Type 0) → List A → Type 0
EachAt {A} Q xs = (j : ℕ) (a : A) → get_elem? xs j ≡ some a → Q j a

module _ {A : Type 0} where
  pub EachAt-nil : (Q : ℕ → A → Type 0) → EachAt Q []
  unfolding EachAt
  EachAt-nil Q j a e = cc

  pub EachAt-cons :
      (Q : ℕ → A → Type 0) (a : A) (xs : List A)
      → Q 0 a
      → EachAt (λ j. Q (suc j)) xs
      → EachAt Q (a ∷ xs)
  unfolding EachAt
  EachAt-cons Q a xs first rest zero b e = let same : a ≡ b = cc in subst (Q 0) same first
  EachAt-cons Q a xs first rest (suc j) b e = rest j b e

  pub EachAt-map :
      {Q R : ℕ → A → Type 0} (xs : List A)
      → ((j : ℕ) (a : A) → Q j a → R j a)
      → EachAt Q xs
      → EachAt R xs
  unfolding EachAt
  EachAt-map xs f h j a e = f j a (h j a e)
