-- ===== src/Prelude/Maps.antt =====
-- `HashMap` and `BTreeMap` as association lists with one entry for each key.
use Prim.Native.Nat.{suc}
use mathlib.Core.Path.{◌≡◌, refl}
use mathlib.Core.Bool.{Bool}
use mathlib.Core.List.{List, [], ◌∷◌}
use mathlib.Core.Option.{Option, none, some}
use native.Mathlib.Omega.{arith}
use frost_tools.Prelude.Tests.{if◌then◌else◌}
use frost_tools.Prelude.Classes.{PartialEq, ◌==◌, eq_iff}
use frost_tools.Prelude.Lists.{length, is_some, contains}

abbrev pub Map {ℓ κ} : Type ℓ → Type κ → Type (ℓ ⊔ κ)
Map K V = List (K × V)

module _ {ℓ κ} {K : Type ℓ} {V : Type κ} where
  abbrev pub keys : Map K V → List K
  keys [] = []
  keys ((k, v) ∷ m) = k ∷ keys m

  abbrev pub values : Map K V → List V
  values [] = []
  values ((k, v) ∷ m) = v ∷ values m

module _ {ℓ κ} {K : Type ℓ} {V : Type κ} ⦃e : PartialEq K⦄ where
  unfoldable pub get : Map K V → K → Option V
  get [] k = none
  get ((j, v) ∷ m) k = if j == k then some v else get m k

  unfoldable pub insert : K → V → Map K V → Map K V
  insert k v [] = (k, v) ∷ []
  insert k v ((j, w) ∷ m) = let rest = insert k v m in if j == k then (k, v) ∷ m else (j, w) ∷ rest

  unfoldable pub contains_key : Map K V → K → Bool
  contains_key m k = is_some (get m k)

  pub get-insert :
      (key at : K) (new : V) (m : Map K V)
      → get (insert key new m) at ≡ (if key == at then some new else get m at)
  unfolding get insert
  get-insert key at new [] = refl
  get-insert key at new ((head, old) ∷ rest) =
      ground (arith, get-insert key at new rest, eq_iff head key, eq_iff head at, eq_iff key at)

  pub contains-keys : (m : Map K V) (k : K) → contains (keys m) k ≡ is_some (get m k)
  unfolding get contains
  contains-keys [] k = refl
  contains-keys ((j, v) ∷ m) k = ground (arith, contains-keys m k)

  pub length-insert :
      (k : K) (v : V) (m : Map K V)
      → length (insert k v m) ≡ (if is_some (get m k) then length m else suc (length m))
  unfolding get insert
  length-insert k v [] = refl
  length-insert k v ((j, w) ∷ m) = ground (arith, length-insert k v m)
