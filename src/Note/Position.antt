-- ===== src/Note/Position.antt =====
-- The position of a commitment tree.
use native.Mathlib.Nat.{pow-succ', pow-le-pow_right}
use frost_tools.Prelude.{
  ℕ, ◌+◌, ◌*◌, ◌^◌, ◌≤◌, ◌≡◌, refl, Option, none, some, List, [], ◌∷◌, length, arith,
}
use frost_tools.Note.Tree.{Hasher, CTree, bit, parents_position, get_position}

module _ (H : Hasher) where
  -- One for a node that is there.
  abbrev pub present : Option H.Node → ℕ
  present none = 0
  present (some n) = 1

  -- The number of leaves: a tree beside a parent at index `i` has 2 ^ (i + 1) of them.
  abbrev pub leaves_below : ℕ → List (Option H.Node) → ℕ
  leaves_below width [] = 0
  leaves_below width (p ∷ ps) = width * present p + leaves_below (2 * width) ps

  abbrev pub leaf_count : CTree H → ℕ
  leaf_count t = leaves_below 2 t.parents + present t.left + present t.right

  bit_lem : (p : Option H.Node) → (bit H p ≡ present p) × (present p ≤ 1)
  bit_lem none = (refl, omega arith)
  bit_lem (some n) = (refl, omega arith)

  leaves_double :
      (width : ℕ) (ps : List (Option H.Node))
      → leaves_below (2 * width) ps ≡ 2 * leaves_below width ps
  leaves_double width [] = omega arith
  leaves_double width (none ∷ ps) = omega (arith, leaves_double (2 * width) ps)
  leaves_double width (some n ∷ ps) = omega (arith, leaves_double (2 * width) ps)

  leaves_bound : (ps : List (Option H.Node)) → leaves_below 2 ps + 2 ≤ 2 * 2 ^ length ps
  leaves_bound [] = omega arith
  leaves_bound (none ∷ ps) =
      omega (arith, leaves_double 2 ps, leaves_bound ps, pow-succ' 2 (length ps))
  leaves_bound (some n ∷ ps) =
      omega (arith, leaves_double 2 ps, leaves_bound ps, pow-succ' 2 (length ps))

  small_power : (n : ℕ) → n ≤ 62 → 2 ^ n ≤ 2 ^ 62
  small_power n h = pow-le-pow_right (omega arith) h

  parents_position_lem :
      (ps : List (Option H.Node)) → length ps ≤ 62 → parents_position H ps ≡ leaves_below 2 ps
  unfolding parents_position
  parents_position_lem [] h = omega arith
  parents_position_lem (none ∷ ps) h = omega (
    arith,
    parents_position_lem ps (omega arith),
    leaves_double 2 ps,
    leaves_bound ps,
    small_power (length ps) (omega arith),
  )
  parents_position_lem (some n ∷ ps) h = omega (
    arith,
    parents_position_lem ps (omega arith),
    leaves_double 2 ps,
    leaves_bound ps,
    small_power (length ps) (omega arith),
  )

  -- The position of a tree with at most 62 parents is the number of its leaves: it does not wrap around
  -- in 64 bits.
  pub get_position_lem : (t : CTree H) → length t.parents ≤ 62 → get_position H t ≡ leaf_count t
  unfolding get_position
  get_position_lem t h = omega (
    arith,
    parents_position_lem t.parents h,
    leaves_bound t.parents,
    small_power (length t.parents) h,
    (bit_lem t.left).0,
    (bit_lem t.left).1,
    (bit_lem t.right).0,
    (bit_lem t.right).1,
  )
