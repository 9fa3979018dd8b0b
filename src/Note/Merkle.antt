-- ===== src/Note/Merkle.antt =====
-- The root of a commitment tree is the Merkle root of all its leaves.
use frost_tools.Prelude.{
  ℕ, zero, suc, ◌+◌, ◌-◌, ◌%◌, ◌≤◌, ◌≡◌, ◌∙◌, refl, ap, Option, none, some, List, [], ◌∷◌, ok,
  arith, get_elem?,
}
use frost_tools.Note.Tree.{
  Hasher, CTree, new, index, or_uncommited, merge_parents, fill_levels, root, roots_from,
  empty_roots,
}

module _ (H : Hasher) where
  open H use {Node, uncommited_node, node_combine}

  -- A full binary tree with leaves at depth `d`, and its Merkle root.
  abbrev pub Perfect : ℕ → Type 0
  Perfect zero = Node
  Perfect (suc d) = Perfect d × Perfect d

  abbrev pub merkle : (d : ℕ) → Perfect d → Node
  merkle zero n = n
  merkle (suc d) t = node_combine d (merkle d t.0) (merkle d t.1)

  abbrev pub empty_tree : (d : ℕ) → Perfect d
  empty_tree zero = uncommited_node
  empty_tree (suc d) = (empty_tree d, empty_tree d)

  abbrev pub empty_root : ℕ → Node
  empty_root d = merkle d (empty_tree d)

  -- `m` levels above `d`.
  abbrev pub level : ℕ → ℕ → ℕ
  level d zero = d
  level d (suc m) = level (suc d) m

  level_eq : (d m : ℕ) → level d m ≡ d + m
  level_eq d zero = omega arith
  level_eq d (suc m) = level_eq (suc d) m ∙ omega arith

  -- The complete trees that stand to the left of a path of `m` levels from `d` up, where there are any.
  abbrev pub Siblings : ℕ → ℕ → Type 0
  Siblings d zero = Unit
  Siblings d (suc m) = Option (Perfect d) × Siblings (suc d) m

  abbrev pub no_siblings : (d m : ℕ) → Siblings d m
  no_siblings d zero = tt
  no_siblings d (suc m) = (none, no_siblings (suc d) m)

  abbrev pub root_of : (d : ℕ) → Option (Perfect d) → Option Node
  root_of d none = none
  root_of d (some t) = some (merkle d t)

  abbrev pub parents_of : (d m : ℕ) → Siblings d m → List (Option Node)
  parents_of d zero s = []
  parents_of d (suc m) s = root_of d s.0 ∷ parents_of (suc d) m s.1

  abbrev pub beside : (d : ℕ) → Option (Perfect d) → Perfect d → Perfect (suc d)
  beside d none t = (t, empty_tree d)
  beside d (some l) t = (l, t)

  -- The whole tree: at each level a complete tree to the left, or an empty one to the right.
  abbrev pub whole : (d m : ℕ) → Perfect d → Siblings d m → Perfect (level d m)
  whole d zero t s = t
  whole d (suc m) t s = whole (suc d) m (beside d s.0 t) s.1

  roots_from_lem :
      (n d i : ℕ)
      → i ≤ n
      → d + n ≤ 256
      → get_elem? (roots_from H n d (empty_root d)) i ≡ some (empty_root (d + i))
  unfolding roots_from
  roots_from_lem zero d zero h b = ap (λ x. some (empty_root x)) (omega arith)
  roots_from_lem zero d (suc i) h b = absurd (omega arith)
  roots_from_lem (suc n) d zero h b = ap (λ x. some (empty_root x)) (omega arith)
  roots_from_lem (suc n) d (suc i) h b =
      let small : d % 256 ≡ d = omega arith in
      rw small (
        roots_from_lem n (suc d) i (omega arith) (omega arith)
        ∙ ap (λ x. some (empty_root x)) (omega arith))

  -- The roots computed for the empty trees are their Merkle roots, at every depth that a `u8` holds.
  pub empty_roots_lem :
      (height d : ℕ)
      → height ≤ 256
      → d ≤ height
      → get_elem? (empty_roots H height) d ≡ some (empty_root d)
  unfolding empty_roots
  empty_roots_lem height d b h =
      roots_from_lem height 0 d h (omega arith) ∙ ap (λ x. some (empty_root x)) (omega arith)

  index_lem :
      (height d : ℕ)
      → height ≤ 256
      → d ≤ height
      → index H (empty_roots H height) d ≡ ok (empty_root d)
  unfolding index
  index_lem height d b h = rw (empty_roots_lem height d b h, index) refl

  module _ (height : ℕ) (small : height ≤ 255) where
    merge_parents_lem :
        (d m : ℕ) (t : Perfect d) (s : Siblings d m)
        → level d m ≤ height
        → merge_parents H (empty_roots H height) d (merkle d t) (parents_of d m s)
          ≡ ok (level d m, merkle (level d m) (whole d m t s))
    unfolding merge_parents
    merge_parents_lem d zero t s h = refl
    merge_parents_lem d (suc m) t (none, s) h =
        let above = level_eq (suc d) m in
        let next : (d + 1) % 256 ≡ suc d = omega arith in
        rw (index_lem height d (omega arith) (omega arith), next)
          (merge_parents_lem (suc d) m (t, empty_tree d) s h)
    merge_parents_lem d (suc m) t (some l, s) h =
        let above = level_eq (suc d) m in
        let next : (d + 1) % 256 ≡ suc d = omega arith in
        rw next (merge_parents_lem (suc d) m (l, t) s h)

    fill_levels_lem :
        (n d : ℕ) (t : Perfect d)
        → level d n ≤ height
        → fill_levels H (empty_roots H height) n d (merkle d t)
          ≡ ok (merkle (level d n) (whole d n t (no_siblings d n)))
    unfolding fill_levels
    fill_levels_lem zero d t h = refl
    fill_levels_lem (suc n) d t h =
        let above = level_eq (suc d) n in
        let same : d % 256 ≡ d = omega arith in
        rw (index_lem height d (omega arith) (omega arith), same)
          (fill_levels_lem n (suc d) (t, empty_tree d) h)

  -- A leaf that may not be there yet.
  abbrev pub leaf : Option Node → Node
  leaf none = uncommited_node
  leaf (some n) = n

  or_uncommited_lem : (r : Option Node) → or_uncommited H r ≡ leaf r
  unfolding or_uncommited
  or_uncommited_lem none = refl
  or_uncommited_lem (some n) = refl

  -- The tree that a `CTree` stands for: its last two leaves, the complete trees that its parents are
  -- the roots of, and then empty leaves up to `n` more levels.
  abbrev pub whole_tree :
      (m n : ℕ) (l : Node) (r : Option Node) (s : Siblings 1 m) → Perfect (level (level 1 m) n)
  whole_tree m n l r s = whole (level 1 m) n (whole 1 m (l, leaf r) s) (no_siblings (level 1 m) n)

  abbrev pub ctree : (m : ℕ) (l : Node) (r : Option Node) (s : Siblings 1 m) → CTree H
  ctree m l r s = record { left = some l; right = r; parents = parents_of 1 m s }

  -- A `CTree` with a left leaf, whose parents are each none or the Merkle root of a complete tree, has
  -- at a height of at most 255 the Merkle root of the whole tree that it stands for, filled with empty
  -- leaves; and nothing panics.
  pub root_lem :
      (m n : ℕ) (l : Node) (r : Option Node) (s : Siblings 1 m)
      → level (level 1 m) n ≤ 255
      → let height = level (level 1 m) n in
        root H height (empty_roots H height) (ctree m l r s)
        ≡ ok (merkle height (whole_tree m n l r s))
  unfolding root
  root_lem m n l r s small =
      let height = level (level 1 m) n in
      let above : height ≡ level 1 m + n = level_eq (level 1 m) n in
      let missing : height - level 1 m ≡ n = omega arith in
      rw
        (
          or_uncommited_lem r,
          merge_parents_lem height small 1 m (l, leaf r) s (omega arith),
          missing,
        )
        (fill_levels_lem height small n (level 1 m) (whole 1 m (l, leaf r) s) (omega arith))

  -- The root of a new `CTree` is that of the tree with empty leaves only.
  pub root-new :
      (height : ℕ)
      → height ≤ 256
      → root H height (empty_roots H height) (new H) ≡ ok (empty_root height)
  unfolding root new
  root-new height b = index_lem height height b (omega arith)
