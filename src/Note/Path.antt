-- ===== src/Note/Path.antt =====
-- The authentication path of a witness.
use frost_tools.Prelude.{
  ℕ, zero, suc, ◌+◌, ◌-◌, ◌%◌, ◌≤◌, ◌<◌, ◌≡◌, ◌∙◌, refl, ap, inl, inr, Bool, true, false, Option,
  none, some, List, [], ◌∷◌, Outcome, ok, arith, length, Option-cases, get_elem?-lt,
}
use frost_tools.Note.Tree.{
  Hasher, NoError, CTree, Witness, Filler, index, or_uncommited, merge_parents, fill_levels, root,
  next_filler, path_from, auth_path, parent_at, tail,
}

module _ (H : Hasher) (roots : List H.Node) where
  open H use {Node, uncommited_node, node_combine}

  Returns : {A : Type 0} → Outcome NoError A → Type 0
  Returns {A} r = (a : A) × (r ≡ ok a)

  index-ok : (i : ℕ) → i < length roots → (n : Node) × (index H roots i ≡ ok n)
  unfolding index
  index-ok i h = let (n, e) = get_elem?-lt roots i h in (n, rw (e, index) refl)

  merge_parents-ok :
      (ps : List (Option Node)) (d : ℕ) (cur : Node)
      → d + length ps < length roots
      → d + length ps < 256
      → (n : Node) × (merge_parents H roots d cur ps ≡ ok (d + length ps, n))
  unfolding merge_parents
  merge_parents-ok [] d cur h b = (cur, ap (λ x. ok (x, cur)) (omega arith))
  merge_parents-ok (some l ∷ ps) d cur h b =
      let (n, e) = merge_parents-ok ps (suc d) (node_combine d l cur) (omega arith) (omega arith) in
      let next : (d + 1) % 256 ≡ suc d = omega arith in
      (n, rw next (e ∙ ap (λ x. ok (x, n)) (omega arith)))
  merge_parents-ok (none ∷ ps) d cur h b =
      let (r, er) = index-ok d (omega arith) in
      let (n, e) = merge_parents-ok ps (suc d) (node_combine d cur r) (omega arith) (omega arith) in
      let next : (d + 1) % 256 ≡ suc d = omega arith in
      (n, rw (er, next) (e ∙ ap (λ x. ok (x, n)) (omega arith)))

  fill_levels-ok :
      (n d : ℕ) (cur : Node)
      → n + d ≤ length roots
      → (r : Node) × (fill_levels H roots n d cur ≡ ok r)
  unfolding fill_levels
  fill_levels-ok zero d cur h = (cur, refl)
  fill_levels-ok (suc n) d cur h =
      let (e, ee) = index-ok d (omega arith) in
      let (r, er) = fill_levels-ok n (suc d) (node_combine (d % 256) cur e) (omega arith) in
      (r, rw ee er)

  root-ok :
      (height : ℕ) (t : CTree H)
      → height < length roots
      → length t.parents + 1 < length roots
      → length t.parents + 1 < 256
      → (r : Node) × (root H height roots t ≡ ok r)
  unfolding root
  root-ok height t h p b = elim (Option-cases t.left) [
    | inl empty ↦ let (r, er) = index-ok height h in (r, rw (empty, er) refl)
    | inr (l, el) ↦
        let (n, en) =
          merge_parents-ok t.parents 1 (node_combine 0 l (or_uncommited H t.right)) (omega arith)
            (omega arith) in
        let (r, er) =
          fill_levels-ok (height - (1 + length t.parents)) (1 + length t.parents) n (omega arith) in
        (r, rw (el, en) er)
  ]

  module _ (cursor : CTree H) (p : length cursor.parents + 1 < length roots)
      (b : length cursor.parents + 1 < 256) where
    next_filler-ok :
        (depth : ℕ) (f : Filler H)
        → depth < length roots
        → (n : Node) × (g : Filler H) × (next_filler H roots cursor depth f ≡ ok (n, g))
    unfolding next_filler
    next_filler-ok depth f h = at f.rest f.cursor_used
      where
        at :
            (rest : List Node) (used : Bool)
            → (n : Node) × (g : Filler H) × (next_filler H roots cursor depth
                  (record { rest = rest; cursor_used = used })
                ≡ ok (n, g))
        at (n ∷ ns) used = (n, record { rest = ns; cursor_used = used }, refl)
        at [] true =
            let (n, e) = index-ok depth h in
            (n, record { rest = []; cursor_used = true }, rw e refl)
        at [] false =
            let (n, e) = root-ok depth cursor h p b in
            (n, record { rest = []; cursor_used = true }, rw e refl)

    path_from-ok :
        (n i : ℕ) (ps : List (Option Node)) (f : Filler H)
        → n + i ≤ length roots
        → (path : List Node) × (path_from H roots cursor n i ps f ≡ ok path) × (length path ≡ n)
    unfolding path_from
    path_from-ok zero i ps f h = ([], refl, refl)
    path_from-ok (suc n) i ps f h = elim (Option-cases (parent_at H ps)) [
      | inl gap ↦
          let (node, g, e) = next_filler-ok i f (omega arith) in
          let (path, ep, len) = path_from-ok n (suc i) (tail H ps) g (omega arith) in
          (node ∷ path, rw (gap, e, ep) refl, ap suc len)
      | inr (node, there) ↦
          let (path, ep, len) = path_from-ok n (suc i) (tail H ps) f (omega arith) in
          (node ∷ path, rw (there, ep) refl, ap suc len)
    ]

  -- For a witness of a note, with an empty root for each level of the path, more roots than the
  -- cursor has levels, and fewer than 256 of these, `auth_path` returns one node for each level: it
  -- does not panic.
  pub auth_path_lem :
      (height : ℕ) (w : Witness H) (note : Node)
      → w.tree.left ≡ some note
      → length w.cursor.parents + 1 < length roots
      → length w.cursor.parents + 1 < 256
      → 1 ≤ height
      → height ≤ length roots
      → (path : List Node) × (auth_path H height roots w ≡ ok path) × (length path ≡ height)
  unfolding auth_path
  auth_path_lem height w note here p b low high = elim (Option-cases w.tree.right) [
    | inl single ↦
        let (n, g, e) =
          next_filler-ok w.cursor p b 0 (record { rest = w.filled; cursor_used = false })
            (omega arith) in
        let (path, ep, len) =
          path_from-ok w.cursor p b (height - 1) 1 w.tree.parents g (omega arith) in
        (n ∷ path, rw (here, single, e, ep) refl, ap suc len ∙ omega arith)
    | inr (r, pair) ↦
        let (path, ep, len) =
          path_from-ok w.cursor p b (height - 1) 1 w.tree.parents
            (record { rest = w.filled; cursor_used = false }) (omega arith) in
        (note ∷ path, rw (here, pair, ep) refl, ap suc len ∙ omega arith)
  ]
