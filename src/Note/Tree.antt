-- ===== src/Note/Tree.antt =====
-- `CTree` and `Witness`, over any hasher.
use frost_tools.Prelude.{
  ℕ, zero, suc, ◌+◌, ◌-◌, ◌*◌, ◌%◌, ◌^◌, Bool, true, false, Option, none, some, List, [], ◌∷◌,
  Outcome, ok, panic, bind, is_some, get_elem?, if◌then◌else◌,
}

-- The trait `Hasher`, of which these methods are used: any implementation is a parameter.
pub record Hasher : Type 1 where
  pub Node : Type 0
  pub uncommited_node : Node
  pub node_combine : ℕ → Node → Node → Node

-- The functions have no errors: they return or panic.
pub data NoError : Type 0 where

module _ (H : Hasher) where
  open H use {Node, uncommited_node, node_combine}

  pub record CTree : Type 0 where
    pub left : Option Node
    pub right : Option Node
    pub parents : List (Option Node)

  unfoldable pub new : CTree
  new = record { left = none; right = none; parents = [] }

  abbrev pub bit : Option Node → ℕ
  bit o = if is_some o then 1 else 0

  -- The loop over the parents, from the last one on.
  unfoldable pub parents_position : List (Option Node) → ℕ
  parents_position [] = 0
  parents_position (p ∷ ps) = ((parents_position ps + bit p) % 2 ^ 64 * 2) % 2 ^ 64

  unfoldable pub get_position : CTree → ℕ
  unfolding parents_position
  get_position t = (parents_position t.parents + bit t.left + bit t.right) % 2 ^ 64

  -- `empty_roots[i]`, a panic out of bounds.
  unfoldable pub index : List Node → ℕ → Outcome NoError Node
  index roots i = elim (get_elem? roots i) [ none ↦ panic | some n ↦ ok n ]

  unfoldable pub or_uncommited : Option Node → Node
  or_uncommited none = uncommited_node
  or_uncommited (some n) = n

  -- The loop over the parents: the depth, a `u8`, and the node reached.
  unfoldable pub merge_parents :
      List Node → ℕ → Node → List (Option Node) → Outcome NoError (ℕ × Node)
  merge_parents roots depth cur [] = ok (depth, cur)
  merge_parents roots depth cur (some l ∷ ps) =
      merge_parents roots ((depth + 1) % 256) (node_combine depth l cur) ps
  merge_parents roots depth cur (none ∷ ps) =
      bind (index roots depth)
        (λ e. merge_parents roots ((depth + 1) % 256) (node_combine depth cur e) ps)

  -- The loop over the `n` missing levels from `d` on.
  unfoldable pub fill_levels : List Node → ℕ → ℕ → Node → Outcome NoError Node
  fill_levels roots zero d cur = ok cur
  fill_levels roots (suc n) d cur =
      bind (index roots d) (λ e. fill_levels roots n (suc d) (node_combine (d % 256) cur e))

  unfoldable pub root : ℕ → List Node → CTree → Outcome NoError Node
  unfolding merge_parents fill_levels or_uncommited
  root height roots t = elim t.left [
    | none ↦ index roots height
    | some left ↦
        bind (merge_parents roots 1 (node_combine 0 left (or_uncommited t.right)) t.parents)
          (λ r. fill_levels roots (height - r.0) r.0 r.1)
  ]

  -- The loop of `empty_roots`, `n` rounds from `depth` on.
  unfoldable pub roots_from : ℕ → ℕ → Node → List Node
  roots_from zero depth cur = cur ∷ []
  roots_from (suc n) depth cur = cur ∷ roots_from n (suc depth) (node_combine (depth % 256) cur cur)

  unfoldable pub empty_roots : ℕ → List Node
  empty_roots height = roots_from height 0 uncommited_node

  pub record Witness : Type 0 where
    pub position : ℕ
    pub tree : CTree
    pub filled : List Node
    pub cursor : CTree
    pub id_note : ℕ
    pub cmx : List ℕ

  -- What the closure `next_filler` has: the filled nodes that are left, and whether the cursor is used.
  pub record Filler : Type 0 where
    pub rest : List Node
    pub cursor_used : Bool

  unfoldable pub next_filler : List Node → CTree → ℕ → Filler → Outcome NoError (Node × Filler)
  next_filler roots cursor depth f = elim f.rest [
    | n ∷ ns ↦ ok (n, record f { rest = ns })
    | [] ↦
        if f.cursor_used
        then bind (index roots depth) (λ n. ok (n, f))
        else bind (root depth roots cursor) (λ n. ok (n, record f { cursor_used = true }))
  ]

  -- The parent at a level of the tree, none beyond the last.
  abbrev pub parent_at : List (Option Node) → Option Node
  parent_at [] = none
  parent_at (p ∷ ps) = p

  abbrev pub tail : List (Option Node) → List (Option Node)
  tail [] = []
  tail (p ∷ ps) = ps

  -- The loop over the levels `i`, …, `i + n - 1`, with the parents from level `i` on.
  unfoldable pub path_from :
      List Node → CTree → ℕ → ℕ → List (Option Node) → Filler → Outcome NoError (List Node)
  path_from roots cursor zero i ps f = ok []
  path_from roots cursor (suc n) i ps f =
      bind (elim (parent_at ps) [ some node ↦ ok (node, f) | none ↦ next_filler roots cursor i f ])
        (λ step.
          bind (path_from roots cursor n (suc i) (tail ps) step.1) (λ rest. ok (step.0 ∷ rest)))

  unfoldable pub auth_path : ℕ → List Node → Witness → Outcome NoError (List Node)
  unfolding next_filler path_from
  auth_path height roots w =
      let f : Filler = record { rest = w.filled; cursor_used = false } in
      let upper = λ (g : Filler). path_from roots w.cursor (height - 1) 1 w.tree.parents g in
      elim w.tree.left [
        | none ↦ upper f
        | some left ↦ elim w.tree.right [
          | some right ↦ bind (upper f) (λ path. ok (left ∷ path))
          | none ↦
              bind (next_filler roots w.cursor 0 f)
                (λ step. bind (upper step.1) (λ path. ok (step.0 ∷ path)))
        ]
      ]
