-- ===== src/Note/Examples.antt =====
-- A toy hasher, and the theorems about the tree at it.
use frost_tools.Prelude.{ℕ, ◌+◌, ◌*◌, ◌≡◌, none, some, ok, arith, [], ◌∷◌}
use frost_tools.Note.Tree.{Hasher, root, empty_roots, Witness}
use frost_tools.Note.Tree.{get_position}
use frost_tools.Note.Position.{get_position_lem, leaf_count}
use frost_tools.Note.Merkle.{root_lem, merkle, whole_tree, ctree}

abbrev toy : Hasher
toy = record { Node = ℕ; uncommited_node = 2; node_combine = λ depth a b. depth + 3 * a + b }

root_lem_example :
    root toy 4 (empty_roots toy 4) (ctree toy 2 5 (some 6) (none, (some ((7, 8), (9, 10)), tt)))
    ≡ ok (merkle toy 4 (whole_tree toy 2 1 5 (some 6) (none, (some ((7, 8), (9, 10)), tt))))
root_lem_example = root_lem toy 2 1 5 (some 6) (none, (some ((7, 8), (9, 10)), tt)) (omega arith)

abbrev witness : Witness toy
witness = record {
  position = 2;
  tree = record { left = some 5; right = none; parents = some 7 ∷ [] };
  filled = 8 ∷ [];
  cursor = record { left = some 9; right = none; parents = [] };
  id_note = 1;
  cmx = [];
}

get_position_lem_example : get_position toy witness.tree ≡ leaf_count toy witness.tree
get_position_lem_example = get_position_lem toy witness.tree (omega arith)
