-- ===== src/Examples/Trees.antt =====
-- Search trees and treelets.
use sto_layout.Base.{
  zero, suc, ◌+◌, ◌^◌, ◌≤◌, ◌≡◌, ◌⊎◌, refl, true, some, none, [], ◌∷◌, ◌++◌, length, arith,
}
use sto_layout.Tree
use sto_layout.Tree.{Tree, nil, node, Entry}
use sto_layout.Tree.Spec.{IsSearchTree, IsAbove, IsBelow, member}
use sto_layout.Tree.Insert.{Inserts, insert-Inserts, insert_gt_ln-insert}
use sto_layout.Tree.Remove.{Removes, remove-Removes, Detaches, remove_min_lem}
use sto_layout.Tree.Build.{height, height-build_range-le, build_level-IsSearchTree, slice}
use sto_layout.Treelet
use sto_layout.Treelet.{Treelet}
use sto_layout.Treelet.Spec.{IsValid, as_tree, items, search-member_treelet, add_items-size}
use sto_layout.Treelet.Insert.{insert-Inserts_treelet}
use sto_layout.Treelet.Remove.{remove-Removes_treelet}
use sto_layout.Treelet.Range.{Proper, items-from_range}

abbrev three : Tree
three = node 5 0 (node 2 0 nil nil) (node 9 0 (node 7 0 nil nil) nil)

remove_runs : Tree.remove 5 three ≡ (node 7 0 (node 2 0 nil nil) (node 9 0 nil nil), true)
unfolding Tree.remove
remove_runs = refl

insert-Inserts_example : Inserts 6 three (Tree.insert 6 three)
insert-Inserts_example = insert-Inserts 6 three (omega arith)

insert_gt_ln-insert_case :
    ((Tree.insert_gt_ln 6 three 0).0 ≡ (Tree.insert 6 three).0)
    × ((Tree.insert_gt_ln 6 three 0).1 ≡ (Tree.insert 6 three).1)
    × (0 ≤ (Tree.insert_gt_ln 6 three 0).2)
insert_gt_ln-insert_case = insert_gt_ln-insert 6 three 0

remove-Removes_example : Removes 5 three (Tree.remove 5 three)
remove-Removes_example = remove-Removes 5 three (omega arith)

remove_min_lem_case :
    ((three ≡ nil) × (Tree.remove_min three ≡ none))
    ⊎ ((p : Entry × Tree) × (Tree.remove_min three ≡ some p) × Detaches three p)
remove_min_lem_case = remove_min_lem three (omega arith)

height-build_range-le_case : height (Tree.build_range 7 (1 ∷ 2 ∷ 3 ∷ 4 ∷ 5 ∷ 6 ∷ 7 ∷ []) 0 7) ≤ 3
height-build_range-le_case =
    height-build_range-le 3 7 (1 ∷ 2 ∷ 3 ∷ 4 ∷ 5 ∷ 6 ∷ 7 ∷ []) 0 7 (omega arith)

build_level-IsSearchTree_case :
    IsSearchTree (Tree.build_level 4 100)
    × IsAbove 100 (Tree.build_level 4 100)
    × IsBelow (100 + 2 ^ 5) (Tree.build_level 4 100)
    × (Tree.size (Tree.build_level 4 100) + 1 ≡ 2 ^ 4)
build_level-IsSearchTree_case = build_level-IsSearchTree 4 100 (omega arith)

two-Proper : Proper (2 ∷ 5 ∷ []) 0 2
two-Proper zero low high = omega arith
two-Proper (suc zero) low high = omega arith
two-Proper (suc (suc i)) low high = omega arith

abbrev few : Treelet
few = record { lock = Treelet.locked; key = 5; obj = 0; left = node 2 0 nil nil; right = nil }

few-IsValid : IsValid few
few-IsValid = record {
  ordered = omega arith;
  positive = omega arith;
  empty_left = λ z. absurd (omega arith);
  empty_right = λ z. refl;
}

items-from_range_example : items (Treelet.from_range (2 ∷ 5 ∷ []) 0 2) ≡ slice (2 ∷ 5 ∷ []) 0 2
items-from_range_example = items-from_range (2 ∷ 5 ∷ []) 0 2 two-Proper

search-member_treelet_case :
    Treelet.search 2 few ≡ (record few { lock = Treelet.unlocked }, member 2 (as_tree few))
search-member_treelet_case = search-member_treelet 2 few (omega arith) few-IsValid

insert-Inserts_treelet_example : Treelet.Insert.Inserts 3 few (Treelet.insert 3 few)
insert-Inserts_treelet_example = insert-Inserts_treelet 3 few (omega arith) few-IsValid

remove-Removes_treelet_example : Treelet.Remove.Removes 5 few (Treelet.remove 5 few)
remove-Removes_treelet_example = remove-Removes_treelet 5 few (omega arith) few-IsValid

add_items-size_case :
    (Treelet.add_items few (1 ∷ []) ≡ ((1 ∷ []) ++ items few, Treelet.size few))
    × (Treelet.size few ≡ length (items few))
add_items-size_case = add_items-size few (1 ∷ [])

-- The key 0 stands for an empty treelet, so an empty treelet finds it.
search_zero : (Treelet.search 0 Treelet.new).1 ≡ true
unfolding Treelet.search Treelet.new
search_zero = refl
