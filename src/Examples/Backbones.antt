-- ===== src/Examples/Backbones.antt =====
-- Layout trees.
use sto_layout.Base.{zero, suc, ◌-◌, [], ◌∷◌, get_or, arith}
use sto_layout.Tree.Build.{Grows}
use sto_layout.Treelet.Range.{Proper}
use sto_layout.Backbone.{Layout, asm_search, construct_big_node}
use sto_layout.Backbone.Search.{Routes, asm_search-Routes}
use sto_layout.Backbone.Asserts.{expanded}

two-Grows : Grows (2 ∷ 5 ∷ []) 0 2
two-Grows zero zero low lt high = omega arith
two-Grows zero (suc zero) low lt high = omega arith
two-Grows zero (suc (suc j)) low lt high = omega arith
two-Grows (suc i) j low lt high = omega arith

two-Proper : Proper (2 ∷ 5 ∷ []) 0 2
two-Proper zero low high = omega arith
two-Proper (suc zero) low high = omega arith
two-Proper (suc (suc i)) low high = omega arith

asm_search-Routes_example :
    Routes 0 2 1 (asm_search (get_or (2 ∷ 5 ∷ []) 1 0) (construct_big_node (2 ∷ 5 ∷ []) 0 2) - 16)
asm_search-Routes_example =
    asm_search-Routes (2 ∷ 5 ∷ []) 0 2 1 (omega arith) (omega arith) two-Grows two-Proper

-- A node over 16 nodes over 16 treelets each.
abbrev deep : Layout
deep = expanded (2 ∷ 5 ∷ []) 0 2
