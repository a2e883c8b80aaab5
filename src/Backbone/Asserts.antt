-- ===== src/Backbone/Asserts.antt =====
-- The assertions of `expandLeafBigNode` and `buildFromV` hold: the last child ends where its node does.
use sto_layout.Base.{
  ℕ, zero, suc, ◌+◌, ◌-◌, ◌≤◌, ◌≡◌, refl, true, List, some, arith, not, ◌==◌, ◌||◌, ==_self,
  Bool-cases, inl, inr,
}
use sto_layout.Backbone.{
  Layout, inner, Layouts, end, child, cut, construct_big_node, leaf_node, ends_ok, leaf_nodes,
  expand_leaf_big_node, over_treelets,
}
use sto_layout.Backbone.Search.{cut_mono}

-- The nodes of `leaf_nodes`, and the node that `expand_leaf_big_node` returns.
unfoldable pub leaf_layouts : List ℕ → ℕ → ℕ → ℕ → ℕ → Layouts
unfolding leaf_node
leaf_layouts v first len zero c = end
leaf_layouts v first len (suc n) c =
    let firstc = cut first len c in
    let lastc = cut first len (c + 1) in
    child (leaf_node v firstc (lastc - firstc)) (leaf_layouts v first len n (c + 1))

unfoldable pub expanded : List ℕ → ℕ → ℕ → Layout
unfolding construct_big_node leaf_layouts
expanded v first len = inner (construct_big_node v first len) (leaf_layouts v first len 16 0)

-- No assertion of the loops fails.
pub last_ends :
    (first len c : ℕ)
    → c + 1 ≤ 16
    → let firstc = cut first len c in
      (not (c == 15) || firstc + (cut first len (c + 1) - firstc) == first + len) ≡ true
last_ends first len c few = elim (Bool-cases (c == 15)) [
  | inl e ↦
      let at : c ≡ 15 = ground (arith, e) in
      let ends : cut first len c + (cut first len (c + 1) - cut first len c) ≡ first + len =
        rw at (omega arith) in
      rw (e, ends) (==_self (first + len))
  | inr e ↦ rw e refl
]

ends_ok_lem : (first len c : ℕ) → c + 1 ≤ 16 → ends_ok first len c ≡ true
unfolding ends_ok
ends_ok_lem first len c few =
    let firstc = cut first len c in
    let lastc = cut first len (c + 1) in
    let le = cut_mono first len c (c + 1) (omega arith) in
    let last : cut firstc (lastc - firstc) 16 ≡ lastc = omega (arith, le) in
    let back : firstc + (lastc - firstc) ≡ lastc = omega (arith, le) in
    rw (last, ==_self lastc) (rw back at (last_ends first len c few))

leaf_nodes_lem :
    (v : List ℕ) (first len n c : ℕ)
    → c + n ≤ 16
    → leaf_nodes v first len n c ≡ some (leaf_layouts v first len n c)
unfolding leaf_nodes leaf_layouts
leaf_nodes_lem v first len zero c few = refl
leaf_nodes_lem v first len (suc n) c few =
    rw
      (
        ends_ok_lem first len c (omega (arith, few)),
        leaf_nodes_lem v first len n (c + 1) (omega (arith, few)),
      )
      refl

pub expand_leaf_big_node_lem :
    (next : Layouts) (v : List ℕ) (first len : ℕ)
    → over_treelets next ≡ true
    → expand_leaf_big_node next v first len ≡ some (expanded v first len)
unfolding expand_leaf_big_node expanded
expand_leaf_big_node_lem next v first len e =
    rw (e, leaf_nodes_lem v first len 16 0 (omega arith)) refl
