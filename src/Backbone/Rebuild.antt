-- ===== src/Backbone/Rebuild.antt =====
-- A rebuilt node finds exactly the items of its range.
use sto_layout.Base.{
  ℕ, zero, suc, ◌+◌, ◌-◌, ◌<◌, ◌≤◌, ◌≡◌, refl, List, Option, some, arith, ◌∙◌, ap,
}
use native.Mathlib.Nat.{zero-add}
use sto_layout.Tree.Build.{slice, Grows}
use sto_layout.Treelet.Range.{Proper}
use sto_layout.Backbone.{
  Layout, leaf, inner, Layouts, end, child, locate, locate_at, cut, asm_search, construct_big_node,
  build_from_v, build_children,
}
use sto_layout.Backbone.Search.{cut_le, cut_mono}
use sto_layout.Backbone.Items.{
  elem, items, all_items, contains, in_treelet, Uniform, AllUniform, count,
}
use sto_layout.Backbone.Asserts.{expanded, expand_leaf_big_node_lem, last_ends}
use sto_layout.Backbone.Parts.{
  asm_search-lt, elem-child, contains-expanded, over_treelets-zero, over_treelets-suc,
  expanded-Uniform, slice_join, slice_whole, all_items-leaf_layouts,
}

-- A rebuilt tree: it is there, is one level deeper, has the items of its range in their order, and finds
-- exactly these.
pub record Rebuilds (d : ℕ) (v : List ℕ) (first len : ℕ) (r : Option Layout) : Type 0 where
  pub tree : Layout
  pub returned : r ≡ some tree
  pub uniform : Uniform (suc d) tree
  pub same : items tree ≡ slice v first len
  pub finds : (key : ℕ) → contains key tree ≡ elem key (slice v first len)

-- The children of a rebuilt node, from the child `c` on.
record RebuildsAll (d : ℕ) (v : List ℕ) (first len n c : ℕ) (r : Option Layouts) : Type 0 where
  trees : Layouts
  returned : r ≡ some trees
  number : count trees ≡ n
  uniform : AllUniform (suc d) trees
  same : all_items trees ≡ slice v (cut first len c) (cut first len (c + n) - cut first len c)
  finds :
      (key i : ℕ)
      → i < n
      → in_treelet key (locate_at key trees i)
        ≡ elem key
            (slice v (cut first len (c + i)) (cut first len (c + i + 1) - cut first len (c + i)))

mutual
  unfolding build_from_v build_children Uniform AllUniform contains locate locate_at items all_items
      expanded

  pub build_from_v-Rebuilds :
      (d : ℕ) (t : Layout) (v : List ℕ) (first len : ℕ)
      → Uniform (suc d) t
      → Grows v 0 (first + len)
      → Proper v 0 (first + len)
      → Rebuilds (suc d) v first len (build_from_v t v first len)
  build_from_v-Rebuilds d (leaf t) v first len u grows proper = absurd u
  build_from_v-Rebuilds zero (inner ks ts) v first len u grows proper =
      rw (over_treelets-zero ts u.0 u.1) (record {
        tree = expanded v first len;
        returned = expand_leaf_big_node_lem ts v first len (over_treelets-zero ts u.0 u.1);
        uniform = expanded-Uniform v first len;
        same =
            all_items-leaf_layouts v first len 16 0 (omega arith) proper ∙ slice_whole v first len;
        finds = λ key. contains-expanded key v first len grows proper;
      })
  build_from_v-Rebuilds (suc d) (inner ks ts) v first len u grows proper =
      let r = build_children-RebuildsAll d ts v first len 0 u.1 (omega (arith, u.0)) grows proper in
      rw (over_treelets-suc d ts u.0 u.1, r.returned)
        (record {
          tree = inner (construct_big_node v first len) r.trees;
          returned = refl;
          uniform = (r.number ∙ u.0, r.uniform);
          same = rw u.0 at r.same ∙ slice_whole v first len;
          finds = λ key.
              let c = asm_search key (construct_big_node v first len) - 16 in
              rw (zero-add c) at (r.finds key c (omega (arith, u.0, asm_search-lt key v first len)))
              ∙ elem-child key v first len grows proper;
        })

  build_children-RebuildsAll :
      (d : ℕ) (ts : Layouts) (v : List ℕ) (first len c : ℕ)
      → AllUniform (suc d) ts
      → c + count ts ≤ 16
      → Grows v 0 (first + len)
      → Proper v 0 (first + len)
      → RebuildsAll (suc d) v first len (count ts) c (build_children ts v first len c)
  build_children-RebuildsAll d end v first len c u few grows proper = record {
    trees = end;
    returned = refl;
    number = refl;
    uniform = tt;
    same =
        let e : cut first len (c + 0) - cut first len c ≡ 0 =
          let z : c + 0 ≡ c = omega arith in rw z (omega arith) in
        rw e;
    finds = λ key i h. absurd (omega arith);
  }
  build_children-RebuildsAll d (child t ts) v first len c u few grows proper =
      let firstc = cut first len c in
      let lastc = cut first len (c + 1) in
      let fits = cut_le first len (c + 1) (omega arith) in
      let grow = cut_mono first len c (c + 1) (omega arith) in
      let this =
        build_from_v-Rebuilds d t v firstc (lastc - firstc) u.0
          (λ i j low lt high. grows i j low lt (omega arith))
          (λ i low high. proper i low (omega arith)) in
      let rest =
        build_children-RebuildsAll d ts v first len (c + 1) u.1 (omega arith) grows proper in
      rw (this.returned, rest.returned, last_ends first len c (omega (arith, few)))
        (record {
          trees = child this.tree rest.trees;
          returned = refl;
          number = ap suc rest.number;
          uniform = (this.uniform, rest.uniform);
          same =
              let e : c + suc (count ts) ≡ c + 1 + count ts = omega arith in
              rw (this.same, rest.same, e)
                (slice_join v firstc lastc (cut first len (c + 1 + count ts)) grow
                  (cut_mono first len (c + 1) (c + 1 + count ts) (omega arith)));
          finds = λ key. elim [
            | zero ↦ λ h. let e : c + 0 ≡ c = omega arith in rw e (this.finds key)
            | suc i ↦ λ h.
                let e : c + suc i ≡ c + 1 + i = omega arith in rw e (rest.finds key i (omega arith))
          ];
        })
