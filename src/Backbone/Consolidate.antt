-- ===== src/Backbone/Consolidate.antt =====
-- `consolidateAllOptimal` rebuilds the layout and keeps what the tree holds.
use sto_layout.Base.{
  ℕ, zero, suc, ◌+◌, ◌≡◌, refl, List, ◌++◌, Option, some, ◌∙◌, ap, append_assoc, append-nil, length,
  length-append,
}
use sto_layout.Treelet
use sto_layout.Treelet.Spec.{add_items-size}
use sto_layout.Backbone.{
  Layout, leaf, inner, Layouts, end, child, gather_all, gather_treelets, gather_children,
}
use sto_layout.Backbone.Items.{elem, items, all_items, count, Uniform, AllUniform, contains}
use sto_layout.Backbone.Parts.{over_treelets-zero, over_treelets-suc}

-- What `gatherAll` returns: the items appended to the vector, their number, and a tree of the same shape.
record Gathers (d : ℕ) (t : Layout) (v : List ℕ) (r : Option (Layout × List ℕ × ℕ)) : Type 0 where
  tree : Layout
  returned : r ≡ some (tree, v ++ items t, length (items t))
  uniform : Uniform d tree

record GathersAll (d : ℕ) (ts : Layouts) (v : List ℕ) (r : Option (Layouts × List ℕ × ℕ))
    : Type 0 where
  trees : Layouts
  returned : r ≡ some (trees, v ++ all_items ts, length (all_items ts))
  uniform : AllUniform d trees
  width : count trees ≡ count ts

abbrev gathered : Layouts → List ℕ → ℕ → Option (Layouts × List ℕ × ℕ)
gathered us w n = some (us, w, n)

-- The vector and the number for the first child and the others.
joined :
    (us : Layouts) (v xs ys : List ℕ)
    → gathered us ((v ++ xs) ++ ys) (length xs + length ys)
      ≡ gathered us (v ++ (xs ++ ys)) (length (xs ++ ys))
joined us v xs ys = rw (append_assoc v xs ys, length-append {0} xs ys) refl

gather_treelets-GathersAll :
    (ts : Layouts) (v : List ℕ) → AllUniform 0 ts → GathersAll 0 ts v (gather_treelets ts v)
unfolding gather_treelets items all_items AllUniform Uniform
gather_treelets-GathersAll end v u = record {
  trees = end;
  returned = rw append-nil refl;
  uniform = tt;
  width = refl;
}
gather_treelets-GathersAll (child (inner ks next) ts) v u = absurd u.0
gather_treelets-GathersAll (child (leaf t) ts) v u =
    let add = add_items-size t v in
    let rest = gather_treelets-GathersAll ts (v ++ items (leaf t)) u.1 in
    rw (add.0, add.1, rest.returned)
      (record {
        trees = child (leaf Treelet.new) rest.trees;
        returned = joined (child (leaf Treelet.new) rest.trees) v (items (leaf t)) (all_items ts);
        uniform = (tt, rest.uniform);
        width = ap suc rest.width;
      })

mutual
  unfolding gather_all gather_children items all_items Uniform AllUniform

  gather_all-Gathers :
      (t : Layout) (d : ℕ) (v : List ℕ) → Uniform (suc d) t → Gathers (suc d) t v (gather_all t v)
  gather_all-Gathers (leaf t) d v u = absurd u
  gather_all-Gathers (inner ks ts) zero v u =
      let all = gather_treelets-GathersAll ts v u.1 in
      rw (over_treelets-zero ts u.0 u.1, all.returned)
        (record {
          tree = inner ks all.trees;
          returned = refl;
          uniform = (all.width ∙ u.0, all.uniform);
        })
  gather_all-Gathers (inner ks ts) (suc d) v u =
      let all = gather_children-GathersAll ts d v u.1 in
      rw (over_treelets-suc d ts u.0 u.1, all.returned)
        (record {
          tree = inner ks all.trees;
          returned = refl;
          uniform = (all.width ∙ u.0, all.uniform);
        })

  gather_children-GathersAll :
      (ts : Layouts) (d : ℕ) (v : List ℕ)
      → AllUniform (suc d) ts
      → GathersAll (suc d) ts v (gather_children ts v)
  gather_children-GathersAll end d v u = record {
    trees = end;
    returned = rw append-nil refl;
    uniform = tt;
    width = refl;
  }
  gather_children-GathersAll (child t ts) d v u =
      let this = gather_all-Gathers t d v u.0 in
      let rest = gather_children-GathersAll ts d (v ++ items t) u.1 in
      rw (this.returned, rest.returned)
        (record {
          trees = child this.tree rest.trees;
          returned = joined (child this.tree rest.trees) v (items t) (all_items ts);
          uniform = (this.uniform, rest.uniform);
          width = ap suc rest.width;
        })

-- What the rebuilding does to a tree `t`: it returns a tree one level deeper, with the same items in the
-- same order, in which a search finds exactly the items.
pub record Consolidates (d : ℕ) (t : Layout) (r : Option Layout) : Type 0 where
  pub tree : Layout
  pub returned : r ≡ some tree
  pub uniform : Uniform (suc d) tree
  pub same : items tree ≡ items t
  pub finds : (key : ℕ) → contains key tree ≡ elem key (items t)
