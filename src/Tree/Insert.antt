-- ===== src/Tree/Insert.antt =====
-- `insert` adds one key and keeps the order of the tree.
use sto_layout.Base.{ℕ, ◌+◌, ◌<◌, ◌≤◌, ◌≡◌, refl, Bool, not, ◌||◌, ◌==◌, arith}
use sto_layout.Tree.{Tree, nil, node, insert, insert_gt_ln}
use sto_layout.Tree.Spec.{member, IsBelow, IsAbove, IsSearchTree, IsBelow-member, IsAbove-member}

pub IsBelow-insert : (x b : ℕ) (t : Tree) → x < b → IsBelow b t → IsBelow b (insert x t).0
unfolding insert
IsBelow-insert x b nil h s = (h, tt, tt)
IsBelow-insert x b (node k o l r) h s =
    ground (arith, IsBelow-insert x b l h s.1, IsBelow-insert x b r h s.2)

pub IsAbove-insert : (x b : ℕ) (t : Tree) → b < x → IsAbove b t → IsAbove b (insert x t).0
unfolding insert
IsAbove-insert x b nil h s = (h, tt, tt)
IsAbove-insert x b (node k o l r) h s =
    ground (arith, IsAbove-insert x b l h s.1, IsAbove-insert x b r h s.2)

-- What `insert` of `x` into `t` does: the order is kept, exactly `x` joins the members, and the
-- call returns whether `x` was new.
pub record Inserts (x : ℕ) (t : Tree) (r : Tree × Bool) : Type 0 where
  pub ordered : IsSearchTree r.0
  pub members : (y : ℕ) → member y r.0 ≡ (y == x || member y t)
  pub fresh : r.1 ≡ not (member x t)

insert-IsSearchTree : (x : ℕ) (t : Tree) → IsSearchTree t → IsSearchTree (insert x t).0
unfolding insert
insert-IsSearchTree x nil s = (tt, tt, tt, tt)
insert-IsSearchTree x (node k o l r) s = ground (
  arith,
  insert-IsSearchTree x l s.2,
  insert-IsSearchTree x r s.3,
  IsBelow-insert x k l,
  IsAbove-insert x k r,
)

member-insert :
    (x : ℕ) (t : Tree) → IsSearchTree t → (y : ℕ) → member y (insert x t).0 ≡ (y == x || member y t)
unfolding insert member
member-insert x nil s y = ground arith
member-insert x (node k o l r) s y =
    ground (arith, member-insert x l s.2 y, member-insert x r s.3 y)

insert-member : (x : ℕ) (t : Tree) → IsSearchTree t → (insert x t).1 ≡ not (member x t)
unfolding insert member
insert-member x nil s = refl
insert-member x (node k o l r) s = ground (
  arith,
  insert-member x l s.2,
  insert-member x r s.3,
  IsBelow-member x k l s.0,
  IsAbove-member x k r s.1,
)

-- `insert` into a search tree keeps it one, adds exactly the key, and returns true if and only if the key
-- was not there.
pub insert-Inserts : (x : ℕ) (t : Tree) → IsSearchTree t → Inserts x t (insert x t)
insert-Inserts x t s = record {
  ordered = insert-IsSearchTree x t s;
  members = member-insert x t s;
  fresh = insert-member x t s;
}

-- `insertGtLn` does what `insert` does, and only adds to the count.
pub insert_gt_ln-insert :
    (x : ℕ) (t : Tree) (ln : ℕ)
    → let r = insert_gt_ln x t ln in (r.0 ≡ (insert x t).0) × (r.1 ≡ (insert x t).1) × (ln ≤ r.2)
unfolding insert insert_gt_ln
insert_gt_ln-insert x nil ln = (refl, refl, omega arith)
insert_gt_ln-insert x (node k o l r) ln =
    ground (arith, insert_gt_ln-insert x l (ln + 1), insert_gt_ln-insert x r (ln + 1))
