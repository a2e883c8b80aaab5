-- ===== src/Treelet/Insert.antt =====
-- `insert` on a treelet refines insertion into a set.
use sto_layout.Base.{ℕ, ◌<◌, ◌≡◌, Bool, not, ◌||◌, ◌==◌, arith}
use sto_layout.Tree.Spec.{member, IsBelow-member, IsAbove-member}
use sto_layout.Tree.Insert.{insert-Inserts, IsBelow-insert, IsAbove-insert}
use sto_layout.Treelet.{Treelet, unlocked, insert}
use sto_layout.Treelet.Spec.{IsValid, as_tree}

-- What `insert` of `x` does: the treelet stays valid, exactly `x` joins it, the call returns whether it was
-- new, and the lock is released.
pub record Inserts (x : ℕ) (t : Treelet) (r : Treelet × Bool) : Type 0 where
  pub valid : IsValid r.0
  pub members : (y : ℕ) → member y (as_tree r.0) ≡ (y == x || member y (as_tree t))
  pub fresh : r.1 ≡ not (member x (as_tree t))
  pub freed : r.0.lock ≡ unlocked

module _ (x : ℕ) (t : Treelet) (pos : 0 < x) (v : IsValid t) where
  open v use {ordered, positive, empty_left, empty_right}

  insert-IsValid : IsValid (insert x t).0
  unfolding insert
  insert-IsValid = record {
    ordered = ground (
      arith,
      (insert-Inserts x t.left ordered.2).ordered,
      (insert-Inserts x t.right ordered.3).ordered,
      IsBelow-insert x t.key t.left,
      IsAbove-insert x t.key t.right,
      empty_left,
      empty_right,
    );
    positive = ground (arith, IsAbove-insert x 0 t.left pos positive);
    empty_left = ground arith;
    empty_right = ground arith;
  }

  member-insert_treelet :
      (y : ℕ) → member y (as_tree (insert x t).0) ≡ (y == x || member y (as_tree t))
  unfolding insert member
  member-insert_treelet y = ground (
    arith,
    (insert-Inserts x t.left ordered.2).members y,
    (insert-Inserts x t.right ordered.3).members y,
    empty_left,
    empty_right,
  )

  insert-member_treelet : (insert x t).1 ≡ not (member x (as_tree t))
  unfolding insert member
  insert-member_treelet = ground (
    arith,
    (insert-Inserts x t.left ordered.2).fresh,
    (insert-Inserts x t.right ordered.3).fresh,
    IsBelow-member x t.key t.left ordered.0,
    IsAbove-member x t.key t.right ordered.1,
  )

  insert-released : (insert x t).0.lock ≡ unlocked
  unfolding insert
  insert-released = ground arith

-- `insert` of a key other than 0 into a valid treelet, on every branch: the treelet stays valid, exactly the
-- key joins it, the call returns whether it was new, and the lock is released.
pub insert-Inserts_treelet : (x : ℕ) (t : Treelet) → 0 < x → IsValid t → Inserts x t (insert x t)
insert-Inserts_treelet x t pos v = record {
  valid = insert-IsValid x t pos v;
  members = member-insert_treelet x t pos v;
  fresh = insert-member_treelet x t pos v;
  freed = insert-released x t pos v;
}
