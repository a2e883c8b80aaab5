-- ===== src/Treelet/Remove.antt =====
-- `remove` on a treelet refines deletion from a set.
use sto_layout.Base.{
  ℕ, ◌<◌, ◌≡◌, refl, Bool, not, ◌||◌, ◌&&◌, ◌==◌, ltb, arith, Bool-cases, inl, inr,
}
use sto_layout.Tree
use sto_layout.Tree.{Tree, nil, node, Entry}
use sto_layout.Tree.Spec.{member, IsBelow-member, IsAbove-member, IsBelow-trans}
use sto_layout.Tree.Remove.{
  remove-Removes, IsBelow-remove, IsAbove-remove, detach_min-Detaches, IsAbove-detach_min,
}
use sto_layout.Treelet.{Treelet, unlocked, remove, refill_root, release}
use sto_layout.Treelet.Spec.{IsValid, as_tree}

pub record Removes (x : ℕ) (t : Treelet) (r : Treelet × Bool) : Type 0 where
  pub valid : IsValid r.0
  pub members : (y : ℕ) → member y (as_tree r.0) ≡ (not (y == x) && member y (as_tree t))
  pub found : r.1 ≡ member x (as_tree t)
  pub freed : r.0.lock ≡ unlocked

-- The treelet after the root's key has been taken out.
record Refills (t r : Treelet) : Type 0 where
  valid : IsValid r
  members : (y : ℕ) → member y (as_tree r) ≡ (member y t.left || member y t.right)

abbrev treelet : ℕ → ℕ → ℕ → Tree → Tree → Treelet
treelet lock key obj l r = record { lock = lock; key = key; obj = obj; left = l; right = r }

refill_root-Refills :
    (lock key obj : ℕ) (l r : Tree)
    → 0 < key
    → IsValid (treelet lock key obj l r)
    → Refills
        (treelet lock key obj l r)
        (refill_root (treelet lock key obj l r) (Tree.remove_min r))
unfolding refill_root Tree.remove_min member
refill_root-Refills lock key obj nil nil pos v = record {
  valid = record {
    ordered = (tt, tt, tt, tt);
    positive = tt;
    empty_left = λ _. refl;
    empty_right = λ _. refl;
  };
  members = λ y. refl;
}
refill_root-Refills lock key obj (node k o l r) nil pos v =
    let s = v.ordered.2 in
    record {
      valid = record {
        ordered = s;
        positive = v.positive.1;
        empty_left = λ e. absurd (omega (arith, v.positive.0));
        empty_right = λ e. absurd (omega (arith, v.positive.0));
      };
      members = λ y. ground (arith, v.positive.0);
    }
refill_root-Refills lock key obj l (node k o rl rr) pos v =
    let d = detach_min-Detaches k o rl rr v.ordered.3 in
    let low = IsAbove-detach_min key k o rl rr v.ordered.1 in
    record {
      valid = record {
        ordered = (IsBelow-trans l (omega arith) v.ordered.0, d.least, v.ordered.2, d.ordered);
        positive = v.positive;
        empty_left = λ e. absurd (omega (arith, low.0));
        empty_right = λ e. absurd (omega (arith, low.0));
      };
      members = λ y. ground (arith, d.members y, low.0);
    }

remove-nil : (x : ℕ) (t : Tree) → t ≡ nil → (Tree.remove x t).0 ≡ nil
unfolding Tree.remove
remove-nil x t e = rw e

IsValid-release : (t : Treelet) → IsValid t → IsValid (release t)
unfolding release
IsValid-release t v = record {
  ordered = v.ordered;
  positive = v.positive;
  empty_left = v.empty_left;
  empty_right = v.empty_right;
}

module _ (x : ℕ) (t : Treelet) (pos : 0 < x) (v : IsValid t) where
  open v use {ordered, positive, empty_left, empty_right}

  -- The root's key is not 0 where it is the key to remove.
  refill : x ≡ t.key → Refills t (refill_root t (Tree.remove_min t.right))
  refill e = refill_root-Refills t.lock t.key t.obj t.left t.right (omega arith) v

  remove-IsValid : IsValid (remove x t).0
  unfolding remove
  remove-IsValid = elim (Bool-cases (ltb x t.key)) [
    | inl below ↦ rw below (record {
      ordered = (
        IsBelow-remove x t.key t.left ordered.0,
        ordered.1,
        (remove-Removes x t.left ordered.2).ordered,
        ordered.3,
      );
      positive = IsAbove-remove x 0 t.left positive;
      empty_left = λ e. ground arith;
      empty_right = empty_right;
    })
    | inr high ↦ elim (Bool-cases (ltb t.key x)) [
      | inl above ↦
          rw (high, above)
            (record {
              ordered = (
                ordered.0,
                IsAbove-remove x t.key t.right ordered.1,
                ordered.2,
                (remove-Removes x t.right ordered.3).ordered,
              );
              positive = positive;
              empty_left = empty_left;
              empty_right = λ e. remove-nil x t.right (empty_right e);
            })
      | inr same ↦ rw (high, same) (IsValid-release _ (refill (ground arith)).valid)
    ]
  ]

  member-remove_treelet :
      (y : ℕ) → member y (as_tree (remove x t).0) ≡ (not (y == x) && member y (as_tree t))
  unfolding remove member
  member-remove_treelet y = elim (Bool-cases (ltb x t.key)) [
    | inl below ↦ rw below (
        ground (
          arith,
          (remove-Removes x t.left ordered.2).members y,
          IsAbove-member y t.key t.right ordered.1,
        ))
    | inr high ↦ elim (Bool-cases (ltb t.key x)) [
      | inl above ↦
          rw (high, above)
            (ground (
              arith,
              (remove-Removes x t.right ordered.3).members y,
              IsBelow-member y t.key t.left ordered.0,
              empty_right,
            ))
      | inr same ↦
          let e : x ≡ t.key = ground arith in
          rw (high, same)
            (ground (
              arith,
              (refill e).members y,
              IsBelow-member y t.key t.left ordered.0,
              IsAbove-member y t.key t.right ordered.1,
            ))
    ]
  ]

  remove-member_treelet : (remove x t).1 ≡ member x (as_tree t)
  unfolding remove member
  remove-member_treelet = ground (
    arith,
    (remove-Removes x t.left ordered.2).found,
    (remove-Removes x t.right ordered.3).found,
    IsBelow-member x t.key t.left ordered.0,
    IsAbove-member x t.key t.right ordered.1,
    empty_right,
  )

  remove-released : (remove x t).0.lock ≡ unlocked
  unfolding remove
  remove-released = ground arith

-- `remove` of a key other than 0 from a valid treelet, on every branch: the treelet stays valid, exactly
-- the key leaves it, the call returns whether it was there, and the lock is released.
pub remove-Removes_treelet : (x : ℕ) (t : Treelet) → 0 < x → IsValid t → Removes x t (remove x t)
remove-Removes_treelet x t pos v = record {
  valid = remove-IsValid x t pos v;
  members = member-remove_treelet x t pos v;
  found = remove-member_treelet x t pos v;
  freed = remove-released x t pos v;
}
