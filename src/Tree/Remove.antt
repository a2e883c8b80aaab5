-- ===== src/Tree/Remove.antt =====
-- `remove` takes out one key and keeps the order of the tree; `removeMin` takes out the least one.
use sto_layout.Base.{
  ℕ, ◌<◌, ◌≡◌, refl, Bool, not, ◌||◌, ◌&&◌, ◌==◌, arith, none, some, ◌⊎◌, inl, inr,
}
use sto_layout.Tree.{Tree, nil, node, Entry, detach_min, remove_min, delete_node, remove}
use sto_layout.Tree.Spec.{
  member, IsBelow, IsAbove, IsSearchTree, IsBelow-trans, IsAbove-trans, IsBelow-member,
  IsAbove-member,
}

pub IsAbove-detach_min :
    (b k o : ℕ) (l r : Tree)
    → IsAbove b (node k o l r)
    → let p = detach_min k o l r in (b < p.0.key) × IsAbove b p.1
unfolding detach_min
IsAbove-detach_min b k o nil r s = (s.0, s.2)
IsAbove-detach_min b k o (node lk lo ll lr) r s =
    let ih = IsAbove-detach_min b lk lo ll lr s.1 in (ih.0, (s.0, ih.1, s.2))

pub IsBelow-detach_min :
    (b k o : ℕ) (l r : Tree)
    → IsBelow b (node k o l r)
    → let p = detach_min k o l r in (p.0.key < b) × IsBelow b p.1
unfolding detach_min
IsBelow-detach_min b k o nil r s = (s.0, s.2)
IsBelow-detach_min b k o (node lk lo ll lr) r s =
    let ih = IsBelow-detach_min b lk lo ll lr s.1 in (ih.0, (s.0, ih.1, s.2))

-- The detached node is the least, and the rest is a search tree of the other keys.
pub record Detaches (t : Tree) (p : Entry × Tree) : Type 0 where
  pub ordered : IsSearchTree p.1
  pub least : IsAbove p.0.key p.1
  pub members : (y : ℕ) → member y t ≡ (y == p.0.key || member y p.1)

pub detach_min-Detaches :
    (k o : ℕ) (l r : Tree)
    → IsSearchTree (node k o l r)
    → Detaches (node k o l r) (detach_min k o l r)
unfolding detach_min member
detach_min-Detaches k o nil r s = record { ordered = s.3; least = s.1; members = λ y. ground arith }
detach_min-Detaches k o (node lk lo ll lr) r s =
    let ih = detach_min-Detaches lk lo ll lr s.2 in
    let below = IsBelow-detach_min k lk lo ll lr s.0 in
    record {
      ordered = (below.1, s.1, ih.ordered, s.3);
      least = (below.0, ih.least, IsAbove-trans r (omega arith) s.1);
      members = λ y. ground (arith, ih.members y);
    }

-- What removing `x` from `t` does.
pub record Removes (x : ℕ) (t : Tree) (r : Tree × Bool) : Type 0 where
  pub ordered : IsSearchTree r.0
  pub members : (y : ℕ) → member y r.0 ≡ (not (y == x) && member y t)
  pub found : r.1 ≡ member x t

-- `deleteNode`: the keys of both children, in order.
IsBelow-delete_node : (b : ℕ) (l r : Tree) → IsBelow b l → IsBelow b r → IsBelow b (delete_node l r)
unfolding delete_node
IsBelow-delete_node b nil nil hl hr = tt
IsBelow-delete_node b (node k o l r) nil hl hr = hl
IsBelow-delete_node b nil (node k o l r) hl hr = hr
IsBelow-delete_node b (node k o l r) (node rk ro nil rr) hl hr = (hr.0, hl, hr.2)
IsBelow-delete_node b (node k o l r) (node rk ro (node ck co cl cr) rr) hl hr =
    let d = IsBelow-detach_min b ck co cl cr hr.1 in (d.0, hl, (hr.0, d.1, hr.2))

IsAbove-delete_node : (b : ℕ) (l r : Tree) → IsAbove b l → IsAbove b r → IsAbove b (delete_node l r)
unfolding delete_node
IsAbove-delete_node b nil nil hl hr = tt
IsAbove-delete_node b (node k o l r) nil hl hr = hl
IsAbove-delete_node b nil (node k o l r) hl hr = hr
IsAbove-delete_node b (node k o l r) (node rk ro nil rr) hl hr = (hr.0, hl, hr.2)
IsAbove-delete_node b (node k o l r) (node rk ro (node ck co cl cr) rr) hl hr =
    let d = IsAbove-detach_min b ck co cl cr hr.1 in (d.0, hl, (hr.0, d.1, hr.2))

delete_node-IsSearchTree :
    (k : ℕ) (l r : Tree)
    → IsBelow k l
    → IsAbove k r
    → IsSearchTree l
    → IsSearchTree r
    → IsSearchTree (delete_node l r)
unfolding delete_node
delete_node-IsSearchTree k nil nil b a sl sr = tt
delete_node-IsSearchTree k (node lk lo ll lr) nil b a sl sr = sl
delete_node-IsSearchTree k nil (node rk ro rl rr) b a sl sr = sr
delete_node-IsSearchTree k (node lk lo ll lr) (node rk ro nil rr) b a sl sr =
    (IsBelow-trans (node lk lo ll lr) (omega arith) b, sr.1, sl, sr.3)
delete_node-IsSearchTree k (node lk lo ll lr) (node rk ro (node ck co cl cr) rr) b a sl sr =
    let d = detach_min-Detaches ck co cl cr sr.2 in
    let low = IsBelow-detach_min rk ck co cl cr sr.0 in
    let high = IsAbove-detach_min k ck co cl cr a.1 in
    (
      IsBelow-trans (node lk lo ll lr) (omega arith) b,
      (low.0, d.least, IsAbove-trans rr (omega arith) sr.1),
      sl,
      (low.1, sr.1, d.ordered, sr.3),
    )

member-delete_node :
    (l r : Tree)
    → IsSearchTree r
    → (y : ℕ) → member y (delete_node l r) ≡ (member y l || member y r)
unfolding delete_node member
member-delete_node nil nil s y = refl
member-delete_node (node k o l r) nil s y = ground arith
member-delete_node nil (node k o l r) s y = ground arith
member-delete_node (node k o l r) (node rk ro nil rr) s y = ground arith
member-delete_node (node k o l r) (node rk ro (node ck co cl cr) rr) s y =
    ground (arith, (detach_min-Detaches ck co cl cr s.2).members y)

module _ (x : ℕ) where
  pub IsBelow-remove : (b : ℕ) (t : Tree) → IsBelow b t → IsBelow b (remove x t).0
  unfolding remove
  IsBelow-remove b nil s = tt
  IsBelow-remove b (node k o l r) s =
      ground
        (arith, IsBelow-remove b l s.1, IsBelow-remove b r s.2, IsBelow-delete_node b l r s.1 s.2)

  pub IsAbove-remove : (b : ℕ) (t : Tree) → IsAbove b t → IsAbove b (remove x t).0
  unfolding remove
  IsAbove-remove b nil s = tt
  IsAbove-remove b (node k o l r) s =
      ground
        (arith, IsAbove-remove b l s.1, IsAbove-remove b r s.2, IsAbove-delete_node b l r s.1 s.2)

  remove-IsSearchTree : (t : Tree) → IsSearchTree t → IsSearchTree (remove x t).0
  unfolding remove
  remove-IsSearchTree nil s = tt
  remove-IsSearchTree (node k o l r) s = ground (
    arith,
    remove-IsSearchTree l s.2,
    remove-IsSearchTree r s.3,
    IsBelow-remove k l s.0,
    IsAbove-remove k r s.1,
    delete_node-IsSearchTree k l r s.0 s.1 s.2 s.3,
  )

  member-remove :
      (t : Tree) → IsSearchTree t → (y : ℕ) → member y (remove x t).0 ≡ (not (y == x) && member y t)
  unfolding remove member
  member-remove nil s y = ground arith
  member-remove (node k o l r) s y = ground (
    arith,
    member-remove l s.2 y,
    member-remove r s.3 y,
    member-delete_node l r s.3 y,
    IsBelow-member y k l s.0,
    IsAbove-member y k r s.1,
  )

  remove-member : (t : Tree) → IsSearchTree t → (remove x t).1 ≡ member x t
  unfolding remove member
  remove-member nil s = refl
  remove-member (node k o l r) s = ground (
    arith,
    remove-member l s.2,
    remove-member r s.3,
    IsBelow-member x k l s.0,
    IsAbove-member x k r s.1,
  )

-- `remove` from a search tree keeps it one, takes out exactly the key, and returns whether it was there.
pub remove-Removes : (x : ℕ) (t : Tree) → IsSearchTree t → Removes x t (remove x t)
remove-Removes x t s = record {
  ordered = remove-IsSearchTree x t s;
  members = member-remove x t s;
  found = remove-member x t s;
}

-- `removeMin` returns null exactly for the empty tree; otherwise it returns the least node, and leaves
-- the other keys.
pub remove_min_lem :
    (t : Tree)
    → IsSearchTree t
    → ((t ≡ nil) × (remove_min t ≡ none))
      ⊎ ((p : Entry × Tree) × (remove_min t ≡ some p) × Detaches t p)
unfolding remove_min
remove_min_lem nil s = inl (refl, refl)
remove_min_lem (node k o l r) s = inr (detach_min k o l r, refl, detach_min-Detaches k o l r s)
