-- ===== src/RedBlack/Find.antt =====
-- The searches: membership in the elements, and the neighbours of a missing key.
use sto_layout.Base.Sorted.{
  Sorted, Sorted-IsSplit, contains, contains_here, contains_right, contains_left,
  insert_sorted-contains, absent_All,
}
use sto_layout.Base.{
  ℕ, ◌<◌, ◌≤◌, ◌≡◌, refl, sym, ◌∙◌, ap, true, false, ◌||◌, Option, none, some, List, [], ◌∷◌, ◌++◌,
  arith, if◌then◌else◌, ◌==◌, ==_iff, ltb, ltb→lt, All, Bool-cases, inl, inr,
}
use sto_layout.RedBlack.{
  RbTree, null, node, RbRep, Found, find_loop, find_any, find_insert, insert, insert_commit,
  descend,
}
use sto_layout.RedBlack.Order.{inorder}
use sto_layout.RedBlack.Limits.{head, last_of, IsRbRep, insert-IsRbRep}

-- The greatest element below the key, and the least above it, with what stands for none.
unfoldable pub below : ℕ → List ℕ → Option ℕ → Option ℕ
below key [] none_below = none_below
below key (x ∷ xs) none_below = if ltb x key then below key xs (some x) else none_below

unfoldable pub above : ℕ → List ℕ → Option ℕ → Option ℕ
above key [] none_above = none_above
above key (x ∷ xs) none_above = if ltb key x then some x else above key xs none_above

below_past :
    (key k : ℕ) (xs ys : List ℕ) (d : Option ℕ)
    → All (λ x. x < k) xs
    → k < key
    → below key (xs ++ k ∷ ys) d ≡ below key ys (some k)
unfolding below
below_past key k [] ys d h lt = ground arith
below_past key k (x ∷ xs) ys d h lt = ground (arith, h.0, below_past key k xs ys (some x) h.1 lt)

below_left :
    (key k : ℕ) (xs ys : List ℕ) (d : Option ℕ)
    → key ≤ k
    → below key (xs ++ k ∷ ys) d ≡ below key xs d
unfolding below
below_left key k [] ys d le = ground arith
below_left key k (x ∷ xs) ys d le = ground (arith, below_left key k xs ys (some x) le)

above_past :
    (key k : ℕ) (xs ys : List ℕ) (d : Option ℕ)
    → All (λ x. x < k) xs
    → k < key
    → above key (xs ++ k ∷ ys) d ≡ above key ys d
unfolding above
above_past key k [] ys d h lt = ground arith
above_past key k (x ∷ xs) ys d h lt = ground (arith, h.0, above_past key k xs ys d h.1 lt)

above_left :
    (key k : ℕ) (xs ys : List ℕ) (d : Option ℕ)
    → key < k
    → above key (xs ++ k ∷ ys) d ≡ above key xs (some k)
unfolding above
above_left key k [] ys d le = ground arith
above_left key k (x ∷ xs) ys d le = ground (arith, above_left key k xs ys d le)

-- What the search for a key says of the elements.
pub record Searched (key : ℕ) (xs : List ℕ) (lhs rhs : Option ℕ) (f : Found) : Type 0 where
  pub member : f.found ≡ contains key xs
  pub at_key : f.found ≡ true → f.retnode ≡ some key
  pub left : f.found ≡ false → f.boundary_left ≡ below key xs lhs
  pub right : f.found ≡ false → f.boundary_right ≡ above key xs rhs

find_loop-Searched :
    (key : ℕ) (t : RbTree) (p lhs rhs : Option ℕ)
    → Sorted (inorder t)
    → Searched key (inorder t) lhs rhs (find_loop key t p lhs rhs)
unfolding find_loop contains below above
find_loop-Searched key null p lhs rhs h = record {
  member = refl;
  at_key = λ e. ground (arith, e);
  left = λ e. refl;
  right = λ e. refl;
}
find_loop-Searched key (node c k l r) p lhs rhs h =
    let split = Sorted-IsSplit (inorder l) k (inorder r) h in
    elim (Bool-cases (key == k)) [
      | inl e ↦ rw e (record {
        member = sym (contains_here key k (inorder l) (inorder r) ((==_iff key k).0 e));
        at_key = λ v. ap some (sym ((==_iff key k).0 e));
        left = λ v. ground (arith, v);
        right = λ v. ground (arith, v);
      })
      | inr e ↦ elim (Bool-cases (ltb k key)) [
        | inl lt ↦
            let rest = find_loop-Searched key r (some k) (some k) rhs split.right in
            rw (e, lt)
              (record {
                member =
                    rest.member
                    ∙ sym (
                        contains_right key k (inorder l) (inorder r) split.below (ltb→lt k key lt));
                at_key = rest.at_key;
                left = λ v.
                    rest.left v
                    ∙ sym (
                        below_past key k (inorder l) (inorder r) lhs split.below (ltb→lt k key lt));
                right = λ v.
                    rest.right v
                    ∙ sym (
                        above_past key k (inorder l) (inorder r) rhs split.below (ltb→lt k key lt));
              })
        | inr ge ↦
            let lt : key < k = ground arith in
            let rest = find_loop-Searched key l (some k) lhs (some k) split.left in
            rw (e, ge)
              (record {
                member =
                    rest.member ∙ sym (contains_left key k (inorder l) (inorder r) split.above lt);
                at_key = rest.at_key;
                left = λ v.
                    rest.left v ∙ sym (below_left key k (inorder l) (inorder r) lhs (omega arith));
                right = λ v. rest.right v ∙ sym (above_left key k (inorder l) (inorder r) rhs lt);
              })
      ]
    ]

-- In a tree with its invariant, `find_any` finds exactly the elements of the tree. For a missing key
-- the boundary nodes are the greatest element below it and the least above it, or, where there is
-- none, the leftmost and the rightmost element of the tree.
pub find_any_lem :
    (key : ℕ) (t : RbRep)
    → IsRbRep t
    → Searched key
        (inorder t.root)
        (head (inorder t.root))
        (last_of (inorder t.root))
        (find_any key t)
unfolding find_any
find_any_lem key t h =
    rw (sym h.first_head, sym h.last_end)
      (find_loop-Searched key t.root none t.first t.last h.ordered)

-- A key that is there may be named once more.
contains_again :
    (key : ℕ) (xs : List ℕ)
    → contains key xs ≡ true
    → (other : ℕ) → contains other xs ≡ (other == key || contains other xs)
contains_again key xs h other = elim (Bool-cases (other == key)) [
  | inl e ↦ rw (e, (==_iff other key).0 e) h
  | inr e ↦ rw e refl
]

find_insert_inserts :
    (key : ℕ) (t t' : RbRep)
    → insert key t ≡ some t'
    → insert_commit key (descend key t.root []) t ≡ some t'
unfolding insert
find_insert_inserts key t t' h = h

-- A key that is there leaves the tree alone, and the node in the result is its own.
find_insert_there :
    (key : ℕ) (t : RbRep)
    → (find_any key t).found ≡ true
    → (find_any key t).retnode ≡ some key
    → find_insert key t ≡ some (t, record (find_any key t) { retnode = some key })
unfolding find_insert
find_insert_there key t e at =
    let same : find_insert key t ≡ some (t, find_any key t) = rw e refl in
    same ∙ ap (λ o. some (t, record (find_any key t) { retnode = o })) at

-- `find_insert` never fails: it returns the node of the key and, as `find_any` before it, whether the key
-- was there and the boundary; it keeps the invariant of the tree, and afterwards the tree has the key and the elements it had, and no others.
pub find_insert-IsRbRep :
    (key : ℕ) (t : RbRep)
    → IsRbRep t
    → (t' : RbRep) × (find_insert key t ≡ some (t', record (find_any key t) { retnode = some key }))
      × IsRbRep t'
      × ((find_any key t).found ≡ contains key (inorder t.root))
      × ((other : ℕ)
          → contains other (inorder t'.root) ≡ (other == key || contains other (inorder t.root)))
unfolding find_insert
find_insert-IsRbRep key t h =
    let searched = find_any_lem key t h in
    elim (Bool-cases ((find_any key t).found)) [
      | inl e ↦ (
        t,
        find_insert_there key t e (searched.at_key e),
        h,
        searched.member,
        contains_again key (inorder t.root) (sym searched.member ∙ e),
      )
      | inr e ↦
          let done =
            insert-IsRbRep key t h (absent_All key (inorder t.root) (sym searched.member ∙ e)) in
          (
            done.0,
            rw (e, find_insert_inserts key t done.0 done.1) refl,
            done.2,
            searched.member,
            λ other. rw done.3 (insert_sorted-contains key other (inorder t.root)),
          )
    ]
