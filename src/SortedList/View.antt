-- ===== src/SortedList/View.antt =====
-- What a transaction sees of the list: the valid nodes and its own new ones, without those it deleted.
use sto_layout.Base.Sorted.{insert_sorted, insert_sorted_past, contains, contains_outside}
use sto_layout.Base.{
  ℕ, suc, zero, ◌<◌, ◌≡◌, ◌≢◌, refl, sym, Bool, true, false, not, ◌&&◌, ◌||◌, if◌then◌else◌, ◌==◌,
  ==_iff, update, List, [], ◌∷◌, ◌++◌, All, All-append, All-map, length, arith, Bool-cases, inl,
  inr,
}
use sto_layout.SortedList.{
  ListNode, NodeItem, node_item, ℤ, pos, negsuc, inc, dec, offset, SortedList,
}
use sto_layout.SortedList.Split.{Increasing}

unfoldable pub visible : Bool → NodeItem → Bool
visible valid (node_item read write insert delete doupdate) = (valid || insert) && not delete

unfoldable pub view : (ℕ → NodeItem) → List ListNode → List ℕ
view items [] = []
view items (n ∷ ns) =
    if visible n.is_valid (items n.val) then n.val ∷ view items ns else view items ns

-- The items that the calls of a transaction leave at a node, valid or not: none of its own, which has a
-- read at most, or a new node, a deleted one, or one deleted and inserted again.
pub data ItemFits : Bool → NodeItem → Type 0 where
  untouched : (v r : Bool) → ItemFits v (node_item r false false false false)
  inserted : (r : Bool) → ItemFits false (node_item r true true false false)
  deleted : (r : Bool) → ItemFits true (node_item r true false true false)
  updated : (r : Bool) → ItemFits true (node_item r true false false true)

pub offset-inc : (n m : ℕ) (z : ℤ) → offset n z ≡ pos m → offset n (inc z) ≡ pos (suc m)
unfolding offset inc
offset-inc n m (pos k) h = ground arith
offset-inc n m (negsuc zero) h = ground arith
offset-inc n m (negsuc (suc k)) h = ground arith

pub offset-dec : (n m : ℕ) (z : ℤ) → offset n z ≡ pos (suc m) → offset n (dec z) ≡ pos m
unfolding offset dec
offset-dec n m (pos zero) h = ground arith
offset-dec n m (pos (suc k)) h = ground arith
offset-dec n m (negsuc k) h = ground arith

pub record IsList (s : SortedList) : Type 0 where
  pub increasing : Increasing s.nodes
  pub items_fit : All (λ n. ItemFits n.is_valid (s.items n.val)) s.nodes
  pub fresh :
      (k : ℕ)
      → All (λ n. n.val ≢ k) s.nodes
      → (r : Bool) × (s.items k ≡ node_item r false false false false)
  pub size : offset s.listsize s.size_offs ≡ pos (length (view s.items s.nodes))

pub view-append :
    (items : ℕ → NodeItem) (ps qs : List ListNode)
    → view items (ps ++ qs) ≡ view items ps ++ view items qs
unfolding view
view-append items [] qs = refl
view-append items (p ∷ ps) qs = elim (Bool-cases (visible p.is_valid (items p.val))) [
  | inl e ↦ rw (e, view-append items ps qs) refl
  | inr e ↦ rw (e, view-append items ps qs) refl
]

-- An item of a value that no node has does not show.
pub view_elsewhere :
    (items : ℕ → NodeItem) (k : ℕ) (it : NodeItem) (ns : List ListNode)
    → All (λ n. n.val ≢ k) ns
    → view (update items k it) ns ≡ view items ns
unfolding view
view_elsewhere items k it [] h = refl
view_elsewhere items k it (n ∷ ns) h = elim (Bool-cases (k == n.val)) [
  | inl e ↦ absurd (h.0 (sym ((==_iff k n.val).0 e)))
  | inr e ↦ rw (e, view_elsewhere items k it ns h.1) refl
]

pub view-All :
    (P : ℕ → Type 0) (items : ℕ → NodeItem) (ns : List ListNode)
    → All (λ n. P n.val) ns
    → All P (view items ns)
unfolding view
view-All P items [] h = tt
view-All P items (n ∷ ns) h = elim (Bool-cases (visible n.is_valid (items n.val))) [
  | inl e ↦ rw e (h.0, view-All P items ns h.1)
  | inr e ↦ rw e (view-All P items ns h.1)
]

-- Sets around an element that is in neither part.
pub insert_sorted_between :
    (k : ℕ) (xs ys : List ℕ)
    → All (λ x. x < k) xs
    → All (λ y. k < y) ys
    → insert_sorted k (xs ++ ys) ≡ xs ++ k ∷ ys
unfolding insert_sorted
insert_sorted_between k xs [] hx hy = insert_sorted_past k xs [] hx
insert_sorted_between k xs (y ∷ ys) hx hy =
    rw (insert_sorted_past k xs (y ∷ ys) hx) (ground (arith, hy.0))

pub contains_between :
    (k : ℕ) (xs ys : List ℕ)
    → All (λ x. x < k) xs
    → All (λ y. k < y) ys
    → contains k (xs ++ ys) ≡ false
contains_between k xs ys hx hy = contains_outside k (xs ++ ys) (
    All-append (λ x. k ≢ x) xs ys (All-map (λ x lt e. omega (arith, lt, e)) xs hx)
      (All-map (λ y lt e. omega (arith, lt, e)) ys hy))
