-- ===== src/RedBlack/Ends.antt =====
-- The leftmost and the rightmost element once an element is gone.
use sto_layout.Base.Sorted.{Sorted, Sorted-IsSplit}
use sto_layout.Base.{
  ℕ, ◌≡◌, refl, sym, ◌∙◌, ap, true, false, Option, some, List, [], ◌∷◌, ◌++◌, append_assoc,
  append-nil, arith, if◌then◌else◌, ==_self,
}
use sto_layout.RedBlack.{RbTree, null, node, Frame, frame, plug, is_limit}
use sto_layout.RedBlack.Order.{inorder, before, after}
use sto_layout.RedBlack.Limits.{head, last_of, last_of_suffix, last_of_above}
use sto_layout.RedBlack.Delete.{edge_node, new_limit}

-- The limits once `k` is gone: what `b` says where `k` was at the end.
pub first_removed :
    (ps qs : List ℕ) (k : ℕ) (b : Option ℕ)
    → Sorted (ps ++ k ∷ qs)
    → (ps ≡ [] → b ≡ head qs)
    → (if is_limit (head (ps ++ k ∷ qs)) k then b else head (ps ++ k ∷ qs)) ≡ head (ps ++ qs)
unfolding head
first_removed [] qs k b h e = rw (==_self k) (e refl)
first_removed (p ∷ ps) qs k b h e = ground (arith, (Sorted-IsSplit (p ∷ ps) k qs h).below.0)

pub last_removed :
    (ps qs : List ℕ) (k : ℕ) (b : Option ℕ)
    → Sorted (ps ++ k ∷ qs)
    → (qs ≡ [] → b ≡ last_of ps)
    → (if is_limit (last_of (ps ++ k ∷ qs)) k then b else last_of (ps ++ k ∷ qs))
      ≡ last_of (ps ++ qs)
unfolding last_of
last_removed ps [] k b h e = rw (last_of_suffix ps k [], ==_self k, append-nil ps) (e refl)
last_removed ps (q ∷ qs) k b h e =
    let split = Sorted-IsSplit ps k (q ∷ qs) h in
    rw (last_of_suffix ps k (q ∷ qs), last_of_suffix ps q qs, last_of_above k q qs split.above) refl

pub cons-nil : (x : ℕ) (xs : List ℕ) → x ∷ xs ≡ [] → ⊥
cons-nil x xs e = ground (arith, e)

pub append-cons-nil : (xs ys : List ℕ) (y : ℕ) → xs ++ y ∷ ys ≡ [] → ⊥
append-cons-nil [] ys y e = cons-nil _ _ e
append-cons-nil (x ∷ xs) ys y e = cons-nil _ _ e

-- `edge_node` gives the first and the last element.
pub first_edge :
    (k : ℕ) (l : RbTree) (rest : List ℕ) → head (inorder l ++ k ∷ rest) ≡ some (edge_node false k l)
unfolding edge_node head
first_edge k null rest = refl
first_edge k (node c j l r) rest =
    rw (append_assoc (inorder l) (j ∷ inorder r) (k ∷ rest))
      (first_edge j l (inorder r ++ k ∷ rest))

pub last_edge :
    (k : ℕ) (r : RbTree) (rest : List ℕ)
    → last_of (rest ++ k ∷ inorder r) ≡ some (edge_node true k r)
unfolding edge_node last_of
last_edge k null rest = last_of_suffix rest k []
last_edge k (node c j l r) rest =
    sym (ap last_of (append_assoc rest (k ∷ inorder l) (j ∷ inorder r)))
    ∙ last_edge j r (rest ++ k ∷ inorder l)

-- `new_limit` looks where the next element is.
pub new_first :
    (x : RbTree) (path : List Frame)
    → before path ≡ []
    → new_limit false x path ≡ head (inorder x ++ after path)
unfolding new_limit plug head
new_first (node c k l r) path e =
    rw (append_assoc (inorder l) (k ∷ inorder r) (after path))
      (sym (first_edge k l (inorder r ++ after path)))
new_first null [] e = refl
new_first null (frame false c k s ∷ path) e = refl
new_first null (frame true c k s ∷ path) e =
    absurd (append-cons-nil _ _ _ (append_assoc (before path) (inorder s) (k ∷ []) ∙ e))

pub new_last :
    (x : RbTree) (path : List Frame)
    → after path ≡ []
    → new_limit true x path ≡ last_of (before path ++ inorder x)
unfolding new_limit plug last_of
new_last (node c k l r) path e =
    sym (last_edge k r (before path ++ inorder l))
    ∙ ap last_of (append_assoc (before path) (inorder l) (k ∷ inorder r))
new_last null [] e = refl
new_last null (frame true c k s ∷ path) e = rw (append-nil (before path ++ (inorder s ++ k ∷ []))) (
    sym (last_of_suffix (before path ++ inorder s) k [])
    ∙ ap last_of (append_assoc (before path) (inorder s) (k ∷ [])))
new_last null (frame false c k s ∷ path) e = absurd (cons-nil _ _ e)
