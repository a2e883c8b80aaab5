-- ===== src/RedBlack/Limits.antt =====
-- The invariant of `rbrep`, the elements at the two ends included, and that `insert` keeps it.
use sto_layout.Base.Sorted.{Sorted, insert_sorted, Sorted-IsSplit, insert_sorted-Sorted}
use sto_layout.Base.{
  ℕ, suc, ◌<◌, ◌≡◌, ◌≢◌, refl, sym, ◌∙◌, ap, subst, true, false, Option, none, some, List, [], ◌∷◌,
  ◌++◌, append_assoc, append-nil, arith, if◌then◌else◌, ltb, ==_self, All, Bool-cases, inl, inr,
}
use sto_layout.RedBlack.{
  RbTree, null, node, red, black, Frame, frame, RbRep, is_red, plug, unwind, descend, is_limit,
  insert_commit, insert,
}
use sto_layout.RedBlack.Order.{inorder, before, after, unwind-inorder, descend-inorder}
use sto_layout.RedBlack.Balance.{black_height, IsRedBlack, Fits, HasBlack, IsRbTree}
use sto_layout.RedBlack.Insert.{flip_up-Restored}

unfoldable pub head : List ℕ → Option ℕ
head [] = none
head (x ∷ xs) = some x

unfoldable pub last_of : List ℕ → Option ℕ
last_of [] = none
last_of (x ∷ []) = some x
last_of (x ∷ y ∷ ys) = last_of (y ∷ ys)

pub record IsRbRep (t : RbRep) : Type 0 where
  pub tree : IsRbTree t.root
  pub ordered : Sorted (inorder t.root)
  pub first_head : t.first ≡ head (inorder t.root)
  pub last_end : t.last ≡ last_of (inorder t.root)

-- The descent ends at a place where a red leaf fits.
descend-Fits :
    (x : ℕ) (t : RbTree) (path : List Frame)
    → IsRedBlack t
    → Fits (black_height t) path
    → (is_red t ≡ true → HasBlack path)
    → Fits 0 (descend x t path)
unfolding descend is_red
descend-Fits x null path h f u = f
descend-Fits x (node red k l r) path h f u = elim (Bool-cases (ltb k x)) [
  | inl e ↦ rw e (
      descend-Fits x r (frame true red k l ∷ path) h.1
        (h.0, h.2, h.3, u refl, subst (λ n. Fits n path) h.2 f) (λ v. ground (arith, h.4, v)))
  | inr e ↦ rw e (
      descend-Fits x l (frame false red k r ∷ path) h.0 (h.1, sym h.2, h.4, u refl, f)
        (λ v. ground (arith, h.3, v)))
]
descend-Fits x (node black k l r) path h f u = elim (Bool-cases (ltb k x)) [
  | inl e ↦ rw e (
      descend-Fits x r (frame true black k l ∷ path) h.1
        (h.0, h.2, subst (λ n. Fits (suc n) path) h.2 f) (λ v. tt))
  | inr e ↦ rw e (descend-Fits x l (frame false black k r ∷ path) h.0 (h.1, sym h.2, f) (λ v. tt))
]

descend-unwind :
    (x : ℕ) (t : RbTree) (path : List Frame) → unwind (descend x t path) null ≡ unwind path t
unfolding descend unwind plug
descend-unwind x null path = refl
descend-unwind x (node c k l r) path = elim (Bool-cases (ltb k x)) [
  | inl e ↦ rw (e, descend-unwind x r (frame true c k l ∷ path)) refl
  | inr e ↦ rw (e, descend-unwind x l (frame false c k r ∷ path)) refl
]

-- A new element next to `k` is an end exactly when `k` was one.
head-place :
    (bs cs : List ℕ) (x k : ℕ)
    → Sorted (bs ++ k ∷ cs)
    → (if is_limit (head (bs ++ k ∷ cs)) k then some x else head (bs ++ k ∷ cs))
      ≡ head (bs ++ x ∷ k ∷ cs)
unfolding head
head-place [] cs x k h = rw (==_self k) refl
head-place (b ∷ bs) cs x k h = ground (arith, (Sorted-IsSplit (b ∷ bs) k cs h).below.0)

head-past :
    (bs cs : List ℕ) (x k : ℕ) → head ((bs ++ k ∷ []) ++ cs) ≡ head ((bs ++ k ∷ []) ++ x ∷ cs)
unfolding head
head-past [] cs x k = refl
head-past (b ∷ bs) cs x k = refl

pub last_of_cons :
    (x : ℕ) (xs ys : List ℕ) (y : ℕ) → last_of (x ∷ (xs ++ y ∷ ys)) ≡ last_of (xs ++ y ∷ ys)
unfolding last_of
last_of_cons x [] ys y = refl
last_of_cons x (z ∷ xs) ys y = refl

pub last_of_suffix : (ps : List ℕ) (q : ℕ) (qs : List ℕ) → last_of (ps ++ q ∷ qs) ≡ last_of (q ∷ qs)
last_of_suffix [] q qs = refl
last_of_suffix (p ∷ ps) q qs = last_of_cons p ps qs q ∙ last_of_suffix ps q qs

last_of-past : (bs cs : List ℕ) (x k : ℕ) → last_of (bs ++ k ∷ cs) ≡ last_of (bs ++ x ∷ k ∷ cs)
unfolding last_of
last_of-past [] cs x k = refl
last_of-past (b ∷ bs) cs x k =
    rw (last_of_cons b bs cs k, last_of_cons b bs (k ∷ cs) x) (last_of-past bs cs x k)

pub last_of_above :
    (k a : ℕ) (cs : List ℕ) → All (λ j. k < j) (a ∷ cs) → is_limit (last_of (a ∷ cs)) k ≡ false
unfolding last_of
last_of_above k a [] h = ground (arith, h.0)
last_of_above k a (c ∷ cs) h = last_of_above k c cs h.1

last_of-place :
    (bs cs : List ℕ) (x k : ℕ)
    → Sorted (bs ++ k ∷ cs)
    → (if is_limit (last_of (bs ++ k ∷ cs)) k then some x else last_of (bs ++ k ∷ cs))
      ≡ last_of (bs ++ k ∷ x ∷ cs)
unfolding last_of
last_of-place [] [] x k h = rw (==_self k) refl
last_of-place [] (a ∷ cs) x k h = rw (last_of_above k a cs h.0) refl
last_of-place (b ∷ bs) cs x k h =
    rw (last_of_cons b bs cs k, last_of_cons b bs (x ∷ cs) k) (last_of-place bs cs x k h.1)

middle : (bs ks cs : List ℕ) (k : ℕ) → (bs ++ (ks ++ k ∷ [])) ++ cs ≡ (bs ++ ks) ++ k ∷ cs
middle bs ks cs k = simp append_assoc

-- What one insertion returns: the invariant, and the elements with `x` at its place.
pub record Inserted (xs : List ℕ) (r : Option RbRep) : Type 0 where
  pub rep : RbRep
  pub result : r ≡ some rep
  pub is_tree : IsRbTree rep.root
  pub elements : inorder rep.root ≡ xs
  pub first_head : rep.first ≡ head xs
  pub last_end : rep.last ≡ last_of xs

insert_commit-Inserted :
    (x : ℕ) (path : List Frame) (t : RbRep)
    → Fits 0 path
    → Sorted (before path ++ after path)
    → t.first ≡ head (before path ++ after path)
    → t.last ≡ last_of (before path ++ after path)
    → Inserted (before path ++ x ∷ after path) (insert_commit x path t)
unfolding insert_commit head last_of is_red
insert_commit-Inserted x [] t f o hf hl = record {
  rep = _;
  result = refl;
  is_tree = record { rules = (tt, tt, refl); root_black = refl };
  elements = refl;
  first_head = refl;
  last_end = refl;
}
insert_commit-Inserted x (frame false c k s ∷ path) t f o hf hl =
    let up =
      flip_up-Restored (frame false c k s ∷ path) x 0 null null (tt, tt, refl, refl, refl) refl f in
    rw up.result (record {
      rep = _;
      result = refl;
      is_tree = up.is_tree;
      elements = rw up.elements (simp (append_assoc, append-nil));
      first_head = rw hf (
          rw (append-nil (before path)) (
            head-place (before path) (inorder s ++ after path) x k
              (rw (append-nil (before path)) at o)));
      last_end = rw hl (
          rw (append-nil (before path)) (last_of-past (before path) (inorder s ++ after path) x k));
    })
insert_commit-Inserted x (frame true c k s ∷ path) t f o hf hl =
    let up =
      flip_up-Restored (frame true c k s ∷ path) x 0 null null (tt, tt, refl, refl, refl) refl f in
    rw up.result (record {
      rep = _;
      result = refl;
      is_tree = up.is_tree;
      elements = rw up.elements (simp (append_assoc, append-nil));
      first_head = rw hf (
          simp (sym (append_assoc (before path) (inorder s) (k ∷ [])))
            (head-past (before path ++ inorder s) (after path) x k));
      last_end = rw hl (
          rw
            (
              middle (before path) (inorder s) (after path) k,
              middle (before path) (inorder s) (x ∷ after path) k,
            )
            (last_of-place (before path ++ inorder s) (after path) x k
              (subst Sorted (middle (before path) (inorder s) (after path) k) o)));
    })

pub insert-Inserted :
    (x : ℕ) (t : RbRep) → IsRbRep t → Inserted (insert_sorted x (inorder t.root)) (insert x t)
unfolding insert unwind
insert-Inserted x t h =
    let path = descend x t.root [] in
    let whole : before path ++ after path ≡ inorder t.root =
      ap (λ xs. xs ++ after path) (sym (append-nil (before path)))
      ∙ sym (unwind-inorder path null)
      ∙ ap inorder (descend-unwind x t.root []) in
    let done =
      insert_commit-Inserted x path t
        (descend-Fits x t.root [] h.tree.rules tt (λ v. ground (arith, h.tree.root_black, v)))
        (rw whole h.ordered) (rw whole h.first_head) (rw whole h.last_end) in
    subst (λ xs. Inserted xs (insert_commit x path t))
      (descend-inorder x t.root [] h.ordered ∙ append-nil (insert_sorted x (inorder t.root))) done

-- Inserting an element that is not in the tree never fails: a red-black tree stays one, with the
-- elements in strictly increasing order, the new one among them, and the ends at the two limits.
pub insert-IsRbRep :
    (x : ℕ) (t : RbRep)
    → IsRbRep t
    → All (λ k. k ≢ x) (inorder t.root)
    → (t' : RbRep) × (insert x t ≡ some t')
      × IsRbRep t'
      × (inorder t'.root ≡ insert_sorted x (inorder t.root))
insert-IsRbRep x t h absent =
    let done = insert-Inserted x t h in
    (
      done.rep,
      done.result,
      record {
        tree = done.is_tree;
        ordered =
            subst Sorted (sym done.elements)
              (insert_sorted-Sorted x (inorder t.root) h.ordered absent);
        first_head = done.first_head ∙ ap head (sym done.elements);
        last_end = done.last_end ∙ ap last_of (sym done.elements);
      },
      done.elements,
    )
