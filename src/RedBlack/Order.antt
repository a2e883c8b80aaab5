-- ===== src/RedBlack/Order.antt =====
-- The elements of the tree from left to right: rotations and flips keep them, an insertion adds one.
use sto_layout.Base.Sorted.{
  Sorted, insert_sorted, insert_sorted_past, insert_sorted_left, Sorted-IsSplit,
}
use sto_layout.Base.{
  ℕ, ◌≡◌, refl, true, false, List, [], ◌∷◌, ◌++◌, append_assoc, append-nil, arith, ltb, All-map,
  ltb→lt, Bool-cases, inl, inr,
}
use sto_layout.RedBlack.{
  RbTree, null, node, red, black, Frame, frame, make_black, reverse_color, plug, unwind, descend,
}

abbrev pub inorder : RbTree → List ℕ
inorder null = []
inorder (node c k l r) = inorder l ++ k ∷ inorder r

abbrev pub left_of : Frame → List ℕ
left_of (frame false c k s) = []
left_of (frame true c k s) = inorder s ++ k ∷ []

abbrev pub right_of : Frame → List ℕ
right_of (frame false c k s) = k ∷ inorder s
right_of (frame true c k s) = []

-- The elements on either side of the place a path leads to.
abbrev pub before : List Frame → List ℕ
before [] = []
before (f ∷ path) = before path ++ left_of f

abbrev pub after : List Frame → List ℕ
after [] = []
after (f ∷ path) = right_of f ++ after path

pub make_black-inorder : (t : RbTree) → inorder (make_black t) ≡ inorder t
unfolding make_black
make_black-inorder null = refl
make_black-inorder (node c k l r) = refl

reverse_color-inorder : (t : RbTree) → inorder (reverse_color t) ≡ inorder t
unfolding reverse_color
reverse_color-inorder null = refl
reverse_color-inorder (node red k l r) = refl
reverse_color-inorder (node black k l r) = refl

pub plug-inorder :
    (f : Frame) (t : RbTree) → inorder (plug f t) ≡ left_of f ++ inorder t ++ right_of f
unfolding plug
plug-inorder (frame false c k s) t = refl
plug-inorder (frame true c k s) t = simp (append_assoc, append-nil)

pub unwind-inorder :
    (path : List Frame) (t : RbTree)
    → inorder (unwind path t) ≡ before path ++ inorder t ++ after path
unfolding unwind
unwind-inorder [] t = simp append-nil
unwind-inorder (f ∷ path) t = simp (unwind-inorder path, plug-inorder, append_assoc)

-- The place the descent ends at is the place of `x` in the order.
pub descend-inorder :
    (x : ℕ) (t : RbTree) (path : List Frame)
    → Sorted (inorder t)
    → before (descend x t path) ++ x ∷ after (descend x t path)
      ≡ before path ++ insert_sorted x (inorder t) ++ after path
unfolding descend insert_sorted
descend-inorder x null path h = simp append_assoc
descend-inorder x (node c k l r) path h =
    let split = Sorted-IsSplit (inorder l) k (inorder r) h in
    elim (Bool-cases (ltb k x)) [
      | inl e ↦
          rw (e, descend-inorder x r (frame true c k l ∷ path) split.right)
            (simp (
              insert_sorted_past x (inorder l) (k ∷ inorder r)
                  (All-map (λ j p. omega (arith, ltb→lt k x e, p)) (inorder l) split.below),
              e,
              append_assoc,
            ))
      | inr e ↦
          rw (e, descend-inorder x l (frame false c k r ∷ path) split.left)
            (simp (insert_sorted_left x k (inorder l) (inorder r) (ground arith), append_assoc))
    ]

-- The loop of `insert_commit` keeps the elements in their order.
pub make_black-unwind-inorder :
    (path : List Frame) (t : RbTree)
    → inorder (make_black (unwind path t)) ≡ before path ++ inorder t ++ after path
make_black-unwind-inorder path t = rw (make_black-inorder (unwind path t)) (unwind-inorder path t)
