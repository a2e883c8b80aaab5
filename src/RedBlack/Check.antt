-- ===== src/RedBlack/Check.antt =====
-- `check` accepts every tree with the invariant.
use sto_layout.Base.Sorted.{Sorted, All-right, Sorted-IsSplit}
use sto_layout.Base.{
  ℕ, ◌+◌, ◌≡◌, ◌⊎◌, inl, inr, refl, sym, ◌∙◌, ap, subst, Bool, true, false, Option, none, some,
  List, [], ◌∷◌, ◌++◌, arith, All, All-map,
}
use sto_layout.RedBlack.{
  Color, RbTree, null, node, red, black, RbRep, in_order, at_end, colors_ok, count_black,
  check_node, check, check_tree,
}
use sto_layout.RedBlack.Order.{inorder}
use sto_layout.RedBlack.Balance.{black_height, IsRedBlack}
use sto_layout.RedBlack.Limits.{head, last_of, last_of_suffix, IsRbRep}

-- What `begin` and `end` say: they are the first and the last of these elements.
abbrev StartsAt : Option ℕ → List ℕ → Type 0
StartsAt begin xs = (b : ℕ) → begin ≡ some b → head (xs ++ b ∷ []) ≡ some b

abbrev EndsAt : Option ℕ → List ℕ → Type 0
EndsAt end xs = (e : ℕ) → end ≡ some e → last_of (e ∷ xs) ≡ some e

StartsAt-left :
    (begin : Option ℕ) (xs ys : List ℕ) (k : ℕ) → StartsAt begin (xs ++ k ∷ ys) → StartsAt begin xs
unfolding head
StartsAt-left begin [] ys k h = λ b e. refl
StartsAt-left begin (x ∷ xs) ys k h = h

EndsAt-right : (end : Option ℕ) (xs ys : List ℕ) (k : ℕ) → EndsAt end (xs ++ k ∷ ys) → EndsAt end ys
unfolding last_of
EndsAt-right end xs [] k h = λ e w. refl
EndsAt-right end xs (y ∷ ys) k h = λ e w. sym (last_of_suffix (e ∷ xs) k (y ∷ ys)) ∙ h e w

at_begin :
    (begin : Option ℕ) (k : ℕ) (l : RbTree) (ys : List ℕ)
    → StartsAt begin (inorder l ++ k ∷ ys)
    → at_end begin k l ≡ true
unfolding head
at_begin none k l ys h = refl
at_begin (some b) k null ys h = ground (arith, h b refl)
at_begin (some b) k (node c j l r) ys h = refl

at_end_right :
    (end : Option ℕ) (k : ℕ) (r : RbTree) (xs : List ℕ)
    → EndsAt end (xs ++ k ∷ inorder r)
    → at_end end k r ≡ true
unfolding last_of
at_end_right none k r xs h = refl
at_end_right (some b) k null xs h = ground (arith, sym (last_of_suffix (b ∷ xs) k []) ∙ h b refl)
at_end_right (some b) k (node c j l r) xs h = refl

-- The black nodes above a child and below it make up those of the node.
count-left :
    (c : Color) (n k : ℕ) (l r : RbTree)
    → count_black c n + black_height l ≡ n + black_height (node c k l r)
count-left red n k l r = refl
count-left black n k l r = omega arith

colors : (c : Color) (k : ℕ) (l r : RbTree) → IsRedBlack (node c k l r) → colors_ok c l r ≡ true
colors red k l r h = rw (h.3, h.4) refl
colors black k l r h = refl

record Parts (c : Color) (k : ℕ) (l r : RbTree) : Type 0 where
  pub left : IsRedBlack l
  pub right : IsRedBlack r
  pub level : black_height l ≡ black_height r

parts : (c : Color) (k : ℕ) (l r : RbTree) → IsRedBlack (node c k l r) → Parts c k l r
parts red k l r h = record { left = h.0; right = h.1; level = h.2 }
parts black k l r h = record { left = h.0; right = h.1; level = h.2 }

check_node_passes :
    (parent : Option (Bool × ℕ)) (n : ℕ) (found begin end : Option ℕ) (t : RbTree)
    → IsRedBlack t
    → Sorted (inorder t)
    → All (λ k. in_order parent k ≡ true) (inorder t)
    → (found ≡ none) ⊎ (found ≡ some (n + black_height t))
    → StartsAt begin (inorder t)
    → EndsAt end (inorder t)
    → check_node parent n found begin end t ≡ some (some (n + black_height t))
unfolding check_node
check_node_passes parent n none begin end null h o a f b e = ap (λ m. some (some m)) (omega arith)
check_node_passes parent n (some m) begin end null h o a f b e = elim f [
  | inl none_found ↦ absurd (ground (arith, none_found))
  | inr same ↦ ground (arith, same)
]
check_node_passes parent n found begin end (node c k l r) h o a f b e =
    let split = Sorted-IsSplit (inorder l) k (inorder r) o in
    let part = parts c k l r h in
    let level = count-left c n k l r in
    let left =
      check_node_passes (some (false, k)) (count_black c n) found begin none l part.left split.left
        (All-map (λ j lt. ground (arith, lt)) (inorder l) split.below)
        (subst (λ m. (found ≡ none) ⊎ (found ≡ some m)) (sym level) f)
        (StartsAt-left begin (inorder l) (inorder r) k b) (λ j w. ground (arith, w)) in
    let right =
      check_node_passes (some (true, k)) (count_black c n) (some (count_black c n + black_height l))
        none end r part.right split.right
        (All-map (λ j lt. ground (arith, lt)) (inorder r) split.above)
        (inr (ap (λ m. some (count_black c n + m)) part.level)) (λ j w. ground (arith, w))
        (EndsAt-right end (inorder l) (inorder r) k e) in
    rw
      (
        left,
        right,
        (All-right _ (inorder l) (k ∷ inorder r) a).0,
        colors c k l r h,
        at_begin begin k l (inorder r) b,
        at_end_right end k r (inorder l) e,
      )
      (ap (λ m. some (some m)) (ap (λ m. count_black c n + m) (sym part.level) ∙ level))

-- The result of `check`: -1 in the code is none.
unfoldable pub height_of : RbTree → Option ℕ
height_of null = none
height_of (node c k l r) = some (black_height (node c k l r))

always : (xs : List ℕ) → All (λ k. in_order none k ≡ true) xs
always [] = tt
always (x ∷ xs) = (refl, always xs)

head_stays : (xs : List ℕ) (begin : Option ℕ) → begin ≡ head xs → StartsAt begin xs
unfolding head
head_stays [] begin h = λ b e. refl
head_stays (x ∷ xs) begin h = λ b e. sym h ∙ e

end_stays : (xs : List ℕ) (end : Option ℕ) → end ≡ last_of xs → EndsAt end xs
unfolding last_of
end_stays [] end h = λ b e. refl
end_stays (x ∷ xs) end h = λ b e. sym h ∙ e

check_tree_passes :
    (t : RbTree) (begin end : Option ℕ)
    → IsRedBlack t
    → Sorted (inorder t)
    → begin ≡ head (inorder t)
    → end ≡ last_of (inorder t)
    → check_tree t begin end ≡ some (height_of t)
unfolding check_tree height_of head last_of
check_tree_passes null begin end h o b e = rw (b, e) refl
check_tree_passes (node c k l r) begin end h o b e =
    check_node_passes none 0 none begin end (node c k l r) h o (always (inorder (node c k l r)))
      (inl refl) (head_stays (inorder (node c k l r)) begin b)
      (end_stays (inorder (node c k l r)) end e)
    ∙ ap (λ m. some (some m)) (omega arith)

-- `check` passes on every tree with the invariant: no assertion in it fails. It returns the number of
-- black nodes that every path of the tree has, none for the empty tree.
pub check-IsRbRep : (t : RbRep) → IsRbRep t → check t ≡ some (height_of t.root)
unfolding check
check-IsRbRep t h =
    check_tree_passes t.root t.first t.last h.tree.rules h.ordered h.first_head h.last_end
