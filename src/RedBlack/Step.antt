-- ===== src/RedBlack/Step.antt =====
-- RBTreeInternal.hh: `rbalgorithms::step_node`, with `next_node` and `prev_node`, go through the order.
use sto_layout.Base.{
  ℕ, ◌≡◌, refl, sym, ◌∙◌, ap, Bool, true, false, not, Option, none, some, List, [], ◌∷◌, ◌++◌,
  append_assoc, append-nil,
}
use sto_layout.RedBlack.{Color, RbTree, null, node, Frame, frame, unwind}
use sto_layout.RedBlack.Order.{inorder, before, after, unwind-inorder}
use sto_layout.RedBlack.Limits.{head, last_of, last_of_suffix}
use sto_layout.RedBlack.Delete.{Place, edge_node, child}
use sto_layout.RedBlack.Ends.{first_edge, last_edge}

-- Up to the first parent whose child on the side `!forward` the way comes from.
unfoldable climb : Bool → List Frame → Option ℕ
climb forward [] = none
climb false (frame false c k s ∷ path) = climb false path
climb false (frame true c k s ∷ path) = some k
climb true (frame true c k s ∷ path) = climb true path
climb true (frame false c k s ∷ path) = some k

unfoldable step_from : Bool → List Frame → RbTree → Option ℕ
unfolding climb edge_node
step_from forward path null = climb forward path
step_from forward path (node d j a b) =
    some (edge_node (not forward) j (child (not forward) (node d j a b)))

unfoldable pub step_node : Bool → Place → Option ℕ
unfolding step_from
step_node forward p = step_from forward p.0 (child forward p.1)

abbrev pub next_node : Place → Option ℕ
next_node = step_node true

abbrev pub prev_node : Place → Option ℕ
prev_node = step_node false

climb-after : (path : List Frame) → climb true path ≡ head (after path)
unfolding climb head
climb-after [] = refl
climb-after (frame true c k s ∷ path) = climb-after path
climb-after (frame false c k s ∷ path) = refl

climb-before : (path : List Frame) → climb false path ≡ last_of (before path)
unfolding climb last_of
climb-before [] = refl
climb-before (frame false c k s ∷ path) =
    climb-before path ∙ ap last_of (sym (append-nil (before path)))
climb-before (frame true c k s ∷ path) =
    sym (last_of_suffix (before path ++ inorder s) k [])
    ∙ ap last_of (append_assoc (before path) (inorder s) (k ∷ []))

step_right :
    (path : List Frame) (r : RbTree) → step_from true path r ≡ head (inorder r ++ after path)
unfolding step_from
step_right path null = climb-after path
step_right path (node d j a b) =
    sym (first_edge j a (inorder b ++ after path))
    ∙ ap head (sym (append_assoc (inorder a) (j ∷ inorder b) (after path)))

step_left :
    (path : List Frame) (l : RbTree) → step_from false path l ≡ last_of (before path ++ inorder l)
unfolding step_from
step_left path null = climb-before path ∙ ap last_of (sym (append-nil (before path)))
step_left path (node d j a b) =
    sym (last_edge j b (before path ++ inorder a))
    ∙ ap last_of (append_assoc (before path) (inorder a) (j ∷ inorder b))

-- At every node of a tree, with `l` and `r` under it and the parents `path`: the elements of the whole
-- tree are those before the node, its own and those after it; `next_node` is the first of those after
-- it, `prev_node` the last of those before it, and null where there are none.
pub step_node_lem :
    (path : List Frame) (c : Color) (k : ℕ) (l r : RbTree)
    → (inorder (unwind path (node c k l r))
        ≡ (before path ++ inorder l) ++ k ∷ (inorder r ++ after path))
      × (next_node (path, node c k l r) ≡ head (inorder r ++ after path))
      × (prev_node (path, node c k l r) ≡ last_of (before path ++ inorder l))
unfolding step_node
step_node_lem path c k l r = (
  rw (unwind-inorder path (node c k l r)) (simp append_assoc),
  step_right path r,
  step_left path l,
)
