-- ===== src/RedBlack.antt =====
-- RBTreeInternal.hh: the red-black tree `rbtree`, its links, its insertion, its searches and `check`.
-- An element is the number of its place in the order of `node_compare`, which no two nodes share. The
-- color of a node is that of the pointer to it, and a parent pointer is the path back to the root.
pub mod Order
pub mod Balance
mod Insert
pub mod Limits
pub mod Find
pub mod Height
pub mod Check
pub mod Step
pub mod Calls
pub mod Delete
mod Fixup
mod FixupLoop
mod Ends
mod Splice
pub mod Erase
use sto_layout.Base.{
  ◌>>=◌, ℕ, suc, ◌+◌, Bool, true, false, not, ◌&&◌, if◌then◌else◌, ltb, ◌==◌, Option, none, some,
  List, [], ◌∷◌,
}

pub data Color : Type 0 where
  red : Color
  black : Color

pub data RbTree : Type 0 where
  null : RbTree
  node : Color → ℕ → RbTree → RbTree → RbTree

-- A parent: the side its child hangs on, its color, its element and its other child.
pub data Frame : Type 0 where
  frame : Bool → Color → ℕ → RbTree → Frame

-- `rbrep`: the root, and the leftmost and the rightmost element.
pub record RbRep : Type 0 where
  pub root : RbTree
  pub first : Option ℕ
  pub last : Option ℕ

abbrev pub new : RbRep
new = record { root = null; first = none; last = none }

unfoldable pub is_red : RbTree → Bool
is_red null = false
is_red (node red k l r) = true
is_red (node black k l r) = false

abbrev pub is_red_frame : Frame → Bool
is_red_frame (frame side red k s) = true
is_red_frame (frame side black k s) = false

-- `change_color(false)`; the root's pointer has no color.
unfoldable pub make_black : RbTree → RbTree
make_black null = null
make_black (node c k l r) = node black k l r

unfoldable pub reverse_color : RbTree → RbTree
reverse_color null = null
reverse_color (node red k l r) = node black k l r
reverse_color (node black k l r) = node red k l r

-- `set_child` at a parent.
unfoldable pub plug : Frame → RbTree → RbTree
plug (frame false c k s) t = node c k t s
plug (frame true c k s) t = node c k s t

-- `rbnodeptr::rotate(side)`: the child on the other side comes up. None where there is no such child.
unfoldable pub rotate : Bool → RbTree → Option RbTree
rotate false (node c k l (node d x m r)) = some (node c x (node red k l m) r)
rotate true (node c k (node d x l m) r) = some (node c x l (node red k m r))
rotate side t = none

-- `rbnodeptr::flip`.
unfoldable pub flip : RbTree → Option RbTree
flip (node c k (node d x a b) (node e y m n)) =
    some (reverse_color (node c k (reverse_color (node d x a b)) (reverse_color (node e y m n))))
flip t = none

-- The whole tree from a subtree and its parents, the innermost first.
unfoldable pub unwind : List Frame → RbTree → RbTree
unwind [] t = t
unwind (f ∷ path) t = unwind path (plug f t)

-- The loop of `insert` down to the place of `x`.
unfoldable pub descend : ℕ → RbTree → List Frame → List Frame
descend x null path = path
descend x (node c k l r) path =
    if ltb k x
    then descend x r (frame true c k l ∷ path)
    else descend x l (frame false c k r ∷ path)

abbrev is_side : Bool → Bool → Bool
is_side side gpside = if side then gpside else not gpside

-- A red parent with a black sibling: one or two rotations at the grandparent.
unfoldable pub rotate_up : Frame → Frame → RbTree → Option RbTree
unfolding plug rotate
rotate_up (frame side c k s) (frame gpside d g u) t = do
  let p = plug (frame side c k s) t
  p' ← (if is_side side gpside then some p else rotate gpside p)
  rotate (not gpside) (plug (frame gpside d g u) p')

-- The loop of `insert_commit` from the red subtree `t`. None where a grandparent is missing.
unfoldable pub flip_up : RbTree → List Frame → Option RbTree
unfolding flip
flip_up t [] = some (make_black t)
flip_up t (frame side black k s ∷ path) = some (make_black (unwind (frame side black k s ∷ path) t))
flip_up t (frame side red k s ∷ []) = none
flip_up t (frame side red k s ∷ frame gpside d g u ∷ path) =
    if is_red u
    then (do z ← flip (plug (frame gpside d g u) (plug (frame side red k s) t)); flip_up z path)
    else (do
      z ← rotate_up (frame side red k s) (frame gpside d g u) t
      some (make_black (unwind path z)))

abbrev is_limit : Option ℕ → ℕ → Bool
is_limit none k = false
is_limit (some b) k = k == b

abbrev pub is_empty : Option ℕ → Bool
is_empty none = true
is_empty (some b) = false

-- `insert_commit` at the place `path` leads to.
unfoldable pub insert_commit : ℕ → List Frame → RbRep → Option RbRep
unfolding flip_up
insert_commit x [] t =
    some (record { root = node black x null null; first = some x; last = some x })
insert_commit x (frame side c k s ∷ path) t = do
  root' ← flip_up (node red x null null) (frame side c k s ∷ path)
  some (record {
    root = root';
    first = if not side && is_limit t.first k then some x else t.first;
    last = if side && is_limit t.last k then some x else t.last;
  })

unfoldable pub insert : ℕ → RbRep → Option RbRep
unfolding insert_commit descend
insert x t = insert_commit x (descend x t.root []) t

-- `rbnodeptr::size`.
unfoldable pub size : RbTree → ℕ
size null = 0
size (node c k l r) = 1 + size l + size r

-- `rbnodeptr::check` of the node at a place: its order with the parent, the colors, and the ends of the
-- tree on the left and on the right spine. The parent comes with the side of the node.
abbrev pub in_order : Option (Bool × ℕ) → ℕ → Bool
in_order none k = true
in_order (some (false, parent)) k = ltb k parent
in_order (some (true, parent)) k = ltb parent k

abbrev pub at_end : Option ℕ → ℕ → RbTree → Bool
at_end none k t = true
at_end (some e) k null = e == k
at_end (some e) k (node c j l r) = true

abbrev pub colors_ok : Color → RbTree → RbTree → Bool
colors_ok red l r = not (is_red l) && not (is_red r)
colors_ok black l r = true

abbrev pub count_black : Color → ℕ → ℕ
count_black red n = n
count_black black n = suc n

-- The black height found so far, none at first; none of it all where an assertion fails.
unfoldable pub check_node :
    Option (Bool × ℕ) → ℕ → Option ℕ → Option ℕ → Option ℕ → RbTree → Option (Option ℕ)
check_node parent this_height none begin end null = some (some this_height)
check_node parent this_height (some black_height) begin end null =
    if black_height == this_height then some (some black_height) else none
check_node parent this_height black_height begin end (node c k l r) = do
  let sound = in_order parent k && colors_ok c l r && at_end begin k l && at_end end k r
  left ← check_node (some (false, k)) (count_black c this_height) black_height begin none l
  right ← check_node (some (true, k)) (count_black c this_height) left none end r
  if sound then some right else none

-- `rbtree::check`: the black height, none inside where the tree is empty.
unfoldable pub check_tree : RbTree → Option ℕ → Option ℕ → Option (Option ℕ)
unfolding check_node
check_tree null begin end = if is_empty begin && is_empty end then some none else none
check_tree (node c k l r) begin end = check_node none 0 none begin end (node c k l r)

unfoldable pub check : RbRep → Option (Option ℕ)
unfolding check_tree
check t = check_tree t.root t.first t.last

-- What a search returns: the node found or the parent of the place, and the boundary nodes. The
-- versions that the code reads beside each node are left out.
pub record Found : Type 0 where
  pub retnode : Option ℕ
  pub found : Bool
  pub boundary_left : Option ℕ
  pub boundary_right : Option ℕ

unfoldable pub find_loop : ℕ → RbTree → Option ℕ → Option ℕ → Option ℕ → Found
find_loop key null p lhs rhs = record {
  retnode = p;
  found = false;
  boundary_left = lhs;
  boundary_right = rhs;
}
find_loop key (node c k l r) p lhs rhs =
    if key == k
    then record { retnode = some k; found = true; boundary_left = lhs; boundary_right = rhs }
    else if ltb k key
    then find_loop key r (some k) (some k) rhs
    else find_loop key l (some k) lhs (some k)

unfoldable pub find_any : ℕ → RbRep → Found
unfolding find_loop
find_any key t = find_loop key t.root none t.first t.last

-- `find_insert`: a missing key becomes a node at the place the search ended. Beside whether the key was
-- there and the boundary, the result has the node of the key; the parent of a new node is left out.
unfoldable pub find_insert : ℕ → RbRep → Option (RbRep × Found)
unfolding find_any insert_commit descend
find_insert key t =
    let f = find_any key t in
    if f.found then some (t, f) else (do
      t' ← insert_commit key (descend key t.root []) t
      some (t', record f { retnode = some key }))
