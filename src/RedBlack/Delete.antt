-- ===== src/RedBlack/Delete.antt =====
-- RBTreeInternal.hh: `erase`, `delete_node` and `delete_node_fixup`.
use sto_layout.Base.{
  ℕ, Bool, true, false, not, ◌&&◌, if◌then◌else◌, ltb, ◌==◌, ◌>>=◌, Option, none, some, List, [],
  ◌∷◌,
}
use sto_layout.RedBlack.{
  Color, red, black, RbTree, null, node, Frame, frame, RbRep, is_red, make_black, plug, rotate,
  unwind, is_limit,
}

-- The place of a node: its parents, the innermost first, and the subtree under it.
abbrev pub Place : Type 0
Place = List Frame × RbTree

-- One step down on a side.
unfoldable pub step_down : Bool → Place → Option Place
step_down side (path, null) = none
step_down false (path, node c k l r) = some (frame false c k r ∷ path, l)
step_down true (path, node c k l r) = some (frame true c k l ∷ path, r)

-- The place of an element, which the code has as a pointer.
unfoldable pub locate : ℕ → RbTree → List Frame → Option Place
locate x null path = none
locate x (node c k l r) path =
    if x == k
    then some (path, node c k l r)
    else if ltb k x
    then locate x r (frame true c k l ∷ path)
    else locate x l (frame false c k r ∷ path)

unfoldable pub make_red : RbTree → RbTree
make_red null = null
make_red (node c k l r) = node red k l r

abbrev pub child : Bool → RbTree → RbTree
child side null = null
child false (node c k l r) = l
child true (node c k l r) = r

-- Whether both children are black; none for the null sibling, which the code would dereference.
unfoldable pub children_black : RbTree → Option Bool
children_black null = none
children_black (node c k l r) = some (not (is_red l) && not (is_red r))

unfoldable pub blacken_children : RbTree → RbTree
blacken_children null = null
blacken_children (node c k l r) = node c k (make_black l) (make_black r)

-- The rotations at a black sibling with a red child.
unfoldable pub fix_rotate : Frame → RbTree → Option RbTree
unfolding rotate plug is_red blacken_children
fix_rotate (frame side c k w) t = do
  w' ← (if is_red (child (not side) w) then some w else rotate (not side) w)
  z ← rotate side (plug (frame side c k w') t)
  some (blacken_children z)

-- The end of `delete_node_fixup` at a parent whose other child `w` is black.
unfoldable pub fix_here : RbTree → List Frame → Option RbTree
unfolding children_black
fix_here t [] = none
fix_here t (frame side c k w ∷ path) = do
  both ← children_black w
  if both
      then some (make_black (unwind path (plug (frame side black k (make_red w)) t)))
      else (do z ← fix_rotate (frame side c k w) t; some (make_black (unwind path z)))

-- A red sibling comes up first; the place is then further down the tree.
unfoldable pub fix_red_sibling : RbTree → List Frame → Option RbTree
unfolding fix_here
fix_red_sibling t [] = none
fix_red_sibling t (frame side c k w ∷ path) = do
  z ← rotate side (plug (frame side black k w) t)
  p ← step_down side (path, z)
  hole ← step_down side p
  fix_here hole.1 hole.0

-- `delete_node_fixup` where the subtree `t` has one black node too few.
unfoldable pub delete_node_fixup : RbTree → List Frame → Option RbTree
unfolding children_black
delete_node_fixup t [] = some (make_black t)
delete_node_fixup t (frame side c k w ∷ path) =
    if is_red t
    then some (make_black (unwind path (plug (frame side c k w) (make_black t))))
    else if is_red w
    then fix_red_sibling t (frame side c k w ∷ path)
    else (do
      both ← children_black w
      if both
          then delete_node_fixup (plug (frame side c k (make_red w)) t) path
          else fix_here t (frame side c k w ∷ path))

-- `edge_node` from an element and its child on the side, down that side.
unfoldable pub edge_node : Bool → ℕ → RbTree → ℕ
edge_node side b null = b
edge_node false b (node c k l r) = edge_node false k l
edge_node true b (node c k l r) = edge_node true k r

-- The new limit on a side once `x` hangs in the victim's place: from `x`, or from the parent.
unfoldable pub new_limit : Bool → RbTree → List Frame → Option ℕ
unfolding edge_node
new_limit i (node c k l r) path = some (edge_node i k (child i (node c k l r)))
new_limit i null [] = none
new_limit i null (frame side c k s ∷ path) =
    some (edge_node i k (child i (plug (frame side c k s) null)))

abbrev pub is_red_pointer : Color → List Frame → Bool
is_red_pointer red (f ∷ path) = true
is_red_pointer c path = false

-- The victim at a place where it has one child at most: splice it out, and mend the limits and colors.
unfoldable pub splice : ℕ → Color → RbTree → List Frame → RbRep → Option RbRep
unfolding delete_node_fixup new_limit
splice victim color x path t = do
  root' ←
      (if is_red_pointer color path
        then some (make_black (unwind path x))
        else delete_node_fixup x path)
  some (record {
    root = root';
    first = if is_limit t.first victim then new_limit false x path else t.first;
    last = if is_limit t.last victim then new_limit true x path else t.last;
  })

-- The leftmost node under a node, with the parents on the way and its right child.
unfoldable pub leftmost : List Frame → Color → ℕ → RbTree → RbTree → List Frame × Color × RbTree
leftmost path c k null r = (path, c, r)
leftmost path c k (node d j a b) r = leftmost (frame false c k r ∷ path) d j a b

-- `delete_node`. A victim with two children changes its place with its successor.
unfoldable pub delete_node : List Frame → RbTree → RbRep → Option RbRep
unfolding splice leftmost edge_node
delete_node path null t = none
delete_node path (node c k null r) t = splice k c r path t
delete_node path (node c k l null) t = splice k c l path t
delete_node path (node c k l (node d j a b)) t =
    let below = leftmost (frame true c (edge_node false j a) l ∷ path) d j a b in
    splice k below.1 below.2 below.0 t

unfoldable pub erase : ℕ → RbRep → Option RbRep
unfolding locate delete_node
erase x t = do place ← locate x t.root []; delete_node place.0 place.1 t
