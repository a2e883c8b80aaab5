-- ===== src/Tree.antt =====
-- layoutLock/NoLockTree.hh, `NoLockHelper`: an unbalanced binary search tree.
--
-- A node is owned by the one pointer that leads to it, so a tree of nodes is a data type, and a loop
-- that walks down and writes through `pcur` is a recursion that rebuilds the path. A null pointer is
-- `nil`, and the address 0 in `obj`.
pub mod Spec
pub mod Insert
pub mod Remove
pub mod Build
use sto_layout.Base.{
  ℕ, zero, suc, ◌+◌, ◌-◌, ◌*◌, ◌/◌, ◌%◌, ◌^◌, Bool, true, false, Option, none, some, List, [], ◌∷◌,
  ◌++◌, ◌==◌, ltb, leb, if◌then◌else◌, get_or,
}

pub data Tree : Type 0 where
  nil : Tree
  node : (key obj : ℕ) (left right : Tree) → Tree

unfoldable pub search : ℕ → Tree → Bool
search key nil = false
search key (node k o l r) =
    let below = search key l in
    let above = search key r in if key == k then true else if ltb key k then below else above

-- `new node()` with no children and no object
abbrev pub get_new_node : ℕ → Tree
get_new_node key = node key 0 nil nil

unfoldable pub insert : ℕ → Tree → Tree × Bool
insert key nil = (get_new_node key, true)
insert key (node k o l r) =
    let below = insert key l in
    let above = insert key r in
    if key == k
    then (node k o l r, false)
    else if ltb key k
    then (node k o below.0 r, below.1)
    else (node k o l above.0, above.1)

-- `insert`, with `*ln` counting the steps of the walk.
unfoldable pub insert_gt_ln : ℕ → Tree → ℕ → Tree × Bool × ℕ
insert_gt_ln key nil ln = (get_new_node key, true, ln)
insert_gt_ln key (node k o l r) ln =
    let below = insert_gt_ln key l (ln + 1) in
    let above = insert_gt_ln key r (ln + 1) in
    if key == k
    then (node k o l r, false, ln)
    else if ltb key k
    then (node k o below.0 r, below.1, below.2)
    else (node k o l above.0, above.1, above.2)

-- A node that a walk to the left has disconnected: its key and its object.
pub record Entry : Type 0 where
  pub key : ℕ
  pub obj : ℕ

-- The walk to the leftmost node under a node, with `rprev->left = rcur->right` at its end: the leftmost
-- node, and the tree without it.
unfoldable pub detach_min : ℕ → ℕ → Tree → Tree → Entry × Tree
detach_min k o nil r = (record { key = k; obj = o }, r)
detach_min k o (node lk lo ll lr) r = let (e, rest) = detach_min lk lo ll lr in (e, node k o rest r)

unfoldable pub remove_min : Tree → Option (Entry × Tree)
unfolding detach_min
remove_min nil = none
remove_min (node k o l r) = some (detach_min k o l r)

-- `deleteNode` on a node with two children: the right child if that has no left child, or else the
-- leftmost node under it, takes the node's place.
unfoldable pub replace_node : Tree → ℕ → ℕ → Tree → Tree → Tree
unfolding detach_min
replace_node left rk ro nil rr = node rk ro left rr
replace_node left rk ro (node k o l r) rr =
    let (e, rest) = detach_min k o l r in node e.key e.obj left (node rk ro rest rr)

-- What `deleteNode` leaves in `*pcur`, for the node with these children.
unfoldable pub delete_node : Tree → Tree → Tree
unfolding replace_node
delete_node nil nil = nil
delete_node (node k o l r) nil = node k o l r
delete_node nil (node k o l r) = node k o l r
delete_node (node k o l r) (node rk ro rl rr) = replace_node (node k o l r) rk ro rl rr

unfoldable pub remove : ℕ → Tree → Tree × Bool
unfolding delete_node
remove key nil = (nil, false)
remove key (node k o l r) =
    let below = remove key l in
    let above = remove key r in
    if key == k
    then (delete_node l r, true)
    else if ltb key k
    then (node k o below.0 r, below.1)
    else (node k o l above.0, above.1)

-- `build(begin, end)` on positions `b` and `e` of a vector; the fuel bounds `e - b`.
unfoldable pub build_range : ℕ → List ℕ → ℕ → ℕ → Tree
build_range zero v b e = nil
build_range (suc f) v b e =
    let mid = b + (e - b) / 2 in
    let left = build_range f v b mid in
    let right = build_range f v (mid + 1) e in
    if leb e b then nil else node (get_or v mid 0) 0 left right

-- `build(i, first)`; the key is an `unsigned`.
unfoldable pub build_level : ℕ → ℕ → Tree
build_level zero first = nil
build_level (suc i) first =
    node ((first + 2 ^ suc i) % 2 ^ 32) 0 (build_level i first) (build_level i (first + 2 ^ suc i))

unfoldable pub size : Tree → ℕ
size nil = 0
size (node k o l r) = size l + 1 + size r

-- The vector after the call, and the number of items that it returns.
unfoldable pub add_items : Tree → List ℕ → List ℕ × ℕ
add_items nil v = (v, 0)
add_items (node k o l r) v =
    let (v₁, n₁) = add_items l v in let (v₂, n₂) = add_items r (v₁ ++ k ∷ []) in (v₂, n₁ + 1 + n₂)
