-- ===== src/Treelet.antt =====
-- layoutLock/GlobalLockTree.hh: a search tree under one lock, the leaf of the layout tree. The key 0 at
-- the root says that the tree is empty. `search`, `insert` and `remove` are called with the lock
-- held and release it. The lock is the test-and-set word of layoutLock/common/locks.hh.
pub mod Spec
pub mod Insert
pub mod Remove
pub mod Range
use sto_layout.Base.{
  ℕ, ◌+◌, ◌-◌, ◌/◌, Bool, true, false, Option, none, some, List, [], ◌∷◌, ◌++◌, ◌==◌, ltb,
  if◌then◌else◌, get_or,
}
use sto_layout.Tree
use sto_layout.Tree.{Tree, nil, node, Entry}

-- `INVALID_KEY_SMALL`
abbrev pub invalid_key : ℕ
invalid_key = 0

abbrev pub locked : ℕ
locked = 0xABD

abbrev pub unlocked : ℕ
unlocked = 0xABC

-- `tas`: the word after the exchange, and whether it was locked before.
unfoldable pub tas : ℕ → ℕ × Bool
tas lock = (locked, lock == locked)

pub record Treelet : Type 0 where
  pub lock : ℕ
  pub key : ℕ
  pub obj : ℕ  -- `data`
  pub left : Tree
  pub right : Tree

unfoldable pub release : Treelet → Treelet
release t = record t { lock = unlocked }

-- A call that has changed one of the two trees, and the release that follows it.
unfoldable pub put_left : Treelet → Tree × Bool → Treelet × Bool
unfolding release
put_left t (l, res) = (release (record t { left = l }), res)

unfoldable pub put_right : Treelet → Tree × Bool → Treelet × Bool
unfolding release
put_right t (r, res) = (release (record t { right = r }), res)

unfoldable pub search : ℕ → Treelet → Treelet × Bool
unfolding release
search key t =
    let res =
      if key == t.key
      then true
      else if ltb key t.key
      then Tree.search key t.left
      else Tree.search key t.right in
    (release t, res)

unfoldable pub insert : ℕ → Treelet → Treelet × Bool
unfolding release put_left put_right
insert key t =
    if t.key == invalid_key
    then (release (record t { key = key }), true)
    else if t.key == key
    then (release t, false)
    else if ltb key t.key
    then put_left t (Tree.insert key t.left)
    else put_right t (Tree.insert key t.right)

-- The branch of `remove` where the key is at the root and the right tree has no least node.
unfoldable pub shift_left : Treelet → Tree → Treelet
shift_left t nil = record t { key = invalid_key }
shift_left t (node k o l r) = record t { key = k; obj = o; right = r; left = l }

-- The branch where the key is at the root, on the result of `right.removeMin`.
unfoldable pub refill_root : Treelet → Option (Entry × Tree) → Treelet
unfolding shift_left
refill_root t none = shift_left t t.left
refill_root t (some (e, rest)) = record t { key = e.key; obj = e.obj; right = rest }

unfoldable pub remove : ℕ → Treelet → Treelet × Bool
unfolding release put_left put_right refill_root
remove key t =
    if ltb key t.key
    then put_left t (Tree.remove key t.left)
    else if ltb t.key key
    then put_right t (Tree.remove key t.right)
    else (release (refill_root t (Tree.remove_min t.right)), true)

unfoldable pub add_items : Treelet → List ℕ → List ℕ × ℕ
add_items t v =
    if t.key == invalid_key
    then (v, 0)
    else let (v₁, l) = Tree.add_items t.left v in
      let (v₂, r) = Tree.add_items t.right (v₁ ++ t.key ∷ []) in (v₂, l + r + 1)

unfoldable pub destroy : Treelet → Treelet
destroy t = record t { left = nil; right = nil }

unfoldable pub is_empty : Treelet → Bool
is_empty t = t.key == invalid_key

unfoldable pub size : Treelet → ℕ
size t = if t.key == invalid_key then 0 else Tree.size t.left + 1 + Tree.size t.right

-- The constructor without arguments; `NoLockHelper(0)` is an empty tree.
unfoldable pub new : Treelet
new = record {
  lock = unlocked;
  key = invalid_key;
  obj = 0;
  left = Tree.build_level 0 0;
  right = Tree.build_level 0 0;
}

-- The constructor from the elements of a sorted vector at positions `b` to `e`.
unfoldable pub from_range : List ℕ → ℕ → ℕ → Treelet
from_range v b e =
    let mid = b + (e - b) / 2 in
    record {
      lock = unlocked;
      key = if e - b == 0 then invalid_key else get_or v mid 0;
      obj = 0;
      left = Tree.build_range (e - b) v b mid;
      right = Tree.build_range (e - b) v (mid + 1) e;
    }
