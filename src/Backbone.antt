-- ===== src/Backbone.antt =====
-- layoutLock/LayoutTree.hh: the backbone of 16-way nodes over the treelets, and its rebuilding.
--
-- A node is the heap-ordered array of its 15 keys and its 16 children. The items of a vector stand at
-- the positions of a list; the products of positions by 16 are taken to fit the `int` of the source.
-- A failed `assert` is `none`.
pub mod Search
pub mod Items
pub mod Asserts
pub mod Parts
pub mod Rebuild
pub mod Consolidate
use sto_layout.Base.{
  ℕ, zero, suc, ◌+◌, ◌-◌, ◌*◌, ◌/◌, ◌^◌, Bool, true, false, Option, none, some, List, [], ◌∷◌, ◌++◌,
  ◌==◌, ltb, if◌then◌else◌, get_or, not, ◌&&◌, ◌||◌, ◌>>=◌,
}
use sto_layout.Treelet
use sto_layout.Treelet.{Treelet}

mutual
  pub data Layout : Type 0 where
    leaf : Treelet → Layout
    inner : (keys : List ℕ) (next : Layouts) → Layout

  pub data Layouts : Type 0 where
    end : Layouts
    child : Layout → Layouts → Layouts

-- One step of `asmsearch`: `idx += idx + (key > keys[idx])`. The array that it is given begins with the
-- type word, so that `keys[idx]` is the node's key at `idx - 1`.
unfoldable pub descend : ℕ → List ℕ → ℕ → ℕ
descend key keys idx = idx + idx + (if ltb (get_or keys (idx - 1) 0) key then 1 else 0)

-- The four steps; children are numbered from 16 on.
unfoldable pub asm_search : ℕ → List ℕ → ℕ
unfolding descend
asm_search key keys = descend key keys (descend key keys (descend key keys (descend key keys 1)))

-- The loop of `getTreelet`: the treelet that a key belongs to.
mutual
  pub locate : ℕ → Layout → Option Treelet
  locate key (leaf t) = some t
  locate key (inner keys next) = locate_at key next (asm_search key keys - 16)

  pub locate_at : ℕ → Layouts → ℕ → Option Treelet
  locate_at key end i = none
  locate_at key (child t ts) zero = locate key t
  locate_at key (child t ts) (suc i) = locate_at key ts i

-- The key of `constructBigNode` for slot `i` of a level whose keys stand `2 * delta` sixteenths apart.
unfoldable pub big_key : List ℕ → ℕ → ℕ → ℕ → ℕ → ℕ
big_key v first len delta i =
    let idxx = (i * 2 + 1) * delta * len / 16 in
    if first + idxx == 0 then Treelet.invalid_key else get_or v (first + idxx - 1) 0

-- The inner loop, for the `n` slots of a level from `i` on.
unfoldable pub level_keys : List ℕ → ℕ → ℕ → ℕ → ℕ → ℕ → List ℕ
unfolding big_key
level_keys v first len delta zero i = []
level_keys v first len delta (suc n) i =
    big_key v first len delta i ∷ level_keys v first len delta n (i + 1)

-- The outer loop, with `rounds` levels to go from level `l` on.
unfoldable pub all_levels : List ℕ → ℕ → ℕ → ℕ → ℕ → ℕ → List ℕ
unfolding level_keys
all_levels v first len zero l delta = []
all_levels v first len (suc rounds) l delta =
    level_keys v first len delta (2 ^ l) 0 ++ all_levels v first len rounds (l + 1) (delta / 2)

unfoldable pub construct_big_node : List ℕ → ℕ → ℕ → List ℕ
unfolding all_levels
construct_big_node v first len = all_levels v first len 4 0 8

-- The position at which child `c` of a node over `first … first + len` begins.
abbrev pub cut : ℕ → ℕ → ℕ → ℕ
cut first len c = first + c * len / 16

-- `n` treelets over the ranges of the children from `c` on.
unfoldable pub treelets : List ℕ → ℕ → ℕ → ℕ → ℕ → Layouts
treelets v first len zero c = end
treelets v first len (suc n) c =
    child (leaf (Treelet.from_range v (cut first len c) (cut first len (c + 1))))
      (treelets v first len n (c + 1))

-- A new node over a range, its 16 children treelets.
unfoldable pub leaf_node : List ℕ → ℕ → ℕ → Layout
unfolding construct_big_node treelets
leaf_node v first len = inner (construct_big_node v first len) (treelets v first len 16 0)

-- `root->next[0]->keys.type != NORMAL_NODE`
abbrev pub over_treelets : Layouts → Bool
over_treelets (child (leaf t) ts) = true
over_treelets _ = false

-- The asserts of `expandLeafBigNode` on the range of its child `c`: the last grandchild ends where the child
-- does, and that of the last child where the whole range does.
unfoldable pub ends_ok : ℕ → ℕ → ℕ → Bool
ends_ok first len c =
    let firstc = cut first len c in
    let lastc = cut first len (c + 1) in
    let last = cut firstc (lastc - firstc) 16 in
    (last == lastc) && (not (c == 15) || last == first + len)

-- The outer loop of `expandLeafBigNode`.
unfoldable pub leaf_nodes : List ℕ → ℕ → ℕ → ℕ → ℕ → Option Layouts
unfolding leaf_node ends_ok
leaf_nodes v first len zero c = some end
leaf_nodes v first len (suc n) c =
    let firstc = cut first len c in
    let lastc = cut first len (c + 1) in
    let rest = leaf_nodes v first len n (c + 1) in
    if ends_ok first len c
    then (do ts ← rest; some (child (leaf_node v firstc (lastc - firstc)) ts))
    else none

-- `expandLeafBigNode` of a node with the children `next`.
unfoldable pub expand_leaf_big_node : Layouts → List ℕ → ℕ → ℕ → Option Layout
unfolding construct_big_node leaf_nodes
expand_leaf_big_node next v first len =
    if over_treelets next
    then (do ts ← leaf_nodes v first len 16 0; some (inner (construct_big_node v first len) ts))
    else none

abbrev pub both : Option Layout → Option Layouts → Option Layouts
both none rest = none
both (some t) none = none
both (some t) (some ts) = some (child t ts)

-- `buildFromV`: the keys of every node anew, and one more level of nodes above the treelets.
mutual
  pub build_from_v : Layout → List ℕ → ℕ → ℕ → Option Layout
  build_from_v (leaf t) v first len = none
  build_from_v (inner keys next) v first len =
      let deeper = build_children next v first len 0 in
      if over_treelets next
      then expand_leaf_big_node next v first len
      else elim deeper [ none ↦ none | some ts ↦ some (inner (construct_big_node v first len) ts) ]

  pub build_children : Layouts → List ℕ → ℕ → ℕ → ℕ → Option Layouts
  build_children end v first len c = some end
  build_children (child t ts) v first len c =
      let firstc = cut first len c in
      let lastc = cut first len (c + 1) in
      let lenc = lastc - firstc in
      let built = both (build_from_v t v firstc lenc) (build_children ts v first len (c + 1)) in
      if not (c == 15) || firstc + lenc == first + len then built else none

-- The first loop of `gatherAll`: the items of treelets from left to right. A treelet that has been emptied is
-- replaced by `NULL_TREE`. A node that is taken for a treelet is none.
unfoldable pub gather_treelets : Layouts → List ℕ → Option (Layouts × List ℕ × ℕ)
gather_treelets end v = some (end, v, 0)
gather_treelets (child (inner keys next) ts) v = none
gather_treelets (child (leaf t) ts) v = do
  let (v', m) = Treelet.add_items t v
  (ts', w, n) ← gather_treelets ts v'
  some (child (leaf Treelet.new) ts', w, m + n)

abbrev pub with_keys : List ℕ → Option (Layouts × List ℕ × ℕ) → Option (Layout × List ℕ × ℕ)
with_keys keys none = none
with_keys keys (some (next, w, n)) = some (inner keys next, w, n)

abbrev pub add_gathered :
    Option (Layout × List ℕ × ℕ)
    → (List ℕ → Option (Layouts × List ℕ × ℕ))
    → Option (Layouts × List ℕ × ℕ)
add_gathered none rest = none
add_gathered (some (t, v, m)) rest = do (ts, w, n) ← rest v; some (child t ts, w, m + n)

-- `gatherAll`; it looks at the first child to tell whether the children are treelets.
mutual
  pub gather_all : Layout → List ℕ → Option (Layout × List ℕ × ℕ)
  gather_all (leaf t) v = none
  gather_all (inner keys next) v =
      let deeper = gather_children next v in
      with_keys keys (if over_treelets next then gather_treelets next v else deeper)

  pub gather_children : Layouts → List ℕ → Option (Layouts × List ℕ × ℕ)
  gather_children end v = some (end, v, 0)
  gather_children (child t ts) v = add_gathered (gather_all t v) (λ v'. gather_children ts v')

-- `consolidateRoot`: a root that is a treelet becomes a node over 16 treelets.
unfoldable pub consolidate_root : Treelet → Layout
unfolding leaf_node
consolidate_root root = let (v, elems) = Treelet.add_items root [] in leaf_node v 0 elems

unfoldable pub consolidate_all_optimal : Layout → Option Layout
unfolding consolidate_root
consolidate_all_optimal (leaf t) = some (consolidate_root t)
consolidate_all_optimal (inner keys next) = do
  (root, v, total_len) ← gather_all (inner keys next) []
  build_from_v root v 0 total_len
