-- ===== src/Backbone/Parts.antt =====
-- The parts of a rebuilt node: what they hold, how deep they are, how many there are.
use sto_layout.Base.{
  ℕ, zero, suc, ◌+◌, ◌-◌, ◌<◌, ◌≤◌, ◌≡◌, refl, true, false, List, ◌++◌, some, arith, ◌∙◌, ap,
}
use native.Mathlib.Nat.{zero-add}
use sto_layout.Tree.Spec.{member}
use sto_layout.Tree.Build.{slice, slice-append, Grows}
use sto_layout.Treelet.{from_range}
use sto_layout.Treelet.Spec.{as_tree}
use sto_layout.Treelet.Range.{Proper, items-from_range}
use sto_layout.Backbone.{
  leaf, inner, Layouts, end, child, locate, locate_at, cut, asm_search, construct_big_node,
  treelets, leaf_node, over_treelets,
}
use sto_layout.Backbone.Asserts.{leaf_layouts, expanded}
use sto_layout.Backbone.Search.{
  asm_search-Between, border, construct_big_node-heap_order, asm_search-Routes, cut_le, cut_mono,
}
use sto_layout.Backbone.Items.{
  elem, items, all_items, elem-slice_part, member-elem, contains, Uniform, AllUniform, count,
}

locate_at-treelets :
    (key : ℕ) (v : List ℕ) (first len n c i : ℕ)
    → i < n
    → locate_at key (treelets v first len n c) i
      ≡ some (from_range v (cut first len (c + i)) (cut first len (c + i + 1)))
unfolding treelets locate locate_at
locate_at-treelets key v first len zero c i h = absurd (omega arith)
locate_at-treelets key v first len (suc n) c zero h = let e : c + 0 ≡ c = omega arith in rw e
locate_at-treelets key v first len (suc n) c (suc i) h =
    let e : c + suc i ≡ c + 1 + i = omega arith in
    rw e (locate_at-treelets key v first len n (c + 1) i (omega arith))

locate_at-leaf_layouts :
    (key : ℕ) (v : List ℕ) (first len n c i : ℕ)
    → i < n
    → locate_at key (leaf_layouts v first len n c) i
      ≡ locate key
          (leaf_node v (cut first len (c + i)) (cut first len (c + i + 1) - cut first len (c + i)))
unfolding leaf_layouts locate locate_at
locate_at-leaf_layouts key v first len zero c i h = absurd (omega arith)
locate_at-leaf_layouts key v first len (suc n) c zero h = let e : c + 0 ≡ c = omega arith in rw e
locate_at-leaf_layouts key v first len (suc n) c (suc i) h =
    let e : c + suc i ≡ c + 1 + i = omega arith in
    rw e (locate_at-leaf_layouts key v first len n (c + 1) i (omega arith))

pub asm_search-lt :
    (key : ℕ) (v : List ℕ) (first len : ℕ)
    → asm_search key (construct_big_node v first len) - 16 < 16
asm_search-lt key v first len =
    rw (construct_big_node-heap_order v first len)
      (asm_search-Between key (border v first len)).child

-- The child that a search takes decides about the key: its part of the range has all that the range has.
pub elem-child :
    (key : ℕ) (v : List ℕ) (first len : ℕ)
    → Grows v 0 (first + len)
    → Proper v 0 (first + len)
    → let c = asm_search key (construct_big_node v first len) - 16 in
      elem key (slice v (cut first len c) (cut first len (c + 1) - cut first len c))
      ≡ elem key (slice v first len)
elem-child key v first len grows proper =
    let c = asm_search key (construct_big_node v first len) - 16 in
    let few = asm_search-lt key v first len in
    let fits = cut_le first len (c + 1) (omega arith) in
    let grow = cut_mono first len c (c + 1) (omega arith) in
    elem-slice_part key v first len (cut first len c) (cut first len (c + 1) - cut first len c)
      (omega arith) (omega arith)
      λ j low high e.
        let r = rw e at (asm_search-Routes v first len j low high grows proper) in
        (r.from, omega (arith, r.to))

-- A treelet over a part of the vector holds the items of that part.
member-from_range :
    (key : ℕ) (v : List ℕ) (b e : ℕ)
    → Proper v b e
    → member key (as_tree (from_range v b e)) ≡ elem key (slice v b (e - b))
member-from_range key v b e proper =
    member-elem key (as_tree (from_range v b e)) ∙ ap (elem key) (items-from_range v b e proper)

-- A new node over a range finds exactly the items of the range.
pub contains-leaf_node :
    (key : ℕ) (v : List ℕ) (first len : ℕ)
    → Grows v 0 (first + len)
    → Proper v 0 (first + len)
    → contains key (leaf_node v first len) ≡ elem key (slice v first len)
unfolding contains leaf_node locate locate_at
contains-leaf_node key v first len grows proper =
    let c = asm_search key (construct_big_node v first len) - 16 in
    let few = asm_search-lt key v first len in
    let fits = cut_le first len (c + 1) (omega arith) in
    rw (locate_at-treelets key v first len 16 0 c few, zero-add c)
      (member-from_range key v (cut first len c) (cut first len (c + 1))
          (λ i low high. proper i (omega arith) (omega arith))
        ∙ elem-child key v first len grows proper)

-- The same for a node whose treelets have been replaced by nodes.
pub contains-expanded :
    (key : ℕ) (v : List ℕ) (first len : ℕ)
    → Grows v 0 (first + len)
    → Proper v 0 (first + len)
    → contains key (expanded v first len) ≡ elem key (slice v first len)
unfolding contains expanded locate locate_at
contains-expanded key v first len grows proper =
    let c = asm_search key (construct_big_node v first len) - 16 in
    let few = asm_search-lt key v first len in
    let fits = cut_le first len (c + 1) (omega arith) in
    let grow = cut_mono first len c (c + 1) (omega arith) in
    rw (locate_at-leaf_layouts key v first len 16 0 c few, zero-add c)
      (contains-leaf_node key v (cut first len c) (cut first len (c + 1) - cut first len c)
          (λ i j low lt high. grows i j low lt (omega arith))
          (λ i low high. proper i low (omega arith))
        ∙ elem-child key v first len grows proper)

pub over_treelets-zero :
    (ts : Layouts) → count ts ≡ 16 → AllUniform zero ts → over_treelets ts ≡ true
unfolding AllUniform Uniform
over_treelets-zero end n u = absurd (omega arith)
over_treelets-zero (child (leaf t) ts) n u = refl
over_treelets-zero (child (inner ks next) ts) n u = absurd u.0

pub over_treelets-suc :
    (d : ℕ) (ts : Layouts) → count ts ≡ 16 → AllUniform (suc d) ts → over_treelets ts ≡ false
unfolding AllUniform Uniform
over_treelets-suc d end n u = absurd (omega arith)
over_treelets-suc d (child (leaf t) ts) n u = absurd u.0
over_treelets-suc d (child (inner ks next) ts) n u = refl

count-treelets : (v : List ℕ) (first len n c : ℕ) → count (treelets v first len n c) ≡ n
unfolding treelets
count-treelets v first len zero c = refl
count-treelets v first len (suc n) c = ap suc (count-treelets v first len n (c + 1))

treelets-AllUniform : (v : List ℕ) (first len n c : ℕ) → AllUniform 0 (treelets v first len n c)
unfolding treelets AllUniform
treelets-AllUniform v first len zero c = tt
treelets-AllUniform v first len (suc n) c = (tt, treelets-AllUniform v first len n (c + 1))

pub leaf_node-Uniform : (v : List ℕ) (first len : ℕ) → Uniform 1 (leaf_node v first len)
unfolding leaf_node Uniform
leaf_node-Uniform v first len =
    (count-treelets v first len 16 0, treelets-AllUniform v first len 16 0)

count-leaf_layouts : (v : List ℕ) (first len n c : ℕ) → count (leaf_layouts v first len n c) ≡ n
unfolding leaf_layouts
count-leaf_layouts v first len zero c = refl
count-leaf_layouts v first len (suc n) c = ap suc (count-leaf_layouts v first len n (c + 1))

leaf_layouts-AllUniform :
    (v : List ℕ) (first len n c : ℕ) → AllUniform 1 (leaf_layouts v first len n c)
unfolding leaf_layouts AllUniform
leaf_layouts-AllUniform v first len zero c = tt
leaf_layouts-AllUniform v first len (suc n) c = (
  leaf_node-Uniform v (cut first len c) (cut first len (c + 1) - cut first len c),
  leaf_layouts-AllUniform v first len n (c + 1),
)

pub expanded-Uniform : (v : List ℕ) (first len : ℕ) → Uniform 2 (expanded v first len)
unfolding expanded Uniform
expanded-Uniform v first len =
    (count-leaf_layouts v first len 16 0, leaf_layouts-AllUniform v first len 16 0)

-- Two parts of a range, one behind the other.
pub slice_join :
    (v : List ℕ) (a b c : ℕ)
    → a ≤ b
    → b ≤ c
    → slice v a (b - a) ++ slice v b (c - b) ≡ slice v a (c - a)
slice_join v a b c low high =
    let total : c - a ≡ (b - a) + (c - b) = omega arith in
    let here : a + (b - a) ≡ b = omega arith in rw (total, slice-append v a (b - a) (c - b), here)

all_items-treelets :
    (v : List ℕ) (first len n c : ℕ)
    → c + n ≤ 16
    → Proper v 0 (first + len)
    → all_items (treelets v first len n c)
      ≡ slice v (cut first len c) (cut first len (c + n) - cut first len c)
unfolding treelets items all_items
all_items-treelets v first len zero c few proper =
    let e : cut first len (c + 0) - cut first len c ≡ 0 =
      let z : c + 0 ≡ c = omega arith in rw z (omega arith) in
    rw e
all_items-treelets v first len (suc n) c few proper =
    let e : c + suc n ≡ c + 1 + n = omega arith in
    let fits = cut_le first len (c + 1) (omega arith) in
    rw
      (
        items-from_range v (cut first len c) (cut first len (c + 1))
            (λ i low high. proper i (omega arith) (omega arith)),
        all_items-treelets v first len n (c + 1) (omega arith) proper,
        e,
      )
      (slice_join v (cut first len c) (cut first len (c + 1)) (cut first len (c + 1 + n))
        (cut_mono first len c (c + 1) (omega arith))
        (cut_mono first len (c + 1) (c + 1 + n) (omega arith)))

-- All 16 parts make up the range.
pub slice_whole :
    (v : List ℕ) (first len : ℕ)
    → slice v (cut first len 0) (cut first len (0 + 16) - cut first len 0) ≡ slice v first len
slice_whole v first len =
    let e : cut first len 16 - cut first len 0 ≡ len = omega arith in
    let z : cut first len 0 ≡ first = omega arith in rw (e, z)

pub items-leaf_node :
    (v : List ℕ) (first len : ℕ)
    → Proper v 0 (first + len)
    → items (leaf_node v first len) ≡ slice v first len
unfolding leaf_node items
items-leaf_node v first len proper =
    all_items-treelets v first len 16 0 (omega arith) proper ∙ slice_whole v first len

pub all_items-leaf_layouts :
    (v : List ℕ) (first len n c : ℕ)
    → c + n ≤ 16
    → Proper v 0 (first + len)
    → all_items (leaf_layouts v first len n c)
      ≡ slice v (cut first len c) (cut first len (c + n) - cut first len c)
unfolding leaf_layouts all_items
all_items-leaf_layouts v first len zero c few proper =
    let e : cut first len (c + 0) - cut first len c ≡ 0 =
      let z : c + 0 ≡ c = omega arith in rw z (omega arith) in
    rw e
all_items-leaf_layouts v first len (suc n) c few proper =
    let e : c + suc n ≡ c + 1 + n = omega arith in
    let fits = cut_le first len (c + 1) (omega arith) in
    let grow = cut_mono first len c (c + 1) (omega arith) in
    rw
      (
        items-leaf_node v (cut first len c) (cut first len (c + 1) - cut first len c)
            (λ i low high. proper i low (omega arith)),
        all_items-leaf_layouts v first len n (c + 1) (omega arith) proper,
        e,
      )
      (slice_join v (cut first len c) (cut first len (c + 1)) (cut first len (c + 1 + n)) grow
        (cut_mono first len (c + 1) (c + 1 + n) (omega arith)))
