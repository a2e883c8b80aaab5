-- ===== src/Backbone/Search.antt =====
-- A node's search array leads every item of its range to the child whose part of the range holds it.
use sto_layout.Base.{
  ℕ, ◌+◌, ◌-◌, ◌<◌, ◌≤◌, ◌≡◌, refl, List, [], ◌∷◌, ◌==◌, if◌then◌else◌, get_or, arith, dec_lt, ap,
}
use sto_layout.Tree.Build.{Grows}
use sto_layout.Treelet.Range.{Proper}
use sto_layout.Backbone.{asm_search, construct_big_node, cut}

-- The key between children `p - 1` and `p`.
abbrev pub border : List ℕ → ℕ → ℕ → ℕ → ℕ
border v first len p = let at = cut first len p in if at == 0 then 0 else get_or v (at - 1) 0

-- The array holds the 15 borders in heap order.
pub heap_order : (ℕ → ℕ) → List ℕ
heap_order k =
    k 8
    ∷ k 4
    ∷ k 12
    ∷ k 2
    ∷ k 6
    ∷ k 10
    ∷ k 14
    ∷ k 1
    ∷ k 3
    ∷ k 5
    ∷ k 7
    ∷ k 9
    ∷ k 11
    ∷ k 13
    ∷ k 15
    ∷ []

pub construct_big_node-heap_order :
    (v : List ℕ) (first len : ℕ) → construct_big_node v first len ≡ heap_order (border v first len)
unfolding construct_big_node heap_order
construct_big_node-heap_order v first len = refl

-- The search ends between two borders.
pub record Between (key : ℕ) (k : ℕ → ℕ) (c : ℕ) : Type 0 where
  pub child : c < 16
  pub above : 0 < c → k c < key
  pub below : c < 15 → key ≤ k (c + 1)

pub asm_search-Between : (key : ℕ) (k : ℕ → ℕ) → Between key k (asm_search key (heap_order k) - 16)
unfolding asm_search heap_order
asm_search-Between key k = ground arith

pub cut_le : (first len c : ℕ) → c ≤ 16 → cut first len c ≤ first + len
cut_le first len c h = grind arith

pub cut_mono : (first len c d : ℕ) → c ≤ d → cut first len c ≤ cut first len d
cut_mono first len c d h = grind arith

-- In an array built over a range of a growing vector without the key 0, the search for the item at position `j` ends
-- at the child whose part of the range holds `j`.
pub record Routes (first len j c : ℕ) : Type 0 where
  pub child : c < 16
  pub from : cut first len c ≤ j
  pub to : j < cut first len (c + 1)

module _ (v : List ℕ) (first len j : ℕ) (low : first ≤ j) (high : j < first + len) where
  not_right :
      (c : ℕ)
      → c ≤ 16
      → Grows v 0 (first + len)
      → border v first len c < get_or v j 0
      → cut first len c ≤ j
  not_right c few grows h =
      let room = cut_le first len c few in
      elim (dec_lt j (cut first len c)) [
        | no p ↦ omega arith
        | yes p ↦ elim (dec_lt j (cut first len c - 1)) [
          | yes q ↦
              absurd (ground (arith, grows j (cut first len c - 1) (omega arith) q (omega arith)))
          | no q ↦
              let e : cut first len c - 1 ≡ j = omega arith in
              absurd (ground (arith, ap (λ (i : ℕ). get_or v i 0) e))
        ]
      ]

  not_left :
      (c : ℕ)
      → c ≤ 16
      → Grows v 0 (first + len)
      → Proper v 0 (first + len)
      → get_or v j 0 ≤ border v first len c
      → j < cut first len c
  not_left c few grows proper h =
      let room = cut_le first len c few in
      elim (dec_lt j (cut first len c)) [
        | yes p ↦ p
        | no p ↦ absurd (
            ground
              (arith, grows (cut first len c - 1) j (omega arith), proper j (omega arith) high))
      ]

  -- In an array built over a range of a growing vector without the key 0, the search for the item at position `j`
  -- ends at the child whose part of the range holds `j`.
  pub asm_search-Routes :
      Grows v 0 (first + len)
      → Proper v 0 (first + len)
      → Routes first len j (asm_search (get_or v j 0) (construct_big_node v first len) - 16)
  asm_search-Routes grows proper =
      let found = asm_search-Between (get_or v j 0) (border v first len) in
      let c = asm_search (get_or v j 0) (heap_order (border v first len)) - 16 in
      rw (construct_big_node-heap_order v first len) (record {
        child = found.child;
        from = elim (dec_lt 0 c) [
          | yes p ↦ not_right c (omega (arith, found.child)) grows (found.above p)
          | no p ↦ let z : c ≡ 0 = omega arith in rw z (omega arith)
        ];
        to = elim (dec_lt c 15) [
          | yes p ↦ not_left (c + 1) (omega arith) grows proper (found.below p)
          | no p ↦ let z : c ≡ 15 = omega (arith, found.child) in rw z (omega arith)
        ];
      })
