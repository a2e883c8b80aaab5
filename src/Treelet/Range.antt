-- ===== src/Treelet/Range.antt =====
-- The treelet that is built from a range of a sorted vector.
use sto_layout.Base.{
  ℕ, ◌+◌, ◌-◌, ◌/◌, ◌<◌, ◌≤◌, ◌≡◌, refl, false, ◌==◌, arith, Bool-cases, inl, inr, List, get_or,
}
use sto_layout.Tree
use sto_layout.Tree.{Tree, nil, node}
use sto_layout.Tree.Build.{
  slice, slice_around, Grows, keys-build_range, IsBelow-build_range, IsAbove-build_range,
  build_range-IsSearchTree,
}
use sto_layout.Treelet.{from_range}
use sto_layout.Treelet.Spec.{IsValid, items}

-- No element of the range is the key that stands for an empty treelet.
abbrev pub Proper : List ℕ → ℕ → ℕ → Type 0
Proper v b e = (i : ℕ) → b ≤ i → i < e → 0 < get_or v i 0

-- The treelet over a range without the key 0 holds exactly the elements of the range, in their order.
pub items-from_range :
    (v : List ℕ) (b e : ℕ) → Proper v b e → items (from_range v b e) ≡ slice v b (e - b)
unfolding from_range
items-from_range v b e proper = elim (Bool-cases (e - b == 0)) [
  | inl empty ↦ let z : e - b ≡ 0 = ground arith in rw (empty, z)
  | inr some_left ↦
      let mid = b + (e - b) / 2 in
      let full : (get_or v mid 0 == 0) ≡ false =
        ground (arith, proper mid (omega arith) (ground arith)) in
      rw
        (
          some_left,
          full,
          keys-build_range (e - b) v b mid (omega arith),
          keys-build_range (e - b) v (mid + 1) e (omega arith),
        )
        (slice_around v b mid e (omega arith) (ground arith))
]

-- From a growing range it is valid.
pub from_range-IsValid :
    (v : List ℕ) (b e : ℕ) → Grows v b e → Proper v b e → IsValid (from_range v b e)
unfolding from_range Tree.build_range
from_range-IsValid v b e grows proper = elim (Bool-cases (e - b == 0)) [
  | inl empty ↦
      let z : e - b ≡ 0 = ground arith in
      rw (empty, z)
        (record {
          ordered = (tt, tt, tt, tt);
          positive = tt;
          empty_left = λ _. refl;
          empty_right = λ _. refl;
        })
  | inr full ↦
      let mid = b + (e - b) / 2 in
      let pos : 0 < get_or v mid 0 = proper mid (omega arith) (ground arith) in
      rw full (record {
        ordered = (
          IsBelow-build_range (e - b) v b mid (get_or v mid 0)
              (λ i p q. grows i mid p q (ground arith)),
          IsAbove-build_range (e - b) v (mid + 1) e (get_or v mid 0)
              (λ i p q. grows mid i (omega arith) (omega arith) q),
          build_range-IsSearchTree (e - b) v b mid (λ i j p q r. grows i j p q (ground arith)),
          build_range-IsSearchTree (e - b) v (mid + 1) e (λ i j p q r. grows i j (omega arith) q r),
        );
        positive = IsAbove-build_range (e - b) v b mid 0 (λ i p q. proper i p (ground arith));
        empty_left = λ z. absurd (omega arith);
        empty_right = λ z. absurd (omega arith);
      })
]
