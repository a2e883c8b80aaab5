-- ===== src/Tree/Build.antt =====
-- The two ways to build a balanced tree.
use sto_layout.Base.{
  ℕ, zero, suc, ◌+◌, ◌-◌, ◌/◌, ◌%◌, ◌^◌, ◌<◌, ◌≤◌, ◌≡◌, refl, leb, arith, List, [], ◌∷◌, ◌++◌,
  get_or, length, ap, ◌∙◌, inl, inr, Bool-cases, max,
}
use sto_layout.Tree.{Tree, nil, node, build_range, build_level, size}
use sto_layout.Tree.Spec.{keys, IsBelow, IsAbove, IsSearchTree}
use native.Mathlib.Nat.{pow-succ', zero-add, add-zero, suc-add, add-suc}
use native.Mathlib.Numerals.{add-one}

-- The `n` elements of a vector from position `b` on.
abbrev pub slice : List ℕ → ℕ → ℕ → List ℕ
slice v b zero = []
slice v b (suc n) = get_or v b 0 ∷ slice v (suc b) n

pub slice-append : (v : List ℕ) (b n m : ℕ) → slice v b (n + m) ≡ slice v b n ++ slice v (b + n) m
slice-append v b zero m = rw (zero-add, add-zero)
slice-append v b (suc n) m = rw (suc-add, slice-append v (suc b) n m, suc-add, add-suc)

slice-cons : (x : ℕ) (v : List ℕ) (b n : ℕ) → slice (x ∷ v) (suc b) n ≡ slice v b n
slice-cons x v b zero = refl
slice-cons x v b (suc n) = ap (λ t. get_or v b 0 ∷ t) (slice-cons x v (suc b) n)

pub slice_all : (v : List ℕ) → slice v 0 (length v) ≡ v
slice_all [] = refl
slice_all (x ∷ v) = ap (λ t. x ∷ t) (slice-cons x v 0 (length v) ∙ slice_all v)

-- A range around one of its positions.
pub slice_around :
    (v : List ℕ) (b m e : ℕ)
    → b ≤ m
    → m < e
    → slice v b (m - b) ++ get_or v m 0 ∷ slice v (m + 1) (e - (m + 1)) ≡ slice v b (e - b)
slice_around v b m e low high =
    let total : e - b ≡ (m - b) + suc (e - (m + 1)) = omega arith in
    let here : b + (m - b) ≡ m = omega arith in
    rw (total, slice-append v b (m - b) (suc (e - (m + 1))), here, add-one)

-- With fuel for the length of the range, the tree holds the elements of the range, in their order.
pub keys-build_range :
    (f : ℕ) (v : List ℕ) (b e : ℕ) → e - b ≤ f → keys (build_range f v b e) ≡ slice v b (e - b)
unfolding build_range
keys-build_range zero v b e h = let z : e - b ≡ 0 = omega arith in rw z
keys-build_range (suc f) v b e h = elim (Bool-cases (leb e b)) [
  | inl empty ↦ let z : e - b ≡ 0 = ground arith in rw (empty, z)
  | inr more ↦
      let mid = b + (e - b) / 2 in
      rw
        (
          more,
          keys-build_range f v b mid (ground arith),
          keys-build_range f v (mid + 1) e (ground arith),
        )
        (slice_around v b (b + (e - b) / 2) e (omega arith) (ground arith))
]

-- A vector whose elements grow from position `b` to `e`.
abbrev pub Grows : List ℕ → ℕ → ℕ → Type 0
Grows v b e = (i j : ℕ) → b ≤ i → i < j → j < e → get_or v i 0 < get_or v j 0

pub IsBelow-build_range :
    (f : ℕ) (v : List ℕ) (b e c : ℕ)
    → ((i : ℕ) → b ≤ i → i < e → get_or v i 0 < c)
    → IsBelow c (build_range f v b e)
unfolding build_range
IsBelow-build_range zero v b e c h = tt
IsBelow-build_range (suc f) v b e c h = elim (Bool-cases (leb e b)) [
  | inl empty ↦ rw empty tt
  | inr more ↦
      let mid = b + (e - b) / 2 in
      rw more (
        h mid (omega arith) (ground arith),
        IsBelow-build_range f v b mid c (λ i p q. h i p (ground arith)),
        IsBelow-build_range f v (mid + 1) e c (λ i p q. h i (omega arith) q),
      )
]

pub IsAbove-build_range :
    (f : ℕ) (v : List ℕ) (b e c : ℕ)
    → ((i : ℕ) → b ≤ i → i < e → c < get_or v i 0)
    → IsAbove c (build_range f v b e)
unfolding build_range
IsAbove-build_range zero v b e c h = tt
IsAbove-build_range (suc f) v b e c h = elim (Bool-cases (leb e b)) [
  | inl empty ↦ rw empty tt
  | inr more ↦
      let mid = b + (e - b) / 2 in
      rw more (
        h mid (omega arith) (ground arith),
        IsAbove-build_range f v b mid c (λ i p q. h i p (ground arith)),
        IsAbove-build_range f v (mid + 1) e c (λ i p q. h i (omega arith) q),
      )
]

-- From a growing range comes a search tree.
pub build_range-IsSearchTree :
    (f : ℕ) (v : List ℕ) (b e : ℕ) → Grows v b e → IsSearchTree (build_range f v b e)
unfolding build_range
build_range-IsSearchTree zero v b e g = tt
build_range-IsSearchTree (suc f) v b e g = elim (Bool-cases (leb e b)) [
  | inl empty ↦ rw empty tt
  | inr more ↦
      let mid = b + (e - b) / 2 in
      rw more (
        IsBelow-build_range f v b mid (get_or v mid 0) (λ i p q. g i mid p q (ground arith)),
        IsAbove-build_range f v (mid + 1) e (get_or v mid 0)
            (λ i p q. g mid i (omega arith) (omega arith) q),
        build_range-IsSearchTree f v b mid (λ i j p q r. g i j p q (ground arith)),
        build_range-IsSearchTree f v (mid + 1) e (λ i j p q r. g i j (omega arith) q r),
      )
]

-- How deep a tree is.
pub height : Tree → ℕ
height nil = 0
height (node k o l r) = suc (max (height l) (height r))

-- The tree of a range of fewer than `2 ^ h` elements is at most `h` deep.
pub height-build_range-le :
    (h f : ℕ) (v : List ℕ) (b e : ℕ) → e - b < 2 ^ h → height (build_range f v b e) ≤ h
unfolding build_range height
height-build_range-le zero zero v b e small = omega arith
height-build_range-le (suc h) zero v b e small = omega arith
height-build_range-le zero (suc f) v b e small = ground arith
height-build_range-le (suc h) (suc f) v b e small = elim (Bool-cases (leb e b)) [
  | inl empty ↦ rw empty (omega arith)
  | inr more ↦
      let double = pow-succ' 2 h in
      let mid = b + (e - b) / 2 in
      rw more (
        omega (
          arith,
          height-build_range-le h f v b mid (omega arith),
          height-build_range-le h f v (mid + 1) e (omega arith),
        ))
]

pow_pos : (i : ℕ) → 0 < 2 ^ i
pow_pos zero = omega arith
pow_pos (suc i) = omega (arith, pow_pos i, pow-succ' 2 i)

IsBelow-build_level :
    (i first c : ℕ)
    → first + 2 ^ suc i ≤ 2 ^ 32
    → first + 2 ^ suc i ≤ c
    → IsBelow c (build_level i first)
unfolding build_level
IsBelow-build_level zero first c fit h = tt
IsBelow-build_level (suc i) first c fit h =
    let double = pow-succ' 2 (suc i) in
    let pos = pow_pos (suc i) in
    (
      omega arith,
      IsBelow-build_level i first c (omega arith) (omega arith),
      IsBelow-build_level i (first + 2 ^ suc i) c (omega arith) (omega arith),
    )

IsAbove-build_level :
    (i first c : ℕ) → first + 2 ^ suc i ≤ 2 ^ 32 → c ≤ first → IsAbove c (build_level i first)
unfolding build_level
IsAbove-build_level zero first c fit h = tt
IsAbove-build_level (suc i) first c fit h =
    let double = pow-succ' 2 (suc i) in
    let pos = pow_pos (suc i) in
    (
      omega arith,
      IsAbove-build_level i first c (omega arith) h,
      IsAbove-build_level i (first + 2 ^ suc i) c (omega arith) (omega arith),
    )

-- `build(i, first)` is a search tree of `2 ^ i - 1` keys, all above `first` and below
-- `first + 2 ^ (i + 1)`, where that bound fits 32 bits.
pub build_level-IsSearchTree :
    (i first : ℕ)
    → first + 2 ^ suc i ≤ 2 ^ 32
    → IsSearchTree (build_level i first)
      × IsAbove first (build_level i first)
      × IsBelow (first + 2 ^ suc i) (build_level i first)
      × (size (build_level i first) + 1 ≡ 2 ^ i)
unfolding build_level size
build_level-IsSearchTree zero first fit = (tt, tt, tt, refl)
build_level-IsSearchTree (suc i) first fit =
    let double = pow-succ' 2 (suc i) in
    let single = pow-succ' 2 i in
    let pos = pow_pos (suc i) in
    let mid = first + 2 ^ suc i in
    let low = build_level-IsSearchTree i first (omega arith) in
    let high = build_level-IsSearchTree i mid (omega arith) in
    let key : mid % 2 ^ 32 ≡ mid = omega arith in
    (
      rw key (low.2, high.1, low.0, high.0),
      IsAbove-build_level (suc i) first first fit (omega arith),
      IsBelow-build_level (suc i) first (first + 2 ^ suc (suc i)) fit (omega arith),
      omega arith,
    )
