-- ===== src/Base/Sorted.antt =====
-- Lists of numbers in strictly increasing order, as sets: membership, insertion and removal.
use Prim.Native.Nat.{ℕ, ◌<◌, ◌≤◌}
use mathlib.Core.Path.{◌≡◌, refl}
use mathlib.Core.Logic.{◌≢◌, inl, inr}
use mathlib.Core.Bool.{Bool, true, false, ◌||◌}
use mathlib.Core.List.{List, [], ◌∷◌, ◌++◌}
use native.Mathlib.Omega.{arith}
use sto_layout.Base.Tests.{==_self, Bool-cases, ◌==◌, if◌then◌else◌, ltb, ltb→lt}
use sto_layout.Base.Lists.{All, All-append, All-map}

-- Strictly increasing.
abbrev pub Sorted : List ℕ → Type 0
Sorted [] = Unit
Sorted (x ∷ xs) = All (λ y. x < y) xs × Sorted xs

unfoldable pub insert_sorted : ℕ → List ℕ → List ℕ
insert_sorted x [] = x ∷ []
insert_sorted x (k ∷ ks) = if ltb k x then k ∷ insert_sorted x ks else x ∷ k ∷ ks

pub insert_sorted_past :
    (x : ℕ) (ks ys : List ℕ)
    → All (λ k. k < x) ks
    → insert_sorted x (ks ++ ys) ≡ ks ++ insert_sorted x ys
unfolding insert_sorted
insert_sorted_past x [] ys h = refl
insert_sorted_past x (k ∷ ks) ys h = ground (arith, insert_sorted_past x ks ys h.1)

pub insert_sorted_left :
    (x k : ℕ) (ks ys : List ℕ)
    → x ≤ k
    → insert_sorted x (ks ++ k ∷ ys) ≡ insert_sorted x ks ++ k ∷ ys
unfolding insert_sorted
insert_sorted_left x k [] ys h = ground arith
insert_sorted_left x k (j ∷ ks) ys h = elim (Bool-cases (ltb j x)) [
  | inl e ↦ rw (e, insert_sorted_left x k ks ys h)
  | inr e ↦ rw e
]

-- What a sorted list says of its parts around one element.
pub record IsSplit (ks : List ℕ) (k : ℕ) (ys : List ℕ) : Type 0 where
  pub below : All (λ j. j < k) ks
  pub above : All (λ j. k < j) ys
  pub left : Sorted ks
  pub right : Sorted ys

pub All-left {ℓ} : {A : Type ℓ} (P : A → Type 0) (xs ys : List A) → All P (xs ++ ys) → All P xs
All-left P [] ys h = tt
All-left P (x ∷ xs) ys h = (h.0, All-left P xs ys h.1)

pub All-right {ℓ} : {A : Type ℓ} (P : A → Type 0) (xs ys : List A) → All P (xs ++ ys) → All P ys
All-right P [] ys h = h
All-right P (x ∷ xs) ys h = All-right P xs ys h.1

pub Sorted-IsSplit : (ks : List ℕ) (k : ℕ) (ys : List ℕ) → Sorted (ks ++ k ∷ ys) → IsSplit ks k ys
Sorted-IsSplit [] k ys h = record { below = tt; above = h.0; left = tt; right = h.1 }
Sorted-IsSplit (j ∷ ks) k ys h =
    let rest = Sorted-IsSplit ks k ys h.1 in
    record {
      below = ((All-right _ ks (k ∷ ys) h.0).0, rest.below);
      above = rest.above;
      left = (All-left _ ks (k ∷ ys) h.0, rest.left);
      right = rest.right;
    }

-- Inserting at the place keeps the list strictly increasing when the element is new.
pub insert_sorted-All :
    (P : ℕ → Type 0) (x : ℕ) (ks : List ℕ) → P x → All P ks → All P (insert_sorted x ks)
unfolding insert_sorted
insert_sorted-All P x [] p h = (p, tt)
insert_sorted-All P x (k ∷ ks) p h = elim (Bool-cases (ltb k x)) [
  | inl e ↦ rw e (h.0, insert_sorted-All P x ks p h.1)
  | inr e ↦ rw e (p, h)
]

pub insert_sorted-Sorted :
    (x : ℕ) (ks : List ℕ) → Sorted ks → All (λ k. k ≢ x) ks → Sorted (insert_sorted x ks)
unfolding insert_sorted
insert_sorted-Sorted x [] h n = (tt, tt)
insert_sorted-Sorted x (k ∷ ks) h n = elim (Bool-cases (ltb k x)) [
  | inl e ↦
      rw e
        (insert_sorted-All (λ j. k < j) x ks (ltb→lt k x e) h.0, insert_sorted-Sorted x ks h.1 n.1)
  | inr e ↦
      let lt : x < k = ground (arith, n.0) in
      rw e ((lt, All-map (λ j p. omega (arith, p, lt)) ks h.0), h)
]

unfoldable pub contains : ℕ → List ℕ → Bool
contains key [] = false
contains key (x ∷ xs) = key == x || contains key xs

pub contains_outside : (key : ℕ) (xs : List ℕ) → All (λ x. key ≢ x) xs → contains key xs ≡ false
unfolding contains
contains_outside key [] h = refl
contains_outside key (x ∷ xs) h = ground (arith, h.0, contains_outside key xs h.1)

pub contains_here : (key k : ℕ) (xs ys : List ℕ) → key ≡ k → contains key (xs ++ k ∷ ys) ≡ true
unfolding contains
contains_here key k [] ys e = ground (arith, e)
contains_here key k (x ∷ xs) ys e = ground (arith, contains_here key k xs ys e)

pub contains_right :
    (key k : ℕ) (xs ys : List ℕ)
    → All (λ x. x < k) xs
    → k < key
    → contains key (xs ++ k ∷ ys) ≡ contains key ys
unfolding contains
contains_right key k [] ys h lt = ground arith
contains_right key k (x ∷ xs) ys h lt = ground (arith, h.0, contains_right key k xs ys h.1 lt)

pub contains_left :
    (key k : ℕ) (xs ys : List ℕ)
    → All (λ y. k < y) ys
    → key < k
    → contains key (xs ++ k ∷ ys) ≡ contains key xs
unfolding contains
contains_left key k [] ys h lt =
    ground (arith, contains_outside key ys (All-map (λ y p e. omega (arith, p, e)) ys h))
contains_left key k (x ∷ xs) ys h lt = ground (arith, contains_left key k xs ys h lt)

pub insert_sorted-contains :
    (x key : ℕ) (ks : List ℕ) → contains key (insert_sorted x ks) ≡ (key == x || contains key ks)
unfolding contains insert_sorted
insert_sorted-contains x key [] = refl
insert_sorted-contains x key (k ∷ ks) = elim (Bool-cases (ltb k x)) [
  | inl e ↦ rw (e, insert_sorted-contains x key ks) (ground arith)
  | inr e ↦ rw e refl
]

pub absent_All : (key : ℕ) (xs : List ℕ) → contains key xs ≡ false → All (λ k. k ≢ key) xs
unfolding contains
absent_All key [] h = tt
absent_All key (x ∷ xs) h = ((λ e. ground (arith, h, e)), absent_All key xs (ground (arith, h)))

-- The first occurrence taken out.
unfoldable pub remove : ℕ → List ℕ → List ℕ
remove x [] = []
remove x (k ∷ ks) = if x == k then ks else k ∷ remove x ks

pub remove_middle :
    (x : ℕ) (ps qs : List ℕ) → All (λ p. p < x) ps → remove x (ps ++ x ∷ qs) ≡ ps ++ qs
unfolding remove
remove_middle x [] qs h = rw (==_self x) refl
remove_middle x (p ∷ ps) qs h = ground (arith, h.0, remove_middle x ps qs h.1)

pub Sorted-join : (x : ℕ) (ps qs : List ℕ) → Sorted (ps ++ x ∷ qs) → Sorted (ps ++ qs)
Sorted-join x [] qs h = h.1
Sorted-join x (p ∷ ps) qs h = (
  All-append _ ps qs (All-left _ ps (x ∷ qs) h.0) (All-right _ ps (x ∷ qs) h.0).1,
  Sorted-join x ps qs h.1,
)
