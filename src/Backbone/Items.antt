-- ===== src/Backbone/Items.antt =====
-- What a layout tree holds, and which of it a search finds.
use sto_layout.Base.{
  ℕ, zero, suc, ◌+◌, ◌<◌, ◌≤◌, ◌≡◌, refl, inl, inr, Bool, true, false, ◌||◌, List, [], ◌∷◌, ◌++◌,
  ◌==◌, ==_iff, get_or, Option, none, some, arith, Bool-cases, ◌∙◌, ap, sym,
}
use sto_layout.Tree.{Tree, nil, node}
use sto_layout.Tree.Spec.{keys, member}
use sto_layout.Tree.Build.{slice}
use sto_layout.Treelet
use sto_layout.Treelet.Spec.{as_tree, items as treelet_items}
use sto_layout.Backbone.{Layout, leaf, inner, Layouts, end, child, locate}

unfoldable pub elem : ℕ → List ℕ → Bool
elem x [] = false
elem x (y ∷ ys) = x == y || elem x ys

elem-append : (x : ℕ) (ys zs : List ℕ) → elem x (ys ++ zs) ≡ (elem x ys || elem x zs)
unfolding elem
elem-append x [] zs = refl
elem-append x (y ∷ ys) zs = ground (arith, elem-append x ys zs)

pub member-elem : (x : ℕ) (t : Tree) → member x t ≡ elem x (keys t)
unfolding member elem
member-elem x nil = refl
member-elem x (node k o l r) =
    rw (elem-append x (keys l) (k ∷ keys r)) (ground (arith, member-elem x l, member-elem x r))

pub elem-slice :
    (x : ℕ) (v : List ℕ) (b n j : ℕ)
    → b ≤ j
    → j < b + n
    → get_or v j 0 ≡ x
    → elem x (slice v b n) ≡ true
unfolding elem
elem-slice x v b zero j low high e = absurd (omega arith)
elem-slice x v b (suc n) j low high e = elim (Bool-cases (j == b)) [
  | inl here ↦ ground (arith, ap (λ (i : ℕ). get_or v i 0) ((==_iff j b).0 here))
  | inr later ↦ ground (arith, elem-slice x v (suc b) n j (ground arith) (omega arith) e)
]

-- Where an element of a slice stands.
pub record Position (x : ℕ) (v : List ℕ) (b n : ℕ) : Type 0 where
  pub at : ℕ
  pub from : b ≤ at
  pub to : at < b + n
  pub value : get_or v at 0 ≡ x

pub slice-Position : (x : ℕ) (v : List ℕ) (b n : ℕ) → elem x (slice v b n) ≡ true → Position x v b n
unfolding elem
slice-Position x v b zero h = cc
slice-Position x v b (suc n) h = elim (Bool-cases (x == get_or v b 0)) [
  | inl here ↦ record { at = b; from = omega arith; to = omega arith; value = ground arith }
  | inr later ↦
      let p = slice-Position x v (suc b) n (rw later at h) in
      record { at = p.at; from = omega (arith, p.from); to = omega (arith, p.to); value = p.value }
]

-- A part of a range that has all positions of an element decides about the element.
pub elem-slice_part :
    (x : ℕ) (v : List ℕ) (b n c m : ℕ)
    → b ≤ c
    → c + m ≤ b + n
    → ((j : ℕ) → b ≤ j → j < b + n → get_or v j 0 ≡ x → (c ≤ j) × (j < c + m))
    → elem x (slice v c m) ≡ elem x (slice v b n)
elem-slice_part x v b n c m low high only = elim (Bool-cases (elem x (slice v b n))) [
  | inl yes_there ↦
      let p = slice-Position x v b n yes_there in
      let part = only p.at p.from p.to p.value in
      elem-slice x v c m p.at part.0 part.1 p.value ∙ sym yes_there
  | inr not_there ↦ elim (Bool-cases (elem x (slice v c m))) [
    | inl found ↦
        let p = slice-Position x v c m found in
        let there = elem-slice x v b n p.at (omega (arith, p.from)) (omega (arith, p.to)) p.value in
        ground (arith, there)
    | inr absent ↦ absent ∙ sym not_there
  ]
]

-- Whether a search for a key, from the root down to a treelet and in it, ends at the key.
unfoldable pub in_treelet : ℕ → Option Treelet.Treelet → Bool
in_treelet key none = false
in_treelet key (some t) = member key (as_tree t)

unfoldable pub contains : ℕ → Layout → Bool
unfolding in_treelet
contains key t = in_treelet key (locate key t)

-- The items of the treelets, from left to right.
unfoldable mutual
  pub items : Layout → List ℕ
  items (leaf t) = treelet_items t
  items (inner ks next) = all_items next

  pub all_items : Layouts → List ℕ
  all_items end = []
  all_items (child t ts) = items t ++ all_items ts

abbrev pub count : Layouts → ℕ
count end = 0
count (child t ts) = suc (count ts)

-- Every path to a treelet passes `d` nodes, each with 16 children.
unfoldable mutual
  pub Uniform : ℕ → Layout → Type 0
  Uniform zero (leaf t) = Unit
  Uniform zero (inner ks next) = ⊥
  Uniform (suc d) (leaf t) = ⊥
  Uniform (suc d) (inner ks next) = (count next ≡ 16) × AllUniform d next

  pub AllUniform : ℕ → Layouts → Type 0
  AllUniform d end = Unit
  AllUniform d (child t ts) = Uniform d t × AllUniform d ts
