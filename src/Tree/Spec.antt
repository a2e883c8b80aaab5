-- ===== src/Tree/Spec.antt =====
-- What the tree stands for: the list of its keys from left to right, and the set of them.
use sto_layout.Base.{
  ℕ, ◌<◌, ◌≤◌, ◌≡◌, refl, Bool, false, ◌||◌, List, [], ◌∷◌, ◌++◌, ◌==◌, arith, length,
  length-append, append_assoc, append-nil, ap,
}
use sto_layout.Tree.{Tree, nil, node, search, size, add_items}

abbrev pub keys : Tree → List ℕ
keys nil = []
keys (node k o l r) = keys l ++ k ∷ keys r

unfoldable pub member : ℕ → Tree → Bool
member x nil = false
member x (node k o l r) = x == k || member x l || member x r

-- Every key is below, or above, a bound.
abbrev pub IsBelow : ℕ → Tree → Type 0
IsBelow b nil = Unit
IsBelow b (node k o l r) = (k < b) × IsBelow b l × IsBelow b r

abbrev pub IsAbove : ℕ → Tree → Type 0
IsAbove b nil = Unit
IsAbove b (node k o l r) = (b < k) × IsAbove b l × IsAbove b r

abbrev pub IsSearchTree : Tree → Type 0
IsSearchTree nil = Unit
IsSearchTree (node k o l r) = IsBelow k l × IsAbove k r × IsSearchTree l × IsSearchTree r

pub IsBelow-trans : {a b : ℕ} (t : Tree) → a ≤ b → IsBelow a t → IsBelow b t
IsBelow-trans nil h s = tt
IsBelow-trans (node k o l r) h s = (omega arith, IsBelow-trans l h s.1, IsBelow-trans r h s.2)

pub IsAbove-trans : {a b : ℕ} (t : Tree) → b ≤ a → IsAbove a t → IsAbove b t
IsAbove-trans nil h s = tt
IsAbove-trans (node k o l r) h s = (omega arith, IsAbove-trans l h s.1, IsAbove-trans r h s.2)

-- A key outside the bound is no member.
pub IsBelow-member : (x b : ℕ) (t : Tree) → IsBelow b t → b ≤ x → member x t ≡ false
unfolding member
IsBelow-member x b nil s h = refl
IsBelow-member x b (node k o l r) s h =
    ground (arith, IsBelow-member x b l s.1 h, IsBelow-member x b r s.2 h)

pub IsAbove-member : (x b : ℕ) (t : Tree) → IsAbove b t → x ≤ b → member x t ≡ false
unfolding member
IsAbove-member x b nil s h = refl
IsAbove-member x b (node k o l r) s h =
    ground (arith, IsAbove-member x b l s.1 h, IsAbove-member x b r s.2 h)

-- `search` decides membership.
pub search-member : (x : ℕ) (t : Tree) → IsSearchTree t → search x t ≡ member x t
unfolding search member
search-member x nil s = refl
search-member x (node k o l r) s = ground (
  arith,
  search-member x l s.2,
  search-member x r s.3,
  IsBelow-member x k l s.0,
  IsAbove-member x k r s.1,
)

-- `addItems` appends the keys in order, and returns how many there are, as `size` does.
pub add_items_lem : (t : Tree) (v : List ℕ) → add_items t v ≡ (v ++ keys t, length (keys t))
unfolding add_items
add_items_lem nil v = simp append-nil
add_items_lem (node k o l r) v =
    simp (add_items_lem l v, add_items_lem r, append_assoc, length-append)
      (ap (λ n. (v ++ (keys l ++ k ∷ keys r), n)) (omega arith))

pub size-keys : (t : Tree) → size t ≡ length (keys t)
unfolding size
size-keys nil = refl
size-keys (node k o l r) =
    omega (arith, size-keys l, size-keys r, length-append {0} (keys l) (k ∷ keys r))
