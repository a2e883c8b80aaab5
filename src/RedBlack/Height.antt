-- ===== src/RedBlack/Height.antt =====
-- How deep a red-black tree is.
use sto_layout.Base.{
  ℕ, suc, ◌+◌, ◌*◌, ◌^◌, ◌≤◌, ◌≡◌, refl, sym, subst, if◌then◌else◌, max, arith, ◌∷◌, length,
  length-append,
}
use sto_layout.RedBlack.{RbTree, null, node, red, black, is_red, size}
use sto_layout.RedBlack.Order.{inorder}
use sto_layout.RedBlack.Balance.{black_height, IsRedBlack, IsRbTree}

abbrev pub height : RbTree → ℕ
height null = 0
height (node c k l r) = suc (max (height l) (height r))

size-inorder : (t : RbTree) → size t ≡ length (inorder t)
unfolding size
size-inorder null = refl
size-inorder (node c k l r) =
    omega (arith, size-inorder l, size-inorder r, length-append (inorder l) (k ∷ inorder r))

height-le :
    (t : RbTree) → IsRedBlack t → height t ≤ 2 * black_height t + (if is_red t then 1 else 0)
unfolding is_red
height-le null h = omega arith
height-le (node red k l r) h = ground (arith, height-le l h.0, height-le r h.1, h.2, h.3, h.4)
height-le (node black k l r) h = ground (arith, height-le l h.0, height-le r h.1, h.2)

full-le : (t : RbTree) → IsRedBlack t → 2 ^ black_height t ≤ size t + 1
unfolding size
full-le null h = omega arith
full-le (node red k l r) h = ground (arith, full-le l h.0)
full-le (node black k l r) h =
    let both : 2 ^ suc (black_height l) ≤ 1 + size l + size r + 1 =
      omega (arith, full-le l h.0, subst (λ n. 2 ^ n ≤ size r + 1) (sym h.2) (full-le r h.1)) in
    both

-- A red-black tree is at most `2 b` deep for a `b` where the tree has at least `2 ^ b - 1` nodes.
pub height-log : (t : RbTree) → IsRbTree t → (b : ℕ) × (height t ≤ 2 * b) × (2 ^ b ≤ size t + 1)
height-log t h =
    (black_height t, ground (arith, height-le t h.rules, h.root_black), full-le t h.rules)
