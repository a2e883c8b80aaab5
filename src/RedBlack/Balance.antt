-- ===== src/RedBlack/Balance.antt =====
-- The color rules of a red-black tree, and the loop of `insert_commit` that restores them.
use sto_layout.Base.{ℕ, suc, ◌≡◌, refl, sym, ◌∙◌, ap, true, false, List, [], ◌∷◌}
use sto_layout.RedBlack.{
  RbTree, null, node, red, black, Frame, frame, is_red, make_black, plug, unwind,
}

-- The number of black nodes on the left spine, and so on any path.
abbrev pub black_height : RbTree → ℕ
black_height null = 0
black_height (node red k l r) = black_height l
black_height (node black k l r) = suc (black_height l)

-- No red node has a red child, and every path to a null child has as many black nodes.
abbrev pub IsRedBlack : RbTree → Type 0
IsRedBlack null = Unit
IsRedBlack (node red k l r) =
    IsRedBlack l
    × IsRedBlack r
    × (black_height l ≡ black_height r)
    × (is_red l ≡ false)
    × (is_red r ≡ false)
IsRedBlack (node black k l r) = IsRedBlack l × IsRedBlack r × (black_height l ≡ black_height r)

-- A parent exists and is black.
abbrev pub HasBlack : List Frame → Type 0
HasBlack [] = ⊥
HasBlack (frame side red k s ∷ path) = ⊥
HasBlack (frame side black k s ∷ path) = Unit

-- A subtree of `n` black nodes on each path fits at the end of a path.
abbrev pub Fits : ℕ → List Frame → Type 0
Fits n [] = Unit
Fits n (frame side red k s ∷ path) =
    IsRedBlack s × (black_height s ≡ n) × (is_red s ≡ false) × HasBlack path × Fits n path
Fits n (frame side black k s ∷ path) = IsRedBlack s × (black_height s ≡ n) × Fits (suc n) path

-- The hole is under a red node.
abbrev pub UnderRed : List Frame → Type 0
UnderRed [] = ⊥
UnderRed (frame side red k s ∷ path) = Unit
UnderRed (frame side black k s ∷ path) = ⊥

-- A tree with the color rules and a black root.
pub record IsRbTree (t : RbTree) : Type 0 where
  pub rules : IsRedBlack t
  pub root_black : is_red t ≡ false

pub make_black-IsRbTree : (t : RbTree) → IsRedBlack t → IsRbTree (make_black t)
unfolding make_black is_red
make_black-IsRbTree null h = record { rules = tt; root_black = refl }
make_black-IsRbTree (node red k l r) h = record { rules = (h.0, h.1, h.2); root_black = refl }
make_black-IsRbTree (node black k l r) h = record { rules = h; root_black = refl }

-- A subtree that fits, and is black under a red parent, makes a whole tree with the rules.
pub unwind-IsRedBlack :
    (path : List Frame) (t : RbTree) (n : ℕ)
    → IsRedBlack t
    → black_height t ≡ n
    → Fits n path
    → (UnderRed path → is_red t ≡ false)
    → IsRedBlack (unwind path t)
unfolding unwind plug is_red
unwind-IsRedBlack [] t n h b f u = h
unwind-IsRedBlack (frame true red k s ∷ frame side black d x ∷ path) t n h b f u =
    unwind-IsRedBlack (frame side black d x ∷ path) (node red k s t) n
      (f.0, h, f.1 ∙ sym b, f.2, u tt) f.1 f.4 (λ v. absurd v)
unwind-IsRedBlack (frame false red k s ∷ frame side black d x ∷ path) t n h b f u =
    unwind-IsRedBlack (frame side black d x ∷ path) (node red k t s) n
      (h, f.0, b ∙ sym f.1, u tt, f.2) b f.4 (λ v. absurd v)
unwind-IsRedBlack (frame side red k s ∷ []) t n h b f u = absurd f.3
unwind-IsRedBlack (frame side red k s ∷ frame gpside red d x ∷ path) t n h b f u = absurd f.3
unwind-IsRedBlack (frame true black k s ∷ path) t n h b f u =
    unwind-IsRedBlack path (node black k s t) (suc n) (f.0, h, f.1 ∙ sym b) (ap suc f.1) f.2
      (λ v. refl)
unwind-IsRedBlack (frame false black k s ∷ path) t n h b f u =
    unwind-IsRedBlack path (node black k t s) (suc n) (h, f.0, b ∙ sym f.1) (ap suc b) f.2
      (λ v. refl)
