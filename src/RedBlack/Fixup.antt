-- ===== src/RedBlack/Fixup.antt =====
-- `delete_node_fixup` makes up for the missing black node.
use sto_layout.Base.{
  ℕ, suc, ◌≡◌, refl, sym, ◌∙◌, ap, Bool, true, false, not, ◌&&◌, some, List, [], ◌∷◌, ◌++◌,
  append_assoc, append-nil, arith,
}
use sto_layout.RedBlack.{
  Color, RbTree, null, node, red, black, Frame, frame, is_red, make_black, plug, rotate, unwind,
}
use sto_layout.RedBlack.Order.{inorder, left_of, right_of, plug-inorder, make_black-unwind-inorder}
use sto_layout.RedBlack.Balance.{
  black_height, IsRedBlack, Fits, UnderRed, make_black-IsRbTree, unwind-IsRedBlack,
}
use sto_layout.RedBlack.Insert.{Restored}
use sto_layout.RedBlack.Delete.{blacken_children, fix_rotate}

-- What the rotations at the sibling leave at the parent's place.
pub record Rotated (f : Frame) (c : Color) (t : RbTree) (n : ℕ) : Type 0 where
  pub top : ℕ
  pub l : RbTree
  pub r : RbTree
  pub result : fix_rotate f t ≡ some (node c top l r)
  pub elements : inorder (node c top l r) ≡ left_of f ++ inorder t ++ right_of f
  pub left_rules : IsRedBlack l
  pub right_rules : IsRedBlack r
  pub left_black : is_red l ≡ false
  pub right_black : is_red r ≡ false
  pub left_height : black_height l ≡ suc n
  pub right_height : black_height r ≡ suc n

-- A black sibling of `n + 1` black nodes, with its children.
pub record Sibling (a b : RbTree) (n : ℕ) : Type 0 where
  pub rules_a : IsRedBlack a
  pub rules_b : IsRedBlack b
  pub height_a : black_height a ≡ n
  pub height_b : black_height b ≡ n

pub true-false : true ≡ false → ⊥
true-false e = ground (arith, e)

pub fix_rotate-Rotated :
    (side : Bool) (c : Color) (k y n : ℕ) (a b t : RbTree)
    → IsRedBlack t
    → black_height t ≡ n
    → Sibling a b n
    → (not (is_red a) && not (is_red b)) ≡ false
    → Rotated (frame side c k (node black y a b)) c t n
unfolding fix_rotate is_red rotate plug blacken_children make_black
fix_rotate-Rotated false c k y n a (node red z p q) t rt ht s e = record {
  top = _;
  l = _;
  r = _;
  result = refl;
  elements = simp append_assoc;
  left_rules = (rt, s.rules_a, ht ∙ sym s.height_a);
  right_rules = (s.rules_b.0, s.rules_b.1, s.rules_b.2);
  left_black = refl;
  right_black = refl;
  left_height = ap suc ht;
  right_height = ap suc s.height_b;
}
fix_rotate-Rotated false c k y n (node red z p q) null t rt ht s e = record {
  top = _;
  l = _;
  r = _;
  result = refl;
  elements = simp append_assoc;
  left_rules = (rt, s.rules_a.0, ht ∙ sym s.height_a);
  right_rules = (s.rules_a.1, s.rules_b, sym s.rules_a.2 ∙ s.height_a ∙ sym s.height_b);
  left_black = refl;
  right_black = refl;
  left_height = ap suc ht;
  right_height = ap suc (sym s.rules_a.2 ∙ s.height_a);
}
fix_rotate-Rotated false c k y n (node red z p q) (node black v i j) t rt ht s e = record {
  top = _;
  l = _;
  r = _;
  result = refl;
  elements = simp append_assoc;
  left_rules = (rt, s.rules_a.0, ht ∙ sym s.height_a);
  right_rules = (s.rules_a.1, s.rules_b, sym s.rules_a.2 ∙ s.height_a ∙ sym s.height_b);
  left_black = refl;
  right_black = refl;
  left_height = ap suc ht;
  right_height = ap suc (sym s.rules_a.2 ∙ s.height_a);
}
fix_rotate-Rotated true c k y n (node red z p q) b t rt ht s e = record {
  top = _;
  l = _;
  r = _;
  result = refl;
  elements = simp (append_assoc, append-nil);
  left_rules = (s.rules_a.0, s.rules_a.1, s.rules_a.2);
  right_rules = (s.rules_b, rt, s.height_b ∙ sym ht);
  left_black = refl;
  right_black = refl;
  left_height = ap suc s.height_a;
  right_height = ap suc s.height_b;
}
fix_rotate-Rotated true c k y n null (node red z p q) t rt ht s e = record {
  top = _;
  l = _;
  r = _;
  result = refl;
  elements = simp (append_assoc, append-nil);
  left_rules = (s.rules_a, s.rules_b.0, s.height_a ∙ sym s.height_b);
  right_rules = (s.rules_b.1, rt, sym s.rules_b.2 ∙ s.height_b ∙ sym ht);
  left_black = refl;
  right_black = refl;
  left_height = ap suc s.height_a;
  right_height = ap suc (sym s.rules_b.2 ∙ s.height_b);
}
fix_rotate-Rotated true c k y n (node black v i j) (node red z p q) t rt ht s e = record {
  top = _;
  l = _;
  r = _;
  result = refl;
  elements = simp (append_assoc, append-nil);
  left_rules = (s.rules_a, s.rules_b.0, s.height_a ∙ sym s.height_b);
  right_rules = (s.rules_b.1, rt, sym s.rules_b.2 ∙ s.height_b ∙ sym ht);
  left_black = refl;
  right_black = refl;
  left_height = ap suc s.height_a;
  right_height = ap suc (sym s.rules_b.2 ∙ s.height_b);
}
fix_rotate-Rotated false c k y n null null t rt ht s e = absurd (true-false e)
fix_rotate-Rotated false c k y n null (node black v i j) t rt ht s e = absurd (true-false e)
fix_rotate-Rotated false c k y n (node black z p q) null t rt ht s e = absurd (true-false e)
fix_rotate-Rotated false c k y n (node black z p q) (node black v i j) t rt ht s e =
    absurd (true-false e)
fix_rotate-Rotated true c k y n null null t rt ht s e = absurd (true-false e)
fix_rotate-Rotated true c k y n null (node black v i j) t rt ht s e = absurd (true-false e)
fix_rotate-Rotated true c k y n (node black z p q) null t rt ht s e = absurd (true-false e)
fix_rotate-Rotated true c k y n (node black z p q) (node black v i j) t rt ht s e =
    absurd (true-false e)

-- The black nodes on a path once the parent is counted.
abbrev pub level : Color → ℕ → ℕ
level red n = n
level black n = suc n

-- What fits under a parent, fits with the parent in the parent's place.
pub parent-Fits :
    (side : Bool) (c : Color) (k n : ℕ) (w : RbTree) (path : List Frame)
    → Fits n (frame side c k w ∷ path)
    → Fits (level c n) path
parent-Fits side red k n w path f = f.4
parent-Fits side black k n w path f = f.2

color-under :
    (side : Bool) (c : Color) (k n x : ℕ) (w l r : RbTree) (path : List Frame)
    → Fits n (frame side c k w ∷ path)
    → UnderRed path
    → is_red (node c x l r) ≡ false
unfolding is_red
color-under side red k n x w l r [] f u = absurd u
color-under side red k n x w l r (frame gpside red g v ∷ path) f u = absurd f.3
color-under side red k n x w l r (frame gpside black g v ∷ path) f u = absurd u
color-under side black k n x w l r path f u = refl

join :
    (c : Color) (x n : ℕ) (l r : RbTree)
    → IsRedBlack l
    → IsRedBlack r
    → is_red l ≡ false
    → is_red r ≡ false
    → black_height l ≡ n
    → black_height r ≡ n
    → IsRedBlack (node c x l r) × (black_height (node c x l r) ≡ level c n)
join red x n l r hl hr cl cr bl br = ((hl, hr, bl ∙ sym br, cl, cr), bl)
join black x n l r hl hr cl cr bl br = ((hl, hr, bl ∙ sym br), ap suc bl)

-- The rotations make up for the missing node.
pub Rotated-Restored :
    (side : Bool) (c : Color) (k n : ℕ) (w t : RbTree) (path : List Frame)
    (up : Rotated (frame side c k w) c t n)
    → Fits (suc n) (frame side c k w ∷ path)
    → Restored
        (frame side c k w ∷ path)
        t
        (some (make_black (unwind path (node c up.top up.l up.r))))
Rotated-Restored side c k n w t path up f =
    let whole =
      join c up.top (suc n) up.l up.r up.left_rules up.right_rules up.left_black up.right_black
        up.left_height up.right_height in
    record {
      tree = _;
      result = refl;
      is_tree = make_black-IsRbTree _ (
          unwind-IsRedBlack path (node c up.top up.l up.r) (level c (suc n)) whole.0 whole.1
            (parent-Fits side c k (suc n) w path f)
            (color-under side c k (suc n) up.top w up.l up.r path f));
      elements =
          make_black-unwind-inorder path (node c up.top up.l up.r)
          ∙ rw up.elements (simp append_assoc);
    }

swapped :
    (side : Bool) (k y n : ℕ) (a b t : RbTree)
    → IsRedBlack t
    → black_height t ≡ n
    → Sibling a b n
    → is_red a ≡ false
    → is_red b ≡ false
    → IsRedBlack (plug (frame side black k (node red y a b)) t)
      × (black_height (plug (frame side black k (node red y a b)) t) ≡ suc n)
      × (is_red (plug (frame side black k (node red y a b)) t) ≡ false)
      × (left_of (frame side black k (node red y a b))
          ≡ left_of (frame side red k (node black y a b)))
      × (right_of (frame side black k (node red y a b))
          ≡ right_of (frame side red k (node black y a b)))
unfolding plug is_red
swapped false k y n a b t rt ht s ca cb = (
  (rt, (s.rules_a, s.rules_b, s.height_a ∙ sym s.height_b, ca, cb), ht ∙ sym s.height_a),
  ap suc ht,
  refl,
  refl,
  refl,
)
swapped true k y n a b t rt ht s ca cb = (
  ((s.rules_a, s.rules_b, s.height_a ∙ sym s.height_b, ca, cb), rt, s.height_a ∙ sym ht),
  ap suc s.height_a,
  refl,
  refl,
  refl,
)

-- At a black sibling with black children and a red parent, the two exchange their colors.
pub swapped-Restored :
    (side : Bool) (k y n : ℕ) (a b t : RbTree) (path : List Frame)
    → IsRedBlack t
    → black_height t ≡ n
    → Sibling a b n
    → is_red a ≡ false
    → is_red b ≡ false
    → Fits (suc n) (frame side red k (node black y a b) ∷ path)
    → Restored
        (frame side red k (node black y a b) ∷ path)
        t
        (some (make_black (unwind path (plug (frame side black k (node red y a b)) t))))
swapped-Restored side k y n a b t path rt ht s ca cb f =
    let whole = swapped side k y n a b t rt ht s ca cb in
    record {
      tree = _;
      result = refl;
      is_tree = make_black-IsRbTree _ (
          unwind-IsRedBlack path (plug (frame side black k (node red y a b)) t) (suc n) whole.0
            whole.1 f.4 (λ u. whole.2));
      elements =
          make_black-unwind-inorder path (plug (frame side black k (node red y a b)) t)
          ∙ rw (plug-inorder (frame side black k (node red y a b)) t, whole.3, whole.4)
              (simp append_assoc);
    }
