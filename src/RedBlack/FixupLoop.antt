-- ===== src/RedBlack/FixupLoop.antt =====
-- The loop of `delete_node_fixup`, and the parent with a red sibling.
use sto_layout.Base.{
  ℕ, suc, ◌≡◌, refl, sym, ◌∙◌, ap, subst, Bool, true, false, not, ◌&&◌, some, List, [], ◌∷◌,
  append_assoc, append-nil, arith, Bool-cases, inl, inr,
}
use sto_layout.RedBlack.{
  Color, RbTree, null, node, red, black, Frame, frame, is_red, make_black, plug, rotate, unwind,
}
use sto_layout.RedBlack.Order.{
  left_of, right_of, plug-inorder, make_black-unwind-inorder, make_black-inorder,
}
use sto_layout.RedBlack.Balance.{
  black_height, IsRedBlack, Fits, make_black-IsRbTree, unwind-IsRedBlack,
}
use sto_layout.RedBlack.Insert.{Restored}
use sto_layout.RedBlack.Delete.{
  make_red, children_black, fix_here, fix_red_sibling, delete_node_fixup, step_down,
}
use sto_layout.RedBlack.Fixup.{
  Sibling, fix_rotate-Rotated, true-false, parent-Fits, Rotated-Restored, swapped-Restored, level,
}

-- `fix_here` under a red parent, as it is after the rotation at a red sibling.
fix_here_red-Restored :
    (side : Bool) (k y n : ℕ) (a b t : RbTree) (path : List Frame)
    → IsRedBlack t
    → black_height t ≡ n
    → Sibling a b n
    → Fits (suc n) (frame side red k (node black y a b) ∷ path)
    → Restored
        (frame side red k (node black y a b) ∷ path)
        t
        (fix_here t (frame side red k (node black y a b) ∷ path))
unfolding fix_here children_black make_red
fix_here_red-Restored side k y n a b t path rt ht s f =
    elim (Bool-cases (not (is_red a) && not (is_red b))) [
      | inl e ↦
          rw e (
            swapped-Restored side k y n a b t path rt ht s (ground (arith, e)) (ground (arith, e))
              f)
      | inr e ↦
          let up = fix_rotate-Rotated side red k y n a b t rt ht s e in
          rw (e, up.result) (Rotated-Restored side red k n (node black y a b) t path up f)
    ]

-- `fix_here` where a child of the sibling is red.
fix_here-Restored :
    (side : Bool) (c : Color) (k y n : ℕ) (a b t : RbTree) (path : List Frame)
    → IsRedBlack t
    → black_height t ≡ n
    → Sibling a b n
    → (not (is_red a) && not (is_red b)) ≡ false
    → Fits (suc n) (frame side c k (node black y a b) ∷ path)
    → Restored
        (frame side c k (node black y a b) ∷ path)
        t
        (fix_here t (frame side c k (node black y a b) ∷ path))
unfolding fix_here children_black
fix_here-Restored side c k y n a b t path rt ht s e f =
    let up = fix_rotate-Rotated side c k y n a b t rt ht s e in
    rw (e, up.result) (Rotated-Restored side c k n (node black y a b) t path up f)

-- The children of a black node, as a sibling has them.
node-Sibling :
    (v n : ℕ) (i j : RbTree)
    → IsRedBlack (node black v i j)
    → suc (black_height i) ≡ suc n
    → Sibling i j n
node-Sibling v n i j r h = record {
  rules_a = r.0;
  rules_b = r.1;
  height_a = omega (arith, h);
  height_b = omega (arith, h, r.2);
}

-- A red sibling: a rotation brings it up, and the place gets a black sibling under a red parent.
fix_red_sibling-Restored :
    (side : Bool) (k y n : ℕ) (a b t : RbTree) (path : List Frame)
    → IsRedBlack t
    → black_height t ≡ n
    → Fits (suc n) (frame side black k (node red y a b) ∷ path)
    → Restored
        (frame side black k (node red y a b) ∷ path)
        t
        (fix_red_sibling t (frame side black k (node red y a b) ∷ path))
unfolding fix_red_sibling rotate plug step_down is_red
fix_red_sibling-Restored false k y n null b t path rt ht f = absurd (omega (arith, f.1))
fix_red_sibling-Restored false k y n (node red v i j) b t path rt ht f = absurd (true-false f.0.3)
fix_red_sibling-Restored false k y n (node black v i j) b t path rt ht f =
    let low =
      fix_here_red-Restored false k v n i j t (frame false black y b ∷ path) rt ht
        (node-Sibling v n i j f.0.0 f.1) (f.0.0, f.1, refl, tt, (f.0.1, sym f.0.2 ∙ f.1, f.2)) in
    record {
      tree = low.tree;
      result = low.result;
      is_tree = low.is_tree;
      elements = low.elements ∙ simp append_assoc;
    }
fix_red_sibling-Restored true k y n a null t path rt ht f = absurd (omega (arith, f.1, f.0.2))
fix_red_sibling-Restored true k y n a (node red v i j) t path rt ht f = absurd (true-false f.0.4)
fix_red_sibling-Restored true k y n a (node black v i j) t path rt ht f =
    let low =
      fix_here_red-Restored true k v n i j t (frame true black y a ∷ path) rt ht
        (node-Sibling v n i j f.0.1 (sym f.0.2 ∙ f.1))
        (f.0.1, sym f.0.2 ∙ f.1, refl, tt, (f.0.0, f.1, f.2)) in
    record {
      tree = low.tree;
      result = low.result;
      is_tree = low.is_tree;
      elements = low.elements ∙ simp append_assoc;
    }

make_black-level :
    (t : RbTree) → is_red t ≡ true → black_height (make_black t) ≡ suc (black_height t)
unfolding is_red make_black
make_black-level null h = absurd (true-false (sym h))
make_black-level (node red k l r) h = refl
make_black-level (node black k l r) h = absurd (true-false (sym h))

make_black-is_red : (t : RbTree) → is_red (make_black t) ≡ false
unfolding is_red make_black
make_black-is_red null = refl
make_black-is_red (node c k l r) = refl

make_black-same : (t : RbTree) → is_red t ≡ false → make_black t ≡ t
unfolding is_red make_black
make_black-same null h = refl
make_black-same (node red k l r) h = absurd (true-false h)
make_black-same (node black k l r) h = refl

-- A red subtree is painted black.
painted-Restored :
    (side : Bool) (c : Color) (k n : ℕ) (w t : RbTree) (path : List Frame)
    → is_red t ≡ true
    → IsRedBlack (make_black t)
    → black_height t ≡ n
    → Fits (suc n) (frame side c k w ∷ path)
    → Restored
        (frame side c k w ∷ path)
        t
        (some (make_black (unwind path (plug (frame side c k w) (make_black t)))))
unfolding unwind
painted-Restored side c k n w t path e rt ht f = record {
  tree = _;
  result = refl;
  is_tree = make_black-IsRbTree _ (
      unwind-IsRedBlack (frame side c k w ∷ path) (make_black t) (suc n) rt
        (make_black-level t e ∙ ap suc ht) f (λ u. make_black-is_red t));
  elements =
      make_black-unwind-inorder (frame side c k w ∷ path) (make_black t)
      ∙ rw (make_black-inorder t) refl;
}

-- With a black node too few on one side, there is a node on the other.
sibling_exists :
    (side : Bool) (c : Color) (k n : ℕ) (path : List Frame)
    → Fits (suc n) (frame side c k null ∷ path)
    → ⊥
sibling_exists side red k n path f = absurd (omega (arith, f.1))
sibling_exists side black k n path f = absurd (omega (arith, f.1))

black-Sibling :
    (side : Bool) (c : Color) (k y n : ℕ) (a b : RbTree) (path : List Frame)
    → Fits (suc n) (frame side c k (node black y a b) ∷ path)
    → Sibling a b n
black-Sibling side red k y n a b path f = node-Sibling y n a b f.0 f.1
black-Sibling side black k y n a b path f = node-Sibling y n a b f.0 f.1

-- One round of the loop: the sibling turns red, and the parent's subtree has a black node too few.
repainted :
    (side : Bool) (c : Color) (k y n : ℕ) (a b t : RbTree)
    → IsRedBlack t
    → black_height t ≡ n
    → Sibling a b n
    → is_red a ≡ false
    → is_red b ≡ false
    → IsRedBlack (make_black (plug (frame side c k (node red y a b)) t))
      × (black_height (plug (frame side c k (node red y a b)) t) ≡ level c n)
      × (left_of (frame side c k (node red y a b)) ≡ left_of (frame side c k (node black y a b)))
      × (right_of (frame side c k (node red y a b)) ≡ right_of (frame side c k (node black y a b)))
      × (level c (suc n) ≡ suc (level c n))
unfolding plug make_black
repainted false red k y n a b t rt ht s ca cb = (
  (rt, (s.rules_a, s.rules_b, s.height_a ∙ sym s.height_b, ca, cb), ht ∙ sym s.height_a),
  ht,
  refl,
  refl,
  refl,
)
repainted false black k y n a b t rt ht s ca cb = (
  (rt, (s.rules_a, s.rules_b, s.height_a ∙ sym s.height_b, ca, cb), ht ∙ sym s.height_a),
  ap suc ht,
  refl,
  refl,
  refl,
)
repainted true red k y n a b t rt ht s ca cb = (
  ((s.rules_a, s.rules_b, s.height_a ∙ sym s.height_b, ca, cb), rt, s.height_a ∙ sym ht),
  s.height_a,
  refl,
  refl,
  refl,
)
repainted true black k y n a b t rt ht s ca cb = (
  ((s.rules_a, s.rules_b, s.height_a ∙ sym s.height_b, ca, cb), rt, s.height_a ∙ sym ht),
  ap suc s.height_a,
  refl,
  refl,
  refl,
)

-- The loop of `delete_node_fixup`: it never meets a null sibling, and its result is a red-black tree
-- with the same elements, where `t` with its root painted black keeps the rules.
pub delete_node_fixup-Restored :
    (path : List Frame) (n : ℕ) (t : RbTree)
    → IsRedBlack (make_black t)
    → black_height t ≡ n
    → Fits (suc n) path
    → Restored path t (delete_node_fixup t path)
unfolding delete_node_fixup children_black make_red is_red
delete_node_fixup-Restored [] n t rt ht f = record {
  tree = _;
  result = refl;
  is_tree = record { rules = rt; root_black = make_black-is_red t };
  elements = make_black-inorder t ∙ simp append-nil;
}
delete_node_fixup-Restored (frame side c k null ∷ path) n t rt ht f = elim (Bool-cases (is_red t)) [
  | inl e ↦ rw e (painted-Restored side c k n null t path e rt ht f)
  | inr e ↦ absurd (sibling_exists side c k n path f)
]
delete_node_fixup-Restored (frame side red k (node red y a b) ∷ path) n t rt ht f =
    absurd (true-false f.2)
delete_node_fixup-Restored (frame side black k (node red y a b) ∷ path) n t rt ht f =
    elim (Bool-cases (is_red t)) [
      | inl e ↦ rw e (painted-Restored side black k n (node red y a b) t path e rt ht f)
      | inr e ↦ rw e (
          fix_red_sibling-Restored side k y n a b t path (subst IsRedBlack (make_black-same t e) rt)
            ht f)
    ]
delete_node_fixup-Restored (frame side c k (node black y a b) ∷ path) n t rt ht f =
    let s = black-Sibling side c k y n a b path f in
    elim (Bool-cases (is_red t)) [
      | inl e ↦ rw e (painted-Restored side c k n (node black y a b) t path e rt ht f)
      | inr e ↦ elim (Bool-cases (not (is_red a) && not (is_red b))) [
        | inl both ↦
            let up =
              repainted side c k y n a b t (subst IsRedBlack (make_black-same t e) rt) ht s
                (ground (arith, both)) (ground (arith, both)) in
            let rest =
              delete_node_fixup-Restored path (level c n) (plug (frame side c k (node red y a b)) t)
                up.0 up.1
                (subst (λ m. Fits m path) up.4
                  (parent-Fits side c k (suc n) (node black y a b) path f)) in
            rw (e, both)
              (record {
                tree = rest.tree;
                result = rest.result;
                is_tree = rest.is_tree;
                elements =
                    rest.elements
                    ∙ rw (plug-inorder (frame side c k (node red y a b)) t, up.2, up.3)
                        (simp append_assoc);
              })
        | inr some_red ↦
            rw (e, some_red)
              (fix_here-Restored side c k y n a b t path (subst IsRedBlack (make_black-same t e) rt)
                ht s some_red f)
      ]
    ]
