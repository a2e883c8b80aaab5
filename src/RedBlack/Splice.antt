-- ===== src/RedBlack/Splice.antt =====
-- `delete_node` at the place of its victim.
use sto_layout.Base.Sorted.{Sorted}
use sto_layout.Base.{
  ℕ, suc, ◌≡◌, refl, sym, ◌∙◌, ap, subst, true, false, Option, some, List, [], ◌∷◌, ◌++◌,
  append_assoc, append-nil, arith, if◌then◌else◌,
}
use sto_layout.RedBlack.{
  Color, RbTree, null, node, red, black, Frame, frame, RbRep, is_red, make_black, unwind,
}
use sto_layout.RedBlack.Order.{inorder, before, after, make_black-unwind-inorder}
use sto_layout.RedBlack.Balance.{
  black_height, IsRedBlack, Fits, HasBlack, IsRbTree, unwind-IsRedBlack, make_black-IsRbTree,
}
use sto_layout.RedBlack.Insert.{Restored}
use sto_layout.RedBlack.Limits.{head, last_of}
use sto_layout.RedBlack.Delete.{
  edge_node, new_limit, splice, leftmost, delete_node, delete_node_fixup, is_red_pointer,
}
use sto_layout.RedBlack.Ends.{
  first_removed, last_removed, cons-nil, append-cons-nil, new_first, new_last,
}
use sto_layout.RedBlack.Fixup.{level}
use sto_layout.RedBlack.FixupLoop.{delete_node_fixup-Restored}

-- A subtree and its parents have the colors of a red-black tree.
pub record Sound (path : List Frame) (t : RbTree) : Type 0 where
  pub rules : IsRedBlack t
  pub fits : Fits (black_height t) path
  pub color : is_red t ≡ true → HasBlack path

pub true-false : true ≡ false → ⊥
true-false e = ground (arith, e)

pub left-Sound :
    (path : List Frame) (c : Color) (k : ℕ) (l r : RbTree)
    → Sound path (node c k l r)
    → Sound (frame false c k r ∷ path) l
unfolding is_red
left-Sound path red k l r h = record {
  rules = h.rules.0;
  fits = (h.rules.1, sym h.rules.2, h.rules.4, h.color refl, h.fits);
  color = λ e. absurd (true-false (sym e ∙ h.rules.3));
}
left-Sound path black k l r h = record {
  rules = h.rules.0;
  fits = (h.rules.1, sym h.rules.2, h.fits);
  color = λ e. tt;
}

pub right-Sound :
    (path : List Frame) (c : Color) (k : ℕ) (l r : RbTree)
    → Sound path (node c k l r)
    → Sound (frame true c k l ∷ path) r
unfolding is_red
right-Sound path red k l r h = record {
  rules = h.rules.1;
  fits = (h.rules.0, h.rules.2, h.rules.3, h.color refl, subst (λ n. Fits n path) h.rules.2 h.fits);
  color = λ e. absurd (true-false (sym e ∙ h.rules.4));
}
right-Sound path black k l r h = record {
  rules = h.rules.1;
  fits = (h.rules.0, h.rules.2, subst (λ n. Fits (suc n) path) h.rules.2 h.fits);
  color = λ e. tt;
}

-- What the colors say where the victim has one child at most, `x`.
record OneChild (c : Color) (x : RbTree) (path : List Frame) : Type 0 where
  pub rules : IsRedBlack x
  pub fits : Fits (level c (black_height x)) path
  pub color : c ≡ red → (is_red x ≡ false) × HasBlack path

red-black : black ≡ red → ⊥
red-black e = ground (arith, e)

left_child :
    (c : Color) (k : ℕ) (x : RbTree) (path : List Frame)
    → Sound path (node c k x null)
    → OneChild c x path
unfolding is_red
left_child red k x path h = record {
  rules = h.rules.0;
  fits = h.fits;
  color = λ e. (h.rules.3, h.color refl);
}
left_child black k x path h = record {
  rules = h.rules.0;
  fits = h.fits;
  color = λ e. absurd (red-black e);
}

right_child :
    (c : Color) (k : ℕ) (x : RbTree) (path : List Frame)
    → Sound path (node c k null x)
    → OneChild c x path
unfolding is_red
right_child red k x path h = record {
  rules = h.rules.1;
  fits = subst (λ n. Fits n path) h.rules.2 h.fits;
  color = λ e. (h.rules.4, h.color refl);
}
right_child black k x path h = record {
  rules = h.rules.1;
  fits = subst (λ n. Fits (suc n) path) h.rules.2 h.fits;
  color = λ e. absurd (red-black e);
}

make_black-IsRedBlack : (t : RbTree) → IsRedBlack t → IsRedBlack (make_black t)
make_black-IsRedBlack t h = (make_black-IsRbTree t h).rules

spliced-Restored :
    (c : Color) (x : RbTree) (path : List Frame)
    → OneChild c x path
    → Restored path x (
        if is_red_pointer c path
        then some (make_black (unwind path x))
        else delete_node_fixup x path)
spliced-Restored red x [] h = absurd (h.color refl).1
spliced-Restored red x (f ∷ path) h = record {
  tree = _;
  result = refl;
  is_tree =
      make_black-IsRbTree _ (
        unwind-IsRedBlack (f ∷ path) x (black_height x) h.rules refl h.fits
          (λ u. (h.color refl).0));
  elements = make_black-unwind-inorder (f ∷ path) x;
}
spliced-Restored black x path h =
    delete_node_fixup-Restored path (black_height x) x (make_black-IsRedBlack x h.rules) refl h.fits

-- What is left of a tree without the element between `ps` and `qs`.
pub record Removed (ps qs : List ℕ) (r : Option RbRep) : Type 0 where
  pub rep : RbRep
  pub result : r ≡ some rep
  pub is_tree : IsRbTree rep.root
  pub elements : inorder rep.root ≡ ps ++ qs
  pub first_head : rep.first ≡ head (ps ++ qs)
  pub last_end : rep.last ≡ last_of (ps ++ qs)

splice-Removed :
    (k : ℕ) (c : Color) (x : RbTree) (path : List Frame) (t : RbRep) (ps qs : List ℕ)
    → OneChild c x path
    → before path ++ inorder x ++ after path ≡ ps ++ qs
    → Sorted (ps ++ k ∷ qs)
    → t.first ≡ head (ps ++ k ∷ qs)
    → t.last ≡ last_of (ps ++ k ∷ qs)
    → (ps ≡ [] → new_limit false x path ≡ head qs)
    → (qs ≡ [] → new_limit true x path ≡ last_of ps)
    → Removed ps qs (splice k c x path t)
unfolding splice
splice-Removed k c x path t ps qs h e o hf hl lo hi =
    let up = spliced-Restored c x path h in
    rw up.result (record {
      rep = _;
      result = refl;
      is_tree = up.is_tree;
      elements = up.elements ∙ e;
      first_head = rw hf (first_removed ps qs k (new_limit false x path) o lo);
      last_end = rw hl (last_removed ps qs k (new_limit true x path) o hi);
    })

append-left-nil : (xs ys : List ℕ) → xs ++ ys ≡ [] → xs ≡ []
append-left-nil [] ys e = refl
append-left-nil (x ∷ xs) ys e = absurd (cons-nil _ _ e)

append-right-nil : (xs ys : List ℕ) → xs ++ ys ≡ [] → ys ≡ []
append-right-nil [] ys e = e
append-right-nil (x ∷ xs) ys e = absurd (cons-nil _ _ e)

pub rekey :
    (path : List Frame) (c : Color) (k s : ℕ) (l r : RbTree)
    → Sound path (node c k l r)
    → Sound path (node c s l r)
unfolding is_red
rekey path red k s l r h = record { rules = h.rules; fits = h.fits; color = h.color }
rekey path black k s l r h = record { rules = h.rules; fits = h.fits; color = h.color }

-- The successor's place: under it, the same elements but for the successor itself, which comes first.
record Leftmost (path : List Frame) (c : Color) (k : ℕ) (l r : RbTree)
    (p : List Frame × Color × RbTree) : Type 0 where
  pub sound : OneChild p.1 p.2 p.0
  pub same_before : before p.0 ≡ before path
  pub same_after :
      inorder (node c k l r) ++ after path ≡ edge_node false k l ∷ (inorder p.2 ++ after p.0)

leftmost-Leftmost :
    (path : List Frame) (c : Color) (k : ℕ) (l r : RbTree)
    → Sound path (node c k l r)
    → Leftmost path c k l r (leftmost path c k l r)
unfolding leftmost edge_node
leftmost-Leftmost path c k null r h = record {
  sound = right_child c k r path h;
  same_before = refl;
  same_after = refl;
}
leftmost-Leftmost path c k (node d j a b) r h =
    let down =
      leftmost-Leftmost (frame false c k r ∷ path) d j a b
        (left-Sound path c k (node d j a b) r h) in
    record {
      sound = down.sound;
      same_before = down.same_before ∙ append-nil (before path);
      same_after =
          append_assoc (inorder (node d j a b)) (k ∷ inorder r) (after path) ∙ down.same_after;
    }

successor_elements :
    (bs ls rs cs bs' xs cs' : List ℕ) (s : ℕ)
    → bs' ≡ bs ++ (ls ++ s ∷ [])
    → rs ++ cs ≡ s ∷ (xs ++ cs')
    → (bs' ++ xs) ++ cs' ≡ (bs ++ ls) ++ (rs ++ cs)
successor_elements bs ls rs cs bs' xs cs' s e f = rw (e, f) (simp append_assoc)

pub delete_node-Removed :
    (path : List Frame) (c : Color) (k : ℕ) (l r : RbTree) (t : RbRep)
    → Sound path (node c k l r)
    → Sorted ((before path ++ inorder l) ++ k ∷ (inorder r ++ after path))
    → t.first ≡ head ((before path ++ inorder l) ++ k ∷ (inorder r ++ after path))
    → t.last ≡ last_of ((before path ++ inorder l) ++ k ∷ (inorder r ++ after path))
    → Removed
        (before path ++ inorder l)
        (inorder r ++ after path)
        (delete_node path (node c k l r) t)
unfolding delete_node
delete_node-Removed path c k null r t h o hf hl =
    splice-Removed k c r path t (before path ++ []) (inorder r ++ after path)
      (right_child c k r path h) (simp (append_assoc, append-nil)) o hf hl
      (λ e. new_first r path (append-left-nil (before path) [] e))
      (λ e.
        new_last r path (append-right-nil (inorder r) (after path) e)
        ∙ ap (λ xs. last_of (before path ++ xs)) (append-left-nil (inorder r) (after path) e))
delete_node-Removed path c k (node d j a b) null t h o hf hl =
    splice-Removed k c (node d j a b) path t (before path ++ inorder (node d j a b)) (after path)
      (left_child c k (node d j a b) path h) refl o hf hl
      (λ e.
        absurd (append-cons-nil _ _ _ (append-right-nil (before path) (inorder (node d j a b)) e)))
      (λ e. new_last (node d j a b) path e)
delete_node-Removed path c k (node e i m n) (node d j a b) t h o hf hl =
    let s = edge_node false j a in
    let down = leftmost-Leftmost (frame true c s (node e i m n) ∷ path) d j a b (
      right-Sound path c s (node e i m n) (node d j a b)
        (rekey path c k s (node e i m n) (node d j a b) h)) in
    splice-Removed k _ _ _ t (before path ++ inorder (node e i m n))
      (inorder (node d j a b) ++ after path) down.sound
      (successor_elements (before path) (inorder (node e i m n)) (inorder (node d j a b))
        (after path) _ _ _ s down.same_before down.same_after)
      o hf hl
      (λ z.
        absurd (append-cons-nil _ _ _ (append-right-nil (before path) (inorder (node e i m n)) z)))
      (λ z.
        absurd (append-cons-nil _ _ _ (append-left-nil (inorder (node d j a b)) (after path) z)))
