-- ===== src/RedBlack/Insert.antt =====
-- The loop of `insert_commit` always ends in a tree with the color rules and one element more.
use sto_layout.Base.{
  ℕ, suc, ◌≡◌, refl, sym, ◌∙◌, ap, Bool, true, false, Option, some, List, [], ◌∷◌, ◌++◌,
  append_assoc, append-nil,
}
use sto_layout.RedBlack.{
  RbTree, null, node, red, black, Frame, frame, is_red, make_black, reverse_color, plug, rotate,
  flip, unwind, rotate_up, flip_up,
}
use sto_layout.RedBlack.Order.{
  inorder, before, after, left_of, right_of, make_black-unwind-inorder, make_black-inorder,
}
use sto_layout.RedBlack.Balance.{
  black_height, IsRedBlack, Fits, IsRbTree, make_black-IsRbTree, unwind-IsRedBlack,
}

-- What the rotations leave at the grandparent's place: the same elements under a black node.
record Rotated (f g : Frame) (t : RbTree) (n : ℕ) : Type 0 where
  pub z : RbTree
  pub result : rotate_up f g t ≡ some z
  pub rules : IsRedBlack z
  pub is_black : is_red z ≡ false
  pub height : black_height z ≡ suc n
  pub elements : inorder z ≡ left_of g ++ left_of f ++ inorder t ++ right_of f ++ right_of g

rotate_up-Rotated :
    (side gpside : Bool) (k g x n : ℕ) (s u a b : RbTree)
    → IsRedBlack (node red x a b)
    → black_height a ≡ n
    → IsRedBlack s
    → black_height s ≡ n
    → is_red s ≡ false
    → IsRedBlack u
    → black_height u ≡ n
    → is_red u ≡ false
    → Rotated (frame side red k s) (frame gpside black g u) (node red x a b) n
unfolding rotate_up rotate plug is_red
rotate_up-Rotated true true k g x n s u a b t ha hs bs rs hu bu ru = record {
  z = _;
  result = refl;
  rules = ((hu, hs, bu ∙ sym bs, ru, rs), t, bu ∙ sym ha);
  is_black = refl;
  height = ap suc bu;
  elements = simp (append_assoc, append-nil);
}
rotate_up-Rotated false false k g x n s u a b t ha hs bs rs hu bu ru = record {
  z = _;
  result = refl;
  rules = (t, (hs, hu, bs ∙ sym bu, rs, ru), ha ∙ sym bs);
  is_black = refl;
  height = ap suc ha;
  elements = simp (append_assoc, append-nil);
}
rotate_up-Rotated true false k g x n s u a b t ha hs bs rs hu bu ru = record {
  z = _;
  result = refl;
  rules = (
    (hs, t.0, bs ∙ sym ha, rs, t.3),
    (t.1, hu, sym t.2 ∙ ha ∙ sym bu, t.4, ru),
    bs ∙ sym ha ∙ t.2,
  );
  is_black = refl;
  height = ap suc bs;
  elements = simp (append_assoc, append-nil);
}
rotate_up-Rotated false true k g x n s u a b t ha hs bs rs hu bu ru = record {
  z = _;
  result = refl;
  rules = (
    (hu, t.0, bu ∙ sym ha, ru, t.3),
    (t.1, hs, sym t.2 ∙ ha ∙ sym bs, t.4, rs),
    bu ∙ sym ha ∙ t.2,
  );
  is_black = refl;
  height = ap suc bu;
  elements = simp (append_assoc, append-nil);
}

-- A flip makes the grandparent red, and keeps the elements.
record Flipped (f g : Frame) (t : RbTree) (top n : ℕ) : Type 0 where
  pub left : RbTree
  pub right : RbTree
  pub result : flip (plug g (plug f t)) ≡ some (node red top left right)
  pub rules : IsRedBlack (node red top left right)
  pub height : black_height left ≡ suc n
  pub elements :
      inorder (node red top left right)
      ≡ left_of g ++ left_of f ++ inorder t ++ right_of f ++ right_of g

flip-Flipped :
    (side gpside : Bool) (k g x y n : ℕ) (s l r a b : RbTree)
    → IsRedBlack (node red x a b)
    → black_height a ≡ n
    → IsRedBlack s
    → black_height s ≡ n
    → IsRedBlack (node red y l r)
    → black_height l ≡ n
    → Flipped (frame side red k s) (frame gpside black g (node red y l r)) (node red x a b) g n
unfolding plug flip reverse_color is_red
flip-Flipped true true k g x y n s l r a b t ha hs bs hu bu = record {
  left = _;
  right = _;
  result = refl;
  rules = ((hu.0, hu.1, hu.2), (hs, t, bs ∙ sym ha), ap suc (bu ∙ sym bs), refl, refl);
  height = ap suc bu;
  elements = simp (append_assoc, append-nil);
}
flip-Flipped true false k g x y n s l r a b t ha hs bs hu bu = record {
  left = _;
  right = _;
  result = refl;
  rules = ((hs, t, bs ∙ sym ha), (hu.0, hu.1, hu.2), ap suc (bs ∙ sym bu), refl, refl);
  height = ap suc bs;
  elements = simp (append_assoc, append-nil);
}
flip-Flipped false true k g x y n s l r a b t ha hs bs hu bu = record {
  left = _;
  right = _;
  result = refl;
  rules = ((hu.0, hu.1, hu.2), (t, hs, ha ∙ sym bs), ap suc (bu ∙ sym ha), refl, refl);
  height = ap suc bu;
  elements = simp (append_assoc, append-nil);
}
flip-Flipped false false k g x y n s l r a b t ha hs bs hu bu = record {
  left = _;
  right = _;
  result = refl;
  rules = ((t, hs, ha ∙ sym bs), (hu.0, hu.1, hu.2), ap suc (ha ∙ sym bu), refl, refl);
  height = ap suc ha;
  elements = simp (append_assoc, append-nil);
}

-- The whole loop: it never misses a grandparent or a child to rotate, and its result is a red-black
-- tree with the elements before, in and after `t`.
pub record Restored (path : List Frame) (t : RbTree) (r : Option RbTree) : Type 0 where
  pub tree : RbTree
  pub result : r ≡ some tree
  pub is_tree : IsRbTree tree
  pub elements : inorder tree ≡ before path ++ inorder t ++ after path

-- After the rotations nothing above is red next to the new subtree.
Rotated-Restored :
    (f g : Frame) (path : List Frame) (t : RbTree) (n : ℕ) (up : Rotated f g t n)
    → Fits (suc n) path
    → Restored (f ∷ g ∷ path) t (some (make_black (unwind path up.z)))
Rotated-Restored f g path t n up fits = record {
  tree = _;
  result = refl;
  is_tree =
      make_black-IsRbTree _
        (unwind-IsRedBlack path up.z (suc n) up.rules up.height fits (λ u. up.is_black));
  elements = rw (make_black-unwind-inorder path up.z, up.elements) (simp append_assoc);
}

pub flip_up-Restored :
    (path : List Frame) (x n : ℕ) (a b : RbTree)
    → IsRedBlack (node red x a b)
    → black_height a ≡ n
    → Fits n path
    → Restored path (node red x a b) (flip_up (node red x a b) path)
unfolding flip_up is_red
flip_up-Restored [] x n a b t ha f = record {
  tree = _;
  result = refl;
  is_tree = make_black-IsRbTree (node red x a b) t;
  elements = make_black-inorder (node red x a b) ∙ simp append-nil;
}
flip_up-Restored (frame side black k s ∷ path) x n a b t ha f = record {
  tree = _;
  result = refl;
  is_tree =
      make_black-IsRbTree _
        (unwind-IsRedBlack (frame side black k s ∷ path) (node red x a b) n t ha f (λ u. absurd u));
  elements = make_black-unwind-inorder (frame side black k s ∷ path) (node red x a b);
}
flip_up-Restored (frame side red k s ∷ []) x n a b t ha f = absurd f.3
flip_up-Restored (frame side red k s ∷ frame gpside red g u ∷ path) x n a b t ha f = absurd f.3
flip_up-Restored (frame side red k s ∷ frame gpside black g (node red y l r) ∷ path) x n a b t ha
      f =
    let up = flip-Flipped side gpside k g x y n s l r a b t ha f.0 f.1 f.4.0 f.4.1 in
    let rest = flip_up-Restored path g (suc n) up.left up.right up.rules up.height f.4.2 in
    rw up.result (record {
      tree = rest.tree;
      result = rest.result;
      is_tree = rest.is_tree;
      elements = rw (rest.elements, up.elements) (simp append_assoc);
    })
flip_up-Restored (frame side red k s ∷ frame gpside black g null ∷ path) x n a b t ha f =
    let up = rotate_up-Rotated side gpside k g x n s null a b t ha f.0 f.1 f.2 f.4.0 f.4.1 refl in
    rw up.result (Rotated-Restored _ _ path _ n up f.4.2)
flip_up-Restored (frame side red k s ∷ frame gpside black g (node black y l r) ∷ path) x n a b t ha
      f =
    let up =
      rotate_up-Rotated side gpside k g x n s (node black y l r) a b t ha f.0 f.1 f.2 f.4.0 f.4.1
        refl in
    rw up.result (Rotated-Restored _ _ path _ n up f.4.2)
