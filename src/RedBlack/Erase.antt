-- ===== src/RedBlack/Erase.antt =====
-- `erase` keeps the invariant of the tree and takes away one element.
use sto_layout.Base.Sorted.{
  Sorted, Sorted-IsSplit, contains, contains_right, contains_left, remove, remove_middle,
  Sorted-join,
}
use sto_layout.Base.{
  ℕ, ◌≡◌, sym, ◌∙◌, ap, subst, true, false, Option, some, List, [], ◌∷◌, ◌++◌, append_assoc,
  append-nil, arith, ◌==◌, ==_iff, ltb, ltb→lt, Bool-cases, inl, inr,
}
use sto_layout.RedBlack.{Color, RbTree, null, node, Frame, frame, RbRep}
use sto_layout.RedBlack.Order.{inorder, before, after}
use sto_layout.RedBlack.Limits.{head, last_of, IsRbRep}
use sto_layout.RedBlack.Delete.{erase, locate}
use sto_layout.RedBlack.Splice.{
  Sound, left-Sound, right-Sound, rekey, delete_node-Removed, true-false,
}

-- `locate` finds the node of an element.
record Located (x : ℕ) (t : RbTree) (path : List Frame) (r : Option (List Frame × RbTree))
    : Type 0 where
  pub place : List Frame
  pub c : Color
  pub l : RbTree
  pub r' : RbTree
  pub result : r ≡ some (place, node c x l r')
  pub sound : Sound place (node c x l r')
  pub elements :
      (before place ++ inorder l) ++ x ∷ (inorder r' ++ after place)
      ≡ before path ++ inorder t ++ after path

contains_nothing : (x : ℕ) → contains x [] ≡ true → ⊥
unfolding contains
contains_nothing x e = ground (arith, e)

locate-Located :
    (x : ℕ) (t : RbTree) (path : List Frame)
    → Sound path t
    → Sorted (inorder t)
    → contains x (inorder t) ≡ true
    → Located x t path (locate x t path)
unfolding locate
locate-Located x null path h o m = absurd (contains_nothing x m)
locate-Located x (node c k l r) path h o m =
    let split = Sorted-IsSplit (inorder l) k (inorder r) o in
    elim (Bool-cases (x == k)) [
      | inl e ↦ rw e (record {
        place = path;
        c = c;
        l = l;
        r' = r;
        result = ap (λ j. some (path, node c j l r)) (sym ((==_iff x k).0 e));
        sound = rekey path c k x l r h;
        elements = rw ((==_iff x k).0 e) (simp append_assoc);
      })
      | inr e ↦ elim (Bool-cases (ltb k x)) [
        | inl lt ↦
            let rest =
              locate-Located x r (frame true c k l ∷ path) (right-Sound path c k l r h) split.right
                (sym (contains_right x k (inorder l) (inorder r) split.below (ltb→lt k x lt))
                  ∙ m) in
            rw (e, lt)
              (record {
                place = rest.place;
                c = rest.c;
                l = rest.l;
                r' = rest.r';
                result = rest.result;
                sound = rest.sound;
                elements = rest.elements ∙ simp append_assoc;
              })
        | inr ge ↦
            let rest =
              locate-Located x l (frame false c k r ∷ path) (left-Sound path c k l r h) split.left
                (sym (contains_left x k (inorder l) (inorder r) split.above (ground arith)) ∙ m) in
            rw (e, ge)
              (record {
                place = rest.place;
                c = rest.c;
                l = rest.l;
                r' = rest.r';
                result = rest.result;
                sound = rest.sound;
                elements = rest.elements ∙ simp (append_assoc, append-nil);
              })
      ]
    ]

-- Erasing an element of the tree never fails: a red-black tree stays one, with the other elements in
-- their order, and the ends at the two limits.
pub erase-IsRbRep :
    (x : ℕ) (t : RbRep)
    → IsRbRep t
    → contains x (inorder t.root) ≡ true
    → (t' : RbRep) × (erase x t ≡ some t')
      × IsRbRep t'
      × (inorder t'.root ≡ remove x (inorder t.root))
unfolding erase
erase-IsRbRep x t h m =
    let at =
      locate-Located x t.root []
        (record {
          rules = h.tree.rules;
          fits = tt;
          color = λ e. absurd (true-false (sym e ∙ h.tree.root_black));
        })
        h.ordered m in
    let whole = at.elements ∙ append-nil (inorder t.root) in
    let ordered = subst Sorted (sym whole) h.ordered in
    let done =
      delete_node-Removed at.place at.c x at.l at.r' t at.sound ordered
        (h.first_head ∙ ap head (sym whole)) (h.last_end ∙ ap last_of (sym whole)) in
    (
      done.rep,
      rw at.result done.result,
      record {
        tree = done.is_tree;
        ordered = subst Sorted (sym done.elements) (
            Sorted-join x (before at.place ++ inorder at.l) (inorder at.r' ++ after at.place)
              ordered);
        first_head = done.first_head ∙ ap head (sym done.elements);
        last_end = done.last_end ∙ ap last_of (sym done.elements);
      },
      done.elements
          ∙ sym (
              ap (remove x) (sym whole)
              ∙ remove_middle x (before at.place ++ inorder at.l) (inorder at.r' ++ after at.place)
                  (Sorted-IsSplit _ x _ ordered).below),
    )
