-- ===== src/SortedList/Installing.antt =====
-- One installation: what the transaction saw stays in view.
use sto_layout.Base.{
  ℕ, ◌<◌, ◌≡◌, ◌≢◌, refl, ap, sym, subst, ◌∙◌, Bool, true, false, if◌then◌else◌, ◌==◌, ==_self,
  update, List, [], ◌∷◌, ◌++◌, All, All-append, arith, Bool-cases, inl, inr,
}
use sto_layout.SortedList.{ListNode, NodeItem, node_item, make_valid, install_nodes}
use sto_layout.SortedList.Split.{Increasing, remove_node-split}
use sto_layout.SortedList.View.{
  visible, view, ItemFits, untouched, inserted, deleted, updated, view-append, view_elsewhere,
}
use sto_layout.SortedList.Change.{
  All-parts, All-left, away_ps, away_qs, view_at, fit_changed, items_elsewhere, Increasing-join,
  Increasing-put,
}

abbrev pub no_item : NodeItem
no_item = node_item false false false false false

-- The values of the valid nodes: what a transaction without items sees.
abbrev pub committed : List ListNode → List ℕ
committed nodes = view (λ k. no_item) nodes

unfoldable pub is_written : NodeItem → Bool
is_written (node_item read write insert delete doupdate) = write

pub record Fitting (items : ℕ → NodeItem) (nodes : List ListNode) : Type 0 where
  pub increasing : Increasing nodes
  pub items_fit : All (λ n. ItemFits n.is_valid (items n.val)) nodes
  pub fresh : (k : ℕ) → All (λ n. n.val ≢ k) nodes → is_written (items k) ≡ false

make_valid-split :
    (n : ListNode) (ps qs : List ListNode)
    → All (λ m. m.val < n.val) ps
    → make_valid n.val (ps ++ n ∷ qs) ≡ ps ++ (record n { is_valid = true }) ∷ qs
unfolding make_valid
make_valid-split n [] qs hp = rw (==_self n.val) refl
make_valid-split n (p ∷ ps) qs hp = ground (arith, hp.0, make_valid-split n ps qs hp.1)

-- Without a write an item does not show.
plain-visible :
    (v : Bool) (it : NodeItem)
    → ItemFits v it
    → is_written it ≡ false
    → visible v it ≡ visible v no_item
unfolding visible is_written
plain-visible _ _ (untouched v r) e = refl
plain-visible _ _ (inserted r) e = absurd (ground (arith, e))
plain-visible _ _ (deleted r) e = absurd (ground (arith, e))
plain-visible _ _ (updated r) e = absurd (ground (arith, e))

pub nothing_left :
    (items : ℕ → NodeItem) (nodes : List ListNode)
    → All (λ n. ItemFits n.is_valid (items n.val)) nodes
    → All (λ n. is_written (items n.val) ≡ false) nodes
    → committed nodes ≡ view items nodes
unfolding view
nothing_left items [] f w = refl
nothing_left items (n ∷ ns) f w =
    rw (nothing_left items ns f.1 w.1, plain-visible n.is_valid (items n.val) f.0 w.0) refl

-- One installation: the same view once the item is done with.
pub record Installed (items : ℕ → NodeItem) (nodes nodes' : List ListNode) (k : ℕ) : Type 1 where
  pub fitting : Fitting (update items k no_item) nodes'
  pub sees : view (update items k no_item) nodes' ≡ view items nodes
  pub subset : (Q : ℕ → Type 0) → All (λ n. Q n.val) nodes → All (λ n. Q n.val) nodes'

module _ (items : ℕ → NodeItem) (n : ListNode) (ps qs : List ListNode)
    (below : All (λ m. m.val < n.val) ps) (above : All (λ m. n.val < m.val) qs)
    (h : Fitting items (ps ++ n ∷ qs)) where
  old_view :
      view items (ps ++ n ∷ qs)
      ≡ view items ps
        ++ (if visible n.is_valid (items n.val) then n.val ∷ view items qs else view items qs)
  unfolding view
  old_view = view-append items ps (n ∷ qs)

  fits :
      All (λ m. ItemFits m.is_valid (items m.val)) ps
      × ItemFits n.is_valid (items n.val)
      × All (λ m. ItemFits m.is_valid (items m.val)) qs
  fits = All-parts (λ m. ItemFits m.is_valid (items m.val)) ps n qs h.items_fit

  -- The node with another mark in its place.
  kept :
      (v : Bool)
      → visible v no_item ≡ visible n.is_valid (items n.val)
      → Installed items (ps ++ n ∷ qs) (ps ++ (record { val = n.val; is_valid = v }) ∷ qs) n.val
  unfolding is_written
  kept v e = record {
    fitting = record {
      increasing =
          Increasing-put ps (record { val = n.val; is_valid = v }) qs below above
            (Increasing-join ps n qs h.increasing);
      items_fit =
          fit_changed items (record { val = n.val; is_valid = v }) ps qs below above no_item
            (untouched v false) fits.0 fits.2;
      fresh = λ k far. elim (Bool-cases (n.val == k)) [
        | inl at ↦ rw at refl
        | inr off ↦
            let parts =
              All-parts (λ m. m.val ≢ k) ps (record { val = n.val; is_valid = v }) qs far in
            rw off (h.fresh k (All-append _ ps (n ∷ qs) parts.0 (parts.1, parts.2)))
      ];
    };
    sees =
        view_at items (record { val = n.val; is_valid = v }) ps qs below above no_item
        ∙ rw (old_view, e) refl;
    subset = λ Q all.
        let parts = All-parts (λ m. Q m.val) ps n qs all in
        All-append _ ps ((record { val = n.val; is_valid = v }) ∷ qs) parts.0 (parts.1, parts.2);
  }

  taken : visible n.is_valid (items n.val) ≡ false → Installed items (ps ++ n ∷ qs) (ps ++ qs) n.val
  unfolding is_written
  taken e =
      let away =
        All-append (λ m. m.val ≢ n.val) ps qs (away_ps items n ps qs below above)
          (away_qs items n ps qs below above) in
      record {
        fitting = record {
          increasing = Increasing-join ps n qs h.increasing;
          items_fit =
              items_elsewhere items n.val no_item (ps ++ qs) away
                (All-append _ ps qs fits.0 fits.2);
          fresh = λ k far. elim (Bool-cases (n.val == k)) [
            | inl at ↦ rw at refl
            | inr off ↦
                let parts = All-left (λ m. m.val ≢ k) ps qs far in
                rw off (
                  h.fresh k
                    (All-append _ ps (n ∷ qs) parts.0 ((λ w. ground (arith, w, off)), parts.1)))
          ];
        };
        sees =
            view_elsewhere items n.val no_item (ps ++ qs) away
            ∙ view-append items ps qs
            ∙ rw (old_view, e) refl;
        subset = λ Q all.
            let parts = All-parts (λ m. Q m.val) ps n qs all in All-append _ ps qs parts.0 parts.2;
      }

  -- `install` at the node, whatever the item with a write says.
  pub install_nodes-Installed :
      (v : Bool) (it : NodeItem)
      → ItemFits v it
      → n.is_valid ≡ v
      → items n.val ≡ it
      → is_written it ≡ true
      → Installed items (ps ++ n ∷ qs) (install_nodes n.val it (ps ++ n ∷ qs)) n.val
  unfolding install_nodes is_written visible
  install_nodes-Installed _ _ (untouched v r) e f w = absurd (ground (arith, w))
  install_nodes-Installed _ _ (inserted r) e f w =
      rw (make_valid-split n ps qs below) (kept true (rw (e, f) refl))
  install_nodes-Installed _ _ (deleted r) e f w =
      rw (remove_node-split n ps qs below) (taken (rw (e, f) refl))
  install_nodes-Installed _ _ (updated r) e f w =
      subst (λ m. Installed items (ps ++ n ∷ qs) (ps ++ m ∷ qs) n.val)
        (ap (λ b. record { val = n.val; is_valid = b }) (sym e)) (kept true (rw (e, f) refl))
