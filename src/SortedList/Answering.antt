-- ===== src/SortedList/Answering.antt =====
-- What a call does at a node that it has found, and at the place where a new node belongs.
use sto_layout.Base.Sorted.{insert_sorted, contains, remove}
use sto_layout.Base.{
  ℕ, suc, ◌<◌, ◌≡◌, ◌≢◌, refl, ap, sym, subst, ◌∙◌, Bool, true, false, not, ◌||◌, if◌then◌else◌,
  ◌==◌, ==_iff, update, Option, none, some, List, [], ◌∷◌, ◌++◌, append-nil, All, All-append,
  All-map, length, length-append, arith, Bool-cases, inl, inr,
}
use sto_layout.SortedList.{
  ListNode, NodeItem, node_item, pos, inc, dec, SortedList, nothing, grows, shrinks, takes_back,
  validity_check, find_node, insert_node, find_at, insert_at, delete_at, take_effect, on_node,
  verify_list, add_insert, has_insert,
}
use sto_layout.SortedList.Split.{Increasing, Around, insert_node-split}
use sto_layout.SortedList.View.{
  visible, view, ItemFits, untouched, inserted, deleted, updated, IsList, offset-inc, offset-dec,
  view-append, view-All, insert_sorted_between, contains_between,
}
use sto_layout.SortedList.Change.{
  seen, IsNode, view_at, fit_changed, All-parts, All-left, Increasing-put, same_seen, shown_seen,
  hidden_seen, item-IsList, removed-IsList,
}

-- Another transaction has put a new node for the element into the list.
unfoldable pub foreign_at : Option ListNode → SortedList → Bool
foreign_at none s = false
foreign_at (some n) s = not (validity_check n.is_valid (s.items n.val))

unfoldable pub is_foreign : ℕ → SortedList → Bool
unfolding foreign_at
is_foreign elem s = foreign_at (find_node elem s.nodes) s

-- A call returns: its answer, and the list the transaction sees afterwards.
pub record Answers (r : Option (Bool × SortedList)) (answer : Bool) (then_seen : List ℕ)
    : Type 0 where
  pub after : SortedList
  pub result : r ≡ some (answer, after)
  pub is_list : IsList after
  pub sees : seen after ≡ then_seen

module _ (s : SortedList) (h : IsList s) (n : ListNode) (at : IsNode s n) where
  nothing-Answers :
      (b : Bool) (it : NodeItem)
      → ItemFits n.is_valid it
      → visible n.is_valid it ≡ visible n.is_valid (s.items n.val)
      → Answers (some (b, take_effect n.val it nothing s)) b (seen s)
  unfolding take_effect
  nothing-Answers b it f e = record {
    after = _;
    result = refl;
    is_list =
        item-IsList s h n at it s.size_offs s.list_read s.list_write f
          (h.size ∙ ap (λ xs. pos (length xs)) (sym (same_seen s h n at it e)));
    sees = same_seen s h n at it e;
  }

  grows-Answers :
      (b : Bool) (it : NodeItem)
      → ItemFits n.is_valid it
      → visible n.is_valid (s.items n.val) ≡ false
      → visible n.is_valid it ≡ true
      → Answers (some (b, take_effect n.val it grows s)) b (insert_sorted n.val (seen s))
  unfolding take_effect
  grows-Answers b it f e e' = record {
    after = _;
    result = refl;
    is_list =
        item-IsList s h n at it (inc s.size_offs) s.list_read s.list_write f (
          offset-inc s.listsize _ s.size_offs h.size
          ∙ ap pos (sym (shown_seen s h n at it e e').1));
    sees = (shown_seen s h n at it e e').0;
  }

  shrinks-Answers :
      (b locks : Bool) (it : NodeItem)
      → ItemFits n.is_valid it
      → visible n.is_valid (s.items n.val) ≡ true
      → visible n.is_valid it ≡ false
      → Answers (some (b, take_effect n.val it (shrinks locks) s)) b (remove n.val (seen s))
  unfolding take_effect
  shrinks-Answers b locks it f e e' = record {
    after = _;
    result = refl;
    is_list =
        item-IsList s h n at it (dec s.size_offs) s.list_read (locks || s.list_write) f
          (offset-dec s.listsize _ s.size_offs (h.size ∙ ap pos (hidden_seen s h n at it e e').1));
    sees = (hidden_seen s h n at it e e').0;
  }

  takes_back-Answers :
      (b r : Bool)
      → visible n.is_valid (s.items n.val) ≡ true
      → Answers
          (some (b, take_effect n.val (node_item r false false false false) takes_back s))
          b
          (remove n.val (seen s))
  unfolding take_effect
  takes_back-Answers b r e = record {
    after = _;
    result = refl;
    is_list = (removed-IsList s h n at r e).0;
    sees = (removed-IsList s h n at r e).1;
  }

  -- The item fits the node as it is, whatever equations say what they are.
  fits_here : (v : Bool) (it : NodeItem) → n.is_valid ≡ v → ItemFits v it → ItemFits n.is_valid it
  fits_here v it e f = rw e f

  pub find_at-Answers :
      (v : Bool) (it : NodeItem)
      → ItemFits v it
      → n.is_valid ≡ v
      → s.items n.val ≡ it
      → validity_check v it ≡ true
      → Answers (on_node find_at n s) (visible v it) (seen s)
  unfolding on_node find_at validity_check visible
  find_at-Answers _ _ (untouched false r) e f ok = absurd (ground (arith, ok))
  find_at-Answers _ _ (untouched true r) e f ok =
      rw (e, f) (nothing-Answers true _ (fits_here _ _ e (untouched true true)) (rw (e, f) refl))
  find_at-Answers _ _ (inserted r) e f ok =
      rw (e, f) (nothing-Answers true _ (fits_here _ _ e (inserted true)) (rw (e, f) refl))
  find_at-Answers _ _ (deleted r) e f ok =
      rw (e, f) (nothing-Answers false _ (fits_here _ _ e (deleted r)) (rw (e, f) refl))
  find_at-Answers _ _ (updated r) e f ok =
      rw (e, f) (nothing-Answers true _ (fits_here _ _ e (updated true)) (rw (e, f) refl))

  pub insert_at-Answers :
      (v : Bool) (it : NodeItem)
      → ItemFits v it
      → n.is_valid ≡ v
      → s.items n.val ≡ it
      → validity_check v it ≡ true
      → Answers
          (on_node insert_at n s)
          (not (visible v it))
          (if visible v it then seen s else insert_sorted n.val (seen s))
  unfolding on_node insert_at validity_check visible has_insert
  insert_at-Answers _ _ (untouched false r) e f ok = absurd (ground (arith, ok))
  insert_at-Answers _ _ (untouched true r) e f ok =
      rw (e, f) (nothing-Answers false _ (fits_here _ _ e (untouched true true)) (rw (e, f) refl))
  insert_at-Answers _ _ (inserted r) e f ok =
      rw (e, f) (nothing-Answers false _ (fits_here _ _ e (inserted r)) (rw (e, f) refl))
  insert_at-Answers _ _ (deleted r) e f ok =
      rw (e, f) (grows-Answers true _ (fits_here _ _ e (updated r)) (rw (e, f) refl) (rw e refl))
  insert_at-Answers _ _ (updated r) e f ok =
      rw (e, f) (nothing-Answers false _ (fits_here _ _ e (updated r)) (rw (e, f) refl))

  pub delete_at-Answers :
      (v : Bool) (it : NodeItem)
      → ItemFits v it
      → n.is_valid ≡ v
      → s.items n.val ≡ it
      → validity_check v it ≡ true
      → Answers
          (on_node delete_at n s)
          (visible v it)
          (if visible v it then remove n.val (seen s) else seen s)
  unfolding on_node delete_at validity_check visible has_insert
  delete_at-Answers _ _ (untouched false r) e f ok = absurd (ground (arith, ok))
  delete_at-Answers _ _ (untouched true r) e f ok =
      rw (e, f)
        (shrinks-Answers true true _ (fits_here _ _ e (deleted true)) (rw (e, f) refl) (rw e refl))
  delete_at-Answers _ _ (inserted r) e f ok =
      rw (e, f) (takes_back-Answers true false (rw (e, f) refl))
  delete_at-Answers _ _ (deleted r) e f ok =
      rw (e, f) (nothing-Answers false _ (fits_here _ _ e (deleted r)) (rw (e, f) refl))
  delete_at-Answers _ _ (updated r) e f ok =
      rw (e, f)
        (shrinks-Answers true false _ (fits_here _ _ e (deleted r)) (rw (e, f) refl) (rw e refl))

-- Where no node has the element.
module _ (elem : ℕ) (s : SortedList) (h : IsList s) (gap : Around elem s.nodes []) where
  no_middle : s.nodes ≡ gap.ps ++ gap.qs
  no_middle = gap.whole ∙ ap (λ xs. xs ++ gap.qs) (append-nil gap.ps)

  pub missing_seen : contains elem (seen s) ≡ false
  missing_seen =
      rw (no_middle, view-append s.items gap.ps gap.qs)
        (contains_between elem _ _ (view-All (λ x. x < elem) s.items gap.ps gap.below)
          (view-All (λ x. elem < x) s.items gap.qs gap.above))

  pub verify-Answers : Answers (some (false, verify_list s)) false (seen s)
  unfolding verify_list
  verify-Answers = record {
    after = _;
    result = refl;
    is_list = record {
      increasing = h.increasing;
      items_fit = h.items_fit;
      fresh = h.fresh;
      size = h.size;
    };
    sees = refl;
  }

  abbrev fresh_node : ListNode
  fresh_node = record { val = elem; is_valid = false }

  put_here : insert_node fresh_node s.nodes ≡ gap.ps ++ fresh_node ∷ gap.qs
  put_here = rw no_middle (insert_node-split fresh_node gap.ps gap.qs gap.below gap.above)

  no_item_yet : (r : Bool) × (s.items elem ≡ node_item r false false false false)
  no_item_yet = h.fresh elem (
      rw no_middle (
        All-append (λ m. m.val ≢ elem) gap.ps gap.qs
          (All-map (λ m lt e. omega (arith, lt, e)) gap.ps gap.below)
          (All-map (λ m lt e. omega (arith, lt, e)) gap.qs gap.above)))

  new_sees :
      (r : Bool)
      → (view
            (update s.items elem (node_item r true true false false))
            (insert_node fresh_node s.nodes)
          ≡ insert_sorted elem (seen s))
        × (length (
              view
                (update s.items elem (node_item r true true false false))
                (insert_node fresh_node s.nodes))
            ≡ suc (length (seen s)))
  unfolding visible
  new_sees r =
      let vp = view s.items gap.ps in
      let vq = view s.items gap.qs in
      let now : seen s ≡ vp ++ vq =
        ap (view s.items) no_middle ∙ view-append s.items gap.ps gap.qs in
      let later : view (update s.items elem (node_item r true true false false))
            (insert_node fresh_node s.nodes)
          ≡ vp ++ elem ∷ vq =
        ap (view (update s.items elem (node_item r true true false false))) put_here
        ∙ view_at s.items fresh_node gap.ps gap.qs gap.below gap.above
            (node_item r true true false false) in
      (
        later
            ∙ sym (
                ap (insert_sorted elem) now
                ∙ insert_sorted_between elem vp vq
                    (view-All (λ x. x < elem) s.items gap.ps gap.below)
                    (view-All (λ x. elem < x) s.items gap.qs gap.above)),
        rw (later, now) (omega (arith, length-append vp (elem ∷ vq), length-append vp vq)),
      )

  pub new-Answers :
      Answers
        (some (
          true,
          record s {
            nodes = insert_node fresh_node s.nodes;
            items = update s.items elem (add_insert (s.items elem));
            size_offs = inc s.size_offs;
            list_write = true;
          },
        ))
        true
        (insert_sorted elem (seen s))
  new-Answers =
      let fits =
        All-left (λ m. ItemFits m.is_valid (s.items m.val)) gap.ps gap.qs
          (subst (All (λ m. ItemFits m.is_valid (s.items m.val))) no_middle h.items_fit) in
      let r = no_item_yet.0 in
      rw (no_item_yet.1) (record {
        after = _;
        result = refl;
        is_list = record {
          increasing = rw put_here (
              Increasing-put gap.ps fresh_node gap.qs gap.below gap.above
                (subst Increasing no_middle h.increasing));
          items_fit = rw put_here (
              fit_changed s.items fresh_node gap.ps gap.qs gap.below gap.above
                (node_item r true true false false) (inserted r) fits.0 fits.1);
          fresh = λ k away. elim (Bool-cases (elem == k)) [
            | inl e ↦ absurd (
                (All-parts (λ m. m.val ≢ k) gap.ps fresh_node gap.qs
                    (subst (All (λ m. m.val ≢ k)) put_here away)).1
                  ((==_iff elem k).0 e))
            | inr e ↦ rw e (
                h.fresh k (
                  let parts =
                    All-parts (λ m. m.val ≢ k) gap.ps fresh_node gap.qs
                      (subst (All (λ m. m.val ≢ k)) put_here away) in
                  rw no_middle (All-append _ gap.ps gap.qs parts.0 parts.2)))
          ];
          size = offset-inc s.listsize _ s.size_offs h.size ∙ ap pos (sym (new_sees r).1);
        };
        sees = (new_sees r).0;
      })
