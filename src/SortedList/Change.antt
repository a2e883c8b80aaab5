-- ===== src/SortedList/Change.antt =====
-- The item of one node changed: what stays of the invariant, and what the transaction sees then.
use sto_layout.Base.Sorted.{insert_sorted, contains, contains_here, remove, remove_middle}
use sto_layout.Base.{
  ℕ, suc, ◌<◌, ◌≡◌, ◌≢◌, refl, ap, sym, subst, ◌∙◌, Bool, true, false, if◌then◌else◌, ◌==◌, ==_self,
  ==_iff, update, List, [], ◌∷◌, ◌++◌, append_assoc, All, All-append, All-map, length,
  length-append, arith, Bool-cases, inl, inr,
}
use sto_layout.SortedList.{
  ListNode, NodeItem, node_item, ℤ, pos, dec, offset, SortedList, remove_node,
}
use sto_layout.SortedList.Split.{Increasing, Around, remove_node-split}
use sto_layout.SortedList.View.{
  visible, view, ItemFits, IsList, offset-dec, view-append, view_elsewhere, view-All,
  insert_sorted_between, contains_between,
}

-- The items fit nodes of other values as before.
pub items_elsewhere :
    (items : ℕ → NodeItem) (k : ℕ) (it : NodeItem) (ns : List ListNode)
    → All (λ n. n.val ≢ k) ns
    → All (λ n. ItemFits n.is_valid (items n.val)) ns
    → All (λ n. ItemFits n.is_valid (update items k it n.val)) ns
items_elsewhere items k it [] away h = tt
items_elsewhere items k it (n ∷ ns) away h = elim (Bool-cases (k == n.val)) [
  | inl e ↦ absurd (away.0 (sym ((==_iff k n.val).0 e)))
  | inr e ↦ (rw e h.0, items_elsewhere items k it ns away.1 h.1)
]

pub All-parts :
    (P : ListNode → Type 0) (ps : List ListNode) (n : ListNode) (qs : List ListNode)
    → All P (ps ++ n ∷ qs)
    → All P ps × P n × All P qs
All-parts P [] n qs h = (tt, h.0, h.1)
All-parts P (p ∷ ps) n qs h = let rest = All-parts P ps n qs h.1 in ((h.0, rest.0), rest.1, rest.2)

pub Increasing-join :
    (ps : List ListNode) (n : ListNode) (qs : List ListNode)
    → Increasing (ps ++ n ∷ qs)
    → Increasing (ps ++ qs)
Increasing-join [] n qs h = h.1
Increasing-join (p ∷ ps) n qs h =
    let parts = All-parts (λ m. p.val < m.val) ps n qs h.0 in
    (All-append _ ps qs parts.0 parts.2, Increasing-join ps n qs h.1)

pub All-left :
    (P : ListNode → Type 0) (ps qs : List ListNode) → All P (ps ++ qs) → All P ps × All P qs
All-left P [] qs h = (tt, h)
All-left P (p ∷ ps) qs h = let rest = All-left P ps qs h.1 in ((h.0, rest.0), rest.1)

pub Increasing-put :
    (ps : List ListNode) (n : ListNode) (qs : List ListNode)
    → All (λ m. m.val < n.val) ps
    → All (λ m. n.val < m.val) qs
    → Increasing (ps ++ qs)
    → Increasing (ps ++ n ∷ qs)
Increasing-put [] n qs hp hq h = (hq, h)
Increasing-put (p ∷ ps) n qs hp hq h =
    let parts = All-left (λ m. p.val < m.val) ps qs h.0 in
    (All-append _ ps (n ∷ qs) parts.0 (hp.0, parts.1), Increasing-put ps n qs hp.1 hq h.1)

module _ (items : ℕ → NodeItem) (n : ListNode) (ps qs : List ListNode)
    (below : All (λ m. m.val < n.val) ps) (above : All (λ m. n.val < m.val) qs) where
  pub away_ps : All (λ m. m.val ≢ n.val) ps
  away_ps = All-map (λ m lt e. omega (arith, lt, e)) ps below

  pub away_qs : All (λ m. m.val ≢ n.val) qs
  away_qs = All-map (λ m lt e. omega (arith, lt, e)) qs above

  pub fit_changed :
      (it : NodeItem)
      → ItemFits n.is_valid it
      → All (λ m. ItemFits m.is_valid (items m.val)) ps
      → All (λ m. ItemFits m.is_valid (items m.val)) qs
      → All (λ m. ItemFits m.is_valid (update items n.val it m.val)) (ps ++ n ∷ qs)
  fit_changed it f hp hq =
      All-append _ ps (n ∷ qs) (items_elsewhere items n.val it ps away_ps hp)
        (rw (==_self n.val) f, items_elsewhere items n.val it qs away_qs hq)

  pub view_at :
      (it : NodeItem)
      → view (update items n.val it) (ps ++ n ∷ qs)
        ≡ view items ps ++ (if visible n.is_valid it then n.val ∷ view items qs else view items qs)
  unfolding view
  view_at it =
      rw
        (
          view-append (update items n.val it) ps (n ∷ qs),
          view_elsewhere items n.val it ps away_ps,
          view_elsewhere items n.val it qs away_qs,
          ==_self n.val,
        )
        refl

abbrev pub seen : SortedList → List ℕ
seen s = view s.items s.nodes

-- A node of the list, with the nodes on either side.
pub record IsNode (s : SortedList) (n : ListNode) : Type 0 where
  pub ps : List ListNode
  pub qs : List ListNode
  pub whole : s.nodes ≡ ps ++ n ∷ qs
  pub below : All (λ m. m.val < n.val) ps
  pub above : All (λ m. n.val < m.val) qs

pub Around-IsNode :
    (s : SortedList) (elem : ℕ) (n : ListNode)
    → n.val ≡ elem
    → Around elem s.nodes (n ∷ [])
    → IsNode s n
Around-IsNode s elem n e a = record {
  ps = a.ps;
  qs = a.qs;
  whole = a.whole ∙ append_assoc a.ps (n ∷ []) a.qs;
  below = subst (λ k. All (λ m. m.val < k) a.ps) (sym e) a.below;
  above = subst (λ k. All (λ m. k < m.val) a.qs) (sym e) a.above;
}

module _ (s : SortedList) (h : IsList s) (n : ListNode) (at : IsNode s n) where
  vp : List ℕ
  vp = view s.items at.ps

  vq : List ℕ
  vq = view s.items at.qs

  vp_below : All (λ x. x < n.val) vp
  unfolding vp
  vp_below = view-All (λ x. x < n.val) s.items at.ps at.below

  vq_above : All (λ x. n.val < x) vq
  unfolding vq
  vq_above = view-All (λ x. n.val < x) s.items at.qs at.above

  seen_now : seen s ≡ vp ++ (if visible n.is_valid (s.items n.val) then n.val ∷ vq else vq)
  unfolding view vp vq
  seen_now = rw at.whole (view-append s.items at.ps (n ∷ at.qs))

  seen_then :
      (it : NodeItem)
      → view (update s.items n.val it) s.nodes
        ≡ vp ++ (if visible n.is_valid it then n.val ∷ vq else vq)
  unfolding vp vq
  seen_then it = rw at.whole (view_at s.items n at.ps at.qs at.below at.above it)

  -- The transaction sees the node's value if and only if the node shows.
  pub contains-visible : contains n.val (seen s) ≡ visible n.is_valid (s.items n.val)
  contains-visible = elim (Bool-cases (visible n.is_valid (s.items n.val))) [
    | inl e ↦ rw (seen_now, e) (contains_here n.val n.val vp vq refl)
    | inr e ↦ rw (seen_now, e) (contains_between n.val vp vq vp_below vq_above)
  ]

  pub same_seen :
      (it : NodeItem)
      → visible n.is_valid it ≡ visible n.is_valid (s.items n.val)
      → view (update s.items n.val it) s.nodes ≡ seen s
  same_seen it e = rw (seen_now, sym e) (seen_then it)

  pub shown_seen :
      (it : NodeItem)
      → visible n.is_valid (s.items n.val) ≡ false
      → visible n.is_valid it ≡ true
      → (view (update s.items n.val it) s.nodes ≡ insert_sorted n.val (seen s))
        × (length (view (update s.items n.val it) s.nodes) ≡ suc (length (seen s)))
  shown_seen it e f = (
    rw (seen_then it, f, seen_now, e) (sym (insert_sorted_between n.val vp vq vp_below vq_above)),
    rw (seen_then it, f, seen_now, e)
        (omega (arith, length-append vp (n.val ∷ vq), length-append vp vq)),
  )

  pub hidden_seen :
      (it : NodeItem)
      → visible n.is_valid (s.items n.val) ≡ true
      → visible n.is_valid it ≡ false
      → (view (update s.items n.val it) s.nodes ≡ remove n.val (seen s))
        × (length (seen s) ≡ suc (length (view (update s.items n.val it) s.nodes)))
  hidden_seen it e f = (
    rw (seen_then it, f, seen_now, e) (sym (remove_middle n.val vp vq vp_below)),
    rw (seen_then it, f, seen_now, e)
        (omega (arith, length-append vp (n.val ∷ vq), length-append vp vq)),
  )

  -- The invariant with the new item and an offset that fits.
  pub item-IsList :
      (it : NodeItem) (z : ℤ) (lr lw : Bool)
      → ItemFits n.is_valid it
      → offset s.listsize z ≡ pos (length (view (update s.items n.val it) s.nodes))
      → IsList (record s {
        items = update s.items n.val it;
        size_offs = z;
        list_read = lr;
        list_write = lw;
      })
  item-IsList it z lr lw f size =
      let parts =
        All-parts (λ m. ItemFits m.is_valid (s.items m.val)) at.ps n at.qs
          (subst (All (λ m. ItemFits m.is_valid (s.items m.val))) at.whole h.items_fit) in
      record {
        increasing = h.increasing;
        items_fit =
            rw at.whole (fit_changed s.items n at.ps at.qs at.below at.above it f parts.0 parts.2);
        fresh = λ k away. elim (Bool-cases (n.val == k)) [
          | inl e ↦ absurd (
              (All-parts (λ m. m.val ≢ k) at.ps n at.qs
                  (subst (All (λ m. m.val ≢ k)) at.whole away)).1
                ((==_iff n.val k).0 e))
          | inr e ↦ rw e (h.fresh k away)
        ];
        size = size;
      }

  view_both : view s.items (at.ps ++ at.qs) ≡ vp ++ vq
  unfolding vp vq
  view_both = view-append s.items at.ps at.qs

  shorter : visible n.is_valid (s.items n.val) ≡ true → length (seen s) ≡ suc (length (vp ++ vq))
  shorter e = rw (seen_now, e) (omega (arith, length-append vp (n.val ∷ vq), length-append vp vq))

  far_from :
      (k : ℕ)
      → (n.val == k) ≡ false
      → All (λ m. m.val ≢ k) (at.ps ++ at.qs)
      → All (λ m. m.val ≢ k) s.nodes
  far_from k off far =
      let parts = All-left (λ m. m.val ≢ k) at.ps at.qs far in
      rw at.whole (All-append _ at.ps (n ∷ at.qs) parts.0 ((λ e. ground (arith, e, off)), parts.1))

  -- The node taken out again, with its item reset.
  pub removed-IsList :
      (r : Bool)
      → visible n.is_valid (s.items n.val) ≡ true
      → IsList (record s {
        nodes = remove_node n.val s.nodes;
        items = update s.items n.val (node_item r false false false false);
        size_offs = dec s.size_offs;
        list_read = true;
      })
        × (view
              (update s.items n.val (node_item r false false false false))
              (remove_node n.val s.nodes)
            ≡ remove n.val (seen s))
  removed-IsList r e =
      let it = node_item r false false false false in
      let gone : remove_node n.val s.nodes ≡ at.ps ++ at.qs =
        rw at.whole (remove_node-split n at.ps at.qs at.below) in
      let parts =
        All-parts (λ m. ItemFits m.is_valid (s.items m.val)) at.ps n at.qs
          (subst (All (λ m. ItemFits m.is_valid (s.items m.val))) at.whole h.items_fit) in
      let away =
        All-append (λ m. m.val ≢ n.val) at.ps at.qs
          (away_ps s.items n at.ps at.qs at.below at.above)
          (away_qs s.items n at.ps at.qs at.below at.above) in
      let left : view (update s.items n.val it) (remove_node n.val s.nodes) ≡ vp ++ vq =
        rw gone (view_elsewhere s.items n.val it (at.ps ++ at.qs) away ∙ view_both) in
      (
        record {
          increasing =
              rw gone (Increasing-join at.ps n at.qs (subst Increasing at.whole h.increasing));
          items_fit = rw gone (
              items_elsewhere s.items n.val it (at.ps ++ at.qs) away
                (All-append _ at.ps at.qs parts.0 parts.2));
          fresh = λ k far. elim (Bool-cases (n.val == k)) [
            | inl at_k ↦ rw at_k (r, refl)
            | inr off ↦ rw off (h.fresh k (far_from k off (subst (All (λ m. m.val ≢ k)) gone far)))
          ];
          size = offset-dec s.listsize _ s.size_offs (h.size ∙ ap pos (rw left (shorter e)));
        },
        rw (left, seen_now, e) (sym (remove_middle n.val vp vq vp_below)),
      )
