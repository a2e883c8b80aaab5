-- ===== src/SortedList/Cleanup.antt =====
-- An aborted transaction takes its new nodes out again.
use sto_layout.Base.Sorted.{contains}
use sto_layout.Base.{
  ℕ, ◌<◌, ◌≡◌, ◌≢◌, refl, ap, sym, ◌∙◌, Bool, true, false, if◌then◌else◌, ◌==◌, ==_iff, List, [],
  ◌∷◌, All, All-map, arith, Bool-cases, inl, inr,
}
use sto_layout.SortedList.Install.{true-not-false}
use sto_layout.SortedList.{
  ListNode, NodeItem, node_item, SortedList, remove_node, cleanup_as, cleanup, cleanup_all,
}
use sto_layout.SortedList.Split.{Increasing}
use sto_layout.SortedList.View.{
  ItemFits, IsList, untouched, inserted, deleted, updated, view, visible,
}
use sto_layout.SortedList.Installing.{committed}

-- The transaction has put the node of this item into the list.
unfoldable pub is_new : NodeItem → Bool
is_new (node_item read write insert delete doupdate) = insert

-- The nodes without those that the transaction has put in.
unfoldable pub without_new : (ℕ → NodeItem) → List ListNode → List ListNode
without_new items [] = []
without_new items (n ∷ ns) =
    if is_new (items n.val) then without_new items ns else n ∷ without_new items ns

-- Every new node is among the elements.
abbrev pub CoversNew : (ℕ → NodeItem) → List ℕ → List ListNode → Type 0
CoversNew items elems nodes =
    All (λ n. is_new (items n.val) ≡ true → contains n.val elems ≡ true) nodes

-- One element less to clean up, for a node with another value.
others_covered :
    (items : ℕ → NodeItem) (elem : ℕ) (elems : List ℕ) (n : ListNode)
    → (is_new (items n.val) ≡ true → contains n.val (elem ∷ elems) ≡ true)
    → n.val ≢ elem
    → is_new (items n.val) ≡ true
    → contains n.val elems ≡ true
unfolding contains
others_covered items elem elems n h apart new = ground (arith, h new, apart)

All-others_covered :
    (items : ℕ → NodeItem) (elem : ℕ) (elems : List ℕ) (ns : List ListNode)
    → CoversNew items (elem ∷ elems) ns
    → All (λ n. n.val ≢ elem) ns
    → CoversNew items elems ns
All-others_covered items elem elems [] h apart = tt
All-others_covered items elem elems (n ∷ ns) h apart = (
  others_covered items elem elems n h.0 apart.0,
  All-others_covered items elem elems ns h.1 apart.1,
)

-- What is left to do after one removal.
record Removed (items : ℕ → NodeItem) (elems : List ℕ) (before after : List ListNode) : Type 0 where
  same : without_new items after ≡ without_new items before
  covers : CoversNew items elems after
  increasing : Increasing after
  among : (k : ℕ) → All (λ n. k < n.val) before → All (λ n. k < n.val) after

removing :
    (items : ℕ → NodeItem) (elem : ℕ) (elems : List ℕ) (nodes : List ListNode)
    → is_new (items elem) ≡ true
    → Increasing nodes
    → CoversNew items (elem ∷ elems) nodes
    → Removed items elems nodes (remove_node elem nodes)
unfolding remove_node without_new
removing items elem elems [] new inc h = record {
  same = refl;
  covers = tt;
  increasing = tt;
  among = λ k a. tt;
}
removing items elem elems (n ∷ ns) new inc h = elim (Bool-cases (n.val == elem)) [
  | inl e ↦
      let at = (==_iff n.val elem).0 e in
      rw e (record {
        same = rw (at, new) refl;
        covers =
            All-others_covered items elem elems ns h.1
              (All-map (λ m lt f. omega (arith, lt, f, at)) ns inc.0);
        increasing = inc.1;
        among = λ k a. a.1;
      })
  | inr e ↦
      let r = removing items elem elems ns new inc.1 h.1 in
      let apart : n.val ≢ elem = λ f. ground (arith, e, f) in
      rw e (record {
        same = ap (λ ms. if is_new (items n.val) then ms else n ∷ ms) r.same;
        covers = (others_covered items elem elems n h.0 apart, r.covers);
        increasing = (r.among n.val inc.0, r.increasing);
        among = λ k a. (a.0, r.among k a.1);
      })
]

-- An item that put no node in: the list is left alone.
leaving :
    (items : ℕ → NodeItem) (elem : ℕ) (elems : List ℕ) (nodes : List ListNode)
    → is_new (items elem) ≡ false
    → CoversNew items (elem ∷ elems) nodes
    → CoversNew items elems nodes
leaving items elem elems [] old h = tt
leaving items elem elems (n ∷ ns) old h = (
  λ new.
      others_covered items elem elems n h.0
        (λ f. true-not-false (sym new ∙ ap (λ j. is_new (items j)) f ∙ old)) new,
  leaving items elem elems ns old h.1,
)

nothing_new :
    (items : ℕ → NodeItem) (nodes : List ListNode)
    → CoversNew items [] nodes
    → nodes ≡ without_new items nodes
unfolding without_new contains
nothing_new items [] h = refl
nothing_new items (n ∷ ns) h = elim (Bool-cases (is_new (items n.val))) [
  | inl e ↦ absurd (true-not-false (sym (h.0 e)))
  | inr e ↦ rw e (ap (λ ms. n ∷ ms) (nothing_new items ns h.1))
]

-- What one element's cleanup does to the nodes.
cleanup_nodes : ℕ → NodeItem → List ListNode → List ListNode
cleanup_nodes elem it nodes = if is_new it then remove_node elem nodes else nodes

nodes-cleanup :
    (elem : ℕ) (it : NodeItem) (s : SortedList)
    → cleanup_as elem it s ≡ record s { nodes = cleanup_nodes elem it s.nodes }
unfolding cleanup_nodes is_new
nodes-cleanup elem (node_item read write true delete doupdate) s = refl
nodes-cleanup elem (node_item read write false delete doupdate) s = refl

cleanup-Removed :
    (items : ℕ → NodeItem) (elem : ℕ) (elems : List ℕ) (nodes : List ListNode)
    → Increasing nodes
    → CoversNew items (elem ∷ elems) nodes
    → Removed items elems nodes (cleanup_nodes elem (items elem) nodes)
unfolding cleanup_nodes
cleanup-Removed items elem elems nodes inc h = elim (Bool-cases (is_new (items elem))) [
  | inl e ↦ rw e (removing items elem elems nodes e inc h)
  | inr e ↦ rw e (record {
    same = refl;
    covers = leaving items elem elems nodes e h;
    increasing = inc;
    among = λ k a. a;
  })
]

all_removed :
    (items : ℕ → NodeItem) (elems : List ℕ) (s : SortedList)
    → s.items ≡ items
    → Increasing s.nodes
    → CoversNew items elems s.nodes
    → cleanup_all elems s ≡ record s { nodes = without_new items s.nodes }
unfolding cleanup_all cleanup
all_removed items [] s e inc h = ap (λ ns. record s { nodes = ns }) (nothing_new items s.nodes h)
all_removed items (elem ∷ elems) s e inc h =
    let r = cleanup-Removed items elem elems s.nodes inc h in
    let step : cleanup_as elem (s.items elem) s
        ≡ record s { nodes = cleanup_nodes elem (items elem) s.nodes } =
      nodes-cleanup elem (s.items elem) s
      ∙ ap (λ its. record s { nodes = cleanup_nodes elem (its elem) s.nodes }) e in
    ap (cleanup_all elems) step
    ∙ all_removed items elems (record s { nodes = cleanup_nodes elem (items elem) s.nodes }) e
        r.increasing r.covers
    ∙ ap (λ ns. record s { nodes = ns }) r.same

new-invalid : (v : Bool) (it : NodeItem) → ItemFits v it → is_new it ≡ true → v ≡ false
unfolding is_new
new-invalid _ _ (untouched v r) e = absurd (true-not-false (sym e))
new-invalid _ _ (inserted r) e = refl
new-invalid _ _ (deleted r) e = absurd (true-not-false (sym e))
new-invalid _ _ (updated r) e = absurd (true-not-false (sym e))

-- A new node of the transaction is not valid, so taking it out leaves the valid nodes as they are.
committed-without_new :
    (items : ℕ → NodeItem) (nodes : List ListNode)
    → All (λ n. ItemFits n.is_valid (items n.val)) nodes
    → committed (without_new items nodes) ≡ committed nodes
unfolding without_new view visible
committed-without_new items [] h = refl
committed-without_new items (n ∷ ns) h =
    let rest = committed-without_new items ns h.1 in
    elim (Bool-cases (is_new (items n.val))) [
      | inl e ↦ rw (e, new-invalid n.is_valid (items n.val) h.0 e) rest
      | inr e ↦ rw (e, rest) refl
    ]

-- The cleanup of an aborted transaction, over its items in any order, takes out exactly the nodes that
-- the transaction has put in: if those are among the elements cleaned up, the list is as it was but for
-- them. The nodes of other transactions stay, also those not yet valid, and so do the valid nodes.
pub cleanup_all-without_new :
    (elems : List ℕ) (s : SortedList)
    → IsList s
    → CoversNew s.items elems s.nodes
    → (cleanup_all elems s ≡ record s { nodes = without_new s.items s.nodes })
      × (committed (without_new s.items s.nodes) ≡ committed s.nodes)
cleanup_all-without_new elems s h covers = (
  all_removed s.items elems s refl h.increasing covers,
  committed-without_new s.items s.nodes h.items_fit,
)
