-- ===== src/SortedList/Install.antt =====
-- The installation of a transaction's items makes the list what the transaction saw.
use sto_layout.Base.Sorted.{contains}
use sto_layout.Base.{
  ℕ, ◌<◌, ◌≡◌, ◌≢◌, refl, ap, sym, subst, ◌∙◌, true, false, ◌==◌, ==_iff, update, Option, none,
  some, List, [], ◌∷◌, ◌++◌, append_assoc, append-nil, All, All-append, All-map, arith, Bool-cases,
  inl, inr,
}
use sto_layout.SortedList.{
  ListNode, NodeItem, SortedList, find_node, install_nodes, install, install_all,
}
use sto_layout.SortedList.Split.{Sought, find_node-Sought}
use sto_layout.SortedList.View.{IsList, view, ItemFits}
use sto_layout.SortedList.Change.{seen, All-parts}
use sto_layout.SortedList.Installing.{
  nothing_left, Installed, install_nodes-Installed, Fitting, is_written, committed, no_item,
}

pub true-not-false : true ≡ false → ⊥
true-not-false e = ground (arith, e)

at_node :
    (items : ℕ → NodeItem) (n : ListNode) (nodes ps qs : List ListNode)
    → nodes ≡ ps ++ n ∷ qs
    → All (λ m. m.val < n.val) ps
    → All (λ m. n.val < m.val) qs
    → Fitting items nodes
    → is_written (items n.val) ≡ true
    → Installed items nodes (install_nodes n.val (items n.val) nodes) n.val
at_node items n nodes ps qs whole below above h w =
    subst (λ xs. Fitting items xs → Installed items xs (install_nodes n.val (items n.val) xs) n.val)
      (sym whole)
      (λ h'.
        install_nodes-Installed items n ps qs below above h' n.is_valid (items n.val)
          (All-parts (λ m. ItemFits m.is_valid (items m.val)) ps n qs h'.items_fit).1 refl refl w)
      h

step-Sought :
    (items : ℕ → NodeItem) (k : ℕ) (nodes : List ListNode) (o : Option ListNode)
    → Fitting items nodes
    → Sought k nodes o
    → is_written (items k) ≡ true
    → Installed items nodes (install_nodes k (items k) nodes) k
step-Sought items k nodes none h gap w = absurd (
    true-not-false (
      sym w
      ∙ h.fresh k (
          rw (gap.whole ∙ ap (λ xs. xs ++ gap.qs) (append-nil gap.ps)) (
            All-append (λ m. m.val ≢ k) gap.ps gap.qs
              (All-map (λ m lt e. omega (arith, lt, e)) gap.ps gap.below)
              (All-map (λ m lt e. omega (arith, lt, e)) gap.qs gap.above)))))
step-Sought items k nodes (some n) h there w =
    let whole = there.1.whole ∙ append_assoc there.1.ps (n ∷ []) there.1.qs in
    subst (λ j. Installed items nodes (install_nodes j (items j) nodes) j) there.0
      (at_node items n nodes there.1.ps there.1.qs whole
        (subst (λ j. All (λ m. m.val < j) there.1.ps) (sym there.0) there.1.below)
        (subst (λ j. All (λ m. j < m.val) there.1.qs) (sym there.0) there.1.above) h
        (subst (λ j. is_written (items j) ≡ true) (sym there.0) w))

-- The nodes that the installations leave.
abbrev nodes_after : (ℕ → NodeItem) → List ℕ → List ListNode → List ListNode
nodes_after items [] nodes = nodes
nodes_after items (k ∷ ks) nodes = nodes_after items ks (install_nodes k (items k) nodes)

install_all-nodes :
    (ks : List ℕ) (s : SortedList) → (install_all ks s).nodes ≡ nodes_after s.items ks s.nodes
unfolding install_all install
install_all-nodes [] s = refl
install_all-nodes (k ∷ ks) s = install_all-nodes ks (install k s)

others :
    (items : ℕ → NodeItem) (k : ℕ) (it : NodeItem) (ks : List ℕ) (nodes : List ListNode)
    → All (λ j. k ≢ j) ks
    → nodes_after (update items k it) ks nodes ≡ nodes_after items ks nodes
others items k it [] nodes away = refl
others items k it (j ∷ ks) nodes away = elim (Bool-cases (k == j)) [
  | inl e ↦ absurd (away.0 ((==_iff k j).0 e))
  | inr e ↦ rw e (others items k it ks (install_nodes j (items j) nodes) away.1)
]

abbrev pub Distinct : List ℕ → Type 0
Distinct [] = Unit
Distinct (k ∷ ks) = All (λ j. k ≢ j) ks × Distinct ks

written_elsewhere :
    (items : ℕ → NodeItem) (k : ℕ) (ks : List ℕ)
    → All (λ j. k ≢ j) ks
    → All (λ j. is_written (items j) ≡ true) ks
    → All (λ j. is_written (update items k no_item j) ≡ true) ks
written_elsewhere items k [] away w = tt
written_elsewhere items k (j ∷ ks) away w = elim (Bool-cases (k == j)) [
  | inl e ↦ absurd (away.0 ((==_iff k j).0 e))
  | inr e ↦ (rw e w.0, written_elsewhere items k ks away.1 w.1)
]

-- Every node whose item has a write is among these.
abbrev pub Covers : (ℕ → NodeItem) → List ℕ → List ListNode → Type 0
Covers items ks nodes = All (λ n. is_written (items n.val) ≡ true → contains n.val ks ≡ true) nodes

still_covered :
    (items : ℕ → NodeItem) (k : ℕ) (ks : List ℕ) (j : ℕ)
    → (is_written (items j) ≡ true → contains j (k ∷ ks) ≡ true)
    → is_written (update items k no_item j) ≡ true
    → contains j ks ≡ true
unfolding contains is_written
still_covered items k ks j h w = elim (Bool-cases (k == j)) [
  | inl e ↦ absurd (true-not-false (sym (rw e at w)))
  | inr e ↦ ground (arith, h (rw e at w), e)
]

nothing_covered :
    (items : ℕ → NodeItem) (nodes : List ListNode)
    → Covers items [] nodes
    → All (λ n. is_written (items n.val) ≡ false) nodes
unfolding contains
nothing_covered items [] h = tt
nothing_covered items (n ∷ ns) h = (
  elim (Bool-cases (is_written (items n.val))) [
    | inl e ↦ absurd (true-not-false (sym (h.0 e)))
    | inr e ↦ e
  ],
  nothing_covered items ns h.1,
)

loop :
    (items : ℕ → NodeItem) (ks : List ℕ) (nodes : List ListNode)
    → Fitting items nodes
    → Distinct ks
    → All (λ k. is_written (items k) ≡ true) ks
    → Covers items ks nodes
    → committed (nodes_after items ks nodes) ≡ view items nodes
loop items [] nodes h d w c = nothing_left items nodes h.items_fit (nothing_covered items nodes c)
loop items (k ∷ ks) nodes h d w c =
    let done =
      step-Sought items k nodes (find_node k nodes) h (find_node-Sought k nodes h.increasing) w.0 in
    let nodes' = install_nodes k (items k) nodes in
    let covered =
      done.subset (λ j. is_written (update items k no_item j) ≡ true → contains j ks ≡ true)
        (All-map (λ n. still_covered items k ks n.val) nodes c) in
    ap committed (sym (others items k no_item ks nodes' d.0))
    ∙ loop (update items k no_item) ks nodes' done.fitting d.1
        (written_elsewhere items k ks d.0 w.1) covered
    ∙ done.sees

IsList-Fitting : (s : SortedList) → IsList s → Fitting s.items s.nodes
unfolding is_written
IsList-Fitting s h = record {
  increasing = h.increasing;
  items_fit = h.items_fit;
  fresh = λ k away. rw ((h.fresh k away).1) refl;
}

-- A commit makes the list what the transaction saw. When each item with a write is installed once, in
-- any order, the valid nodes of the list are those the transaction saw at the end, in their order.
pub install_all-seen :
    (elems : List ℕ) (s : SortedList)
    → IsList s
    → Distinct elems
    → All (λ k. is_written (s.items k) ≡ true) elems
    → Covers s.items elems s.nodes
    → committed ((install_all elems s).nodes) ≡ seen s
install_all-seen elems s h d w c =
    ap committed (install_all-nodes elems s) ∙ loop s.items elems s.nodes (IsList-Fitting s h) d w c
