-- ===== src/SortedList/Split.antt =====
-- The nodes around an element: what `_find`, `_insert` and `_remove` do with them.
use sto_layout.Base.{
  ℕ, ◌<◌, ◌≡◌, refl, ap, ltb, ltb→lt, ◌==◌, ==_self, ==_iff, Option, none, some, List, [], ◌∷◌,
  ◌++◌, All, arith, Bool-cases, inl, inr,
}
use sto_layout.SortedList.{ListNode, find_node, insert_node, remove_node}

-- Nodes in strictly increasing order of their values.
abbrev pub Increasing : List ListNode → Type 0
Increasing [] = Unit
Increasing (n ∷ ns) = All (λ m. n.val < m.val) ns × Increasing ns

-- The nodes below an element and those above it.
pub record Around (elem : ℕ) (nodes middle : List ListNode) : Type 0 where
  pub ps : List ListNode
  pub qs : List ListNode
  pub whole : nodes ≡ ps ++ middle ++ qs
  pub below : All (λ n. n.val < elem) ps
  pub above : All (λ n. elem < n.val) qs

-- What the search says: the node, or the place where one would stand.
abbrev pub Sought : ℕ → List ListNode → Option ListNode → Type 0
Sought elem nodes none = Around elem nodes []
Sought elem nodes (some n) = (n.val ≡ elem) × Around elem nodes (n ∷ [])

grow :
    (elem : ℕ) (n : ListNode) (ns : List ListNode) (r : Option ListNode)
    → n.val < elem
    → Sought elem ns r
    → Sought elem (n ∷ ns) r
grow elem n ns none lt a = record {
  ps = n ∷ a.ps;
  qs = a.qs;
  whole = ap (λ ms. n ∷ ms) a.whole;
  below = (lt, a.below);
  above = a.above;
}
grow elem n ns (some m) lt (e, a) = (
  e,
  record {
    ps = n ∷ a.ps;
    qs = a.qs;
    whole = ap (λ ms. n ∷ ms) a.whole;
    below = (lt, a.below);
    above = a.above;
  },
)

All-below :
    (elem : ℕ) (n : ListNode) (ns : List ListNode)
    → elem < n.val
    → All (λ m. n.val < m.val) ns
    → All (λ m. elem < m.val) ns
All-below elem n [] lt h = tt
All-below elem n (m ∷ ns) lt h = (omega (arith, lt, h.0), All-below elem n ns lt h.1)

All-at :
    (elem : ℕ) (n : ListNode) (ns : List ListNode)
    → n.val ≡ elem
    → All (λ m. n.val < m.val) ns
    → All (λ m. elem < m.val) ns
All-at elem n [] e h = tt
All-at elem n (m ∷ ns) e h = (omega (arith, e, h.0), All-at elem n ns e h.1)

pub find_node-Sought :
    (elem : ℕ) (nodes : List ListNode) → Increasing nodes → Sought elem nodes (find_node elem nodes)
unfolding find_node
find_node-Sought elem [] h = record { ps = []; qs = []; whole = refl; below = tt; above = tt }
find_node-Sought elem (n ∷ ns) h = elim (Bool-cases (n.val == elem)) [
  | inl e ↦
      let at = (==_iff n.val elem).0 e in
      rw e
        (at, record { ps = []; qs = ns; whole = refl; below = tt; above = All-at elem n ns at h.0 })
  | inr ne ↦ elim (Bool-cases (ltb elem n.val)) [
    | inl lt ↦
        rw (ne, lt)
          (record {
            ps = [];
            qs = n ∷ ns;
            whole = refl;
            below = tt;
            above = (ltb→lt elem n.val lt, All-below elem n ns (ltb→lt elem n.val lt) h.0);
          })
    | inr ge ↦
        rw (ne, ge)
          (grow elem n ns (find_node elem ns) (ground arith) (find_node-Sought elem ns h.1))
  ]
]

pub insert_node-split :
    (new : ListNode) (ps qs : List ListNode)
    → All (λ n. n.val < new.val) ps
    → All (λ n. new.val < n.val) qs
    → insert_node new (ps ++ qs) ≡ ps ++ new ∷ qs
unfolding insert_node
insert_node-split new [] [] hp hq = refl
insert_node-split new [] (q ∷ qs) hp hq = ground (arith, hq.0)
insert_node-split new (p ∷ ps) qs hp hq = ground (arith, hp.0, insert_node-split new ps qs hp.1 hq)

pub remove_node-split :
    (n : ListNode) (ps qs : List ListNode)
    → All (λ m. m.val < n.val) ps
    → remove_node n.val (ps ++ n ∷ qs) ≡ ps ++ qs
unfolding remove_node
remove_node-split n [] qs hp = rw (==_self n.val) refl
remove_node-split n (p ∷ ps) qs hp = ground (arith, hp.0, remove_node-split n ps qs hp.1)
