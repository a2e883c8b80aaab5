-- ===== src/RedBlack/Calls.antt =====
-- Any calls on a tree: it holds what a set would hold, and stays shallow.
use sto_layout.Base.Sorted.{Sorted, contains, contains_outside, remove}
use sto_layout.Base.{
  ℕ, ◌+◌, ◌*◌, ◌^◌, ◌≤◌, ◌≡◌, refl, sym, ◌∙◌, ap, Bool, true, false, not, ◌&&◌, ◌||◌, ◌==◌, ◌>>=◌,
  if◌then◌else◌, Option, some, List, [], ◌∷◌, All-map, arith, Bool-cases, inl, inr, ==_iff,
}
use sto_layout.RedBlack.{RbRep, new, is_red, find_any, find_insert, size}
use sto_layout.RedBlack.Order.{inorder}
use sto_layout.RedBlack.Delete.{erase}
use sto_layout.RedBlack.Limits.{IsRbRep, head, last_of}
use sto_layout.RedBlack.Find.{find_any_lem, find_insert-IsRbRep}
use sto_layout.RedBlack.Erase.{erase-IsRbRep}
use sto_layout.RedBlack.Height.{height, height-log}

pub data Call : Type 0 where
  inserting : ℕ → Call
  erasing : ℕ → Call

-- A caller erases a node that it has found.
unfoldable pub call : Call → RbRep → Option RbRep
call (inserting key) t = find_insert key t >>= λ r. some r.0
call (erasing key) t = if (find_any key t).found then erase key t else some t

unfoldable pub run : List Call → RbRep → Option RbRep
unfolding call
run [] t = some t
run (c ∷ cs) t = call c t >>= run cs

-- The same calls on a set, asked for one key.
unfoldable pub holds : List Call → ℕ → Bool → Bool
holds [] x b = b
holds (inserting key ∷ cs) x b = holds cs x (x == key || b)
holds (erasing key ∷ cs) x b = holds cs x (not (x == key) && b)

remove-contains :
    (key x : ℕ) (xs : List ℕ)
    → Sorted xs
    → contains x (remove key xs) ≡ (not (x == key) && contains x xs)
unfolding contains remove
remove-contains key x [] h = ground arith
remove-contains key x (k ∷ ks) h = elim (Bool-cases (key == k)) [
  | inl e ↦ rw e (elim (Bool-cases (x == key)) [
    | inl f ↦
        let out : contains x ks ≡ false =
          contains_outside x ks (All-map (λ j lt same. ground (arith, lt, same, e, f)) ks h.0) in
        rw (f, out) refl
    | inr f ↦ ground (arith, e, f)
  ])
  | inr e ↦ rw e (ground (arith, remove-contains key x ks h.1, e))
]

missing-remove : (x key : ℕ) (b : Bool) → (x == key ≡ true → b ≡ false) → b ≡ (not (x == key) && b)
missing-remove x key b h = elim (Bool-cases (x == key)) [
  | inl e ↦ rw (e, h e) refl
  | inr e ↦ rw e refl
]

-- One call keeps the invariant and does what it does to a set.
record Called (c : Call) (t : RbRep) : Type 0 where
  pub rep : RbRep
  pub result : call c t ≡ some rep
  pub is_rep : IsRbRep rep
  pub set : (x : ℕ) → contains x (inorder rep.root) ≡ holds (c ∷ []) x (contains x (inorder t.root))

call-Called : (c : Call) (t : RbRep) → IsRbRep t → Called c t
unfolding call holds
call-Called (inserting key) t h =
    let done = find_insert-IsRbRep key t h in
    record { rep = done.0; result = rw (done.1) refl; is_rep = done.2; set = done.4 }
call-Called (erasing key) t h =
    let member = (find_any_lem key t h).member in
    elim (Bool-cases ((find_any key t).found)) [
      | inl e ↦
          let done = erase-IsRbRep key t h (sym member ∙ e) in
          record {
            rep = done.0;
            result = rw (e, done.1) refl;
            is_rep = done.2;
            set = λ x. rw done.3 (remove-contains key x (inorder t.root) h.ordered);
          }
      | inr e ↦ record {
        rep = t;
        result = rw e refl;
        is_rep = h;
        set = λ x.
            missing-remove x key (contains x (inorder t.root))
              (λ same. rw ((==_iff x key).0 same) (sym member ∙ e));
      }
    ]

new-IsRbRep : IsRbRep new
unfolding is_red head last_of
new-IsRbRep = record {
  tree = record { rules = tt; root_black = refl };
  ordered = tt;
  first_head = refl;
  last_end = refl;
}

-- Calls from any tree with the invariant.
record Ran (cs : List Call) (t : RbRep) : Type 0 where
  pub rep : RbRep
  pub result : run cs t ≡ some rep
  pub is_rep : IsRbRep rep
  pub set : (x : ℕ) → contains x (inorder rep.root) ≡ holds cs x (contains x (inorder t.root))

holds-cons :
    (c : Call) (cs : List Call) (x : ℕ) (b : Bool)
    → holds cs x (holds (c ∷ []) x b) ≡ holds (c ∷ cs) x b
unfolding holds
holds-cons (inserting key) cs x b = refl
holds-cons (erasing key) cs x b = refl

run-Ran : (cs : List Call) (t : RbRep) → IsRbRep t → Ran cs t
unfolding run holds
run-Ran [] t h = record { rep = t; result = refl; is_rep = h; set = λ x. refl }
run-Ran (c ∷ cs) t h =
    let first = call-Called c t h in
    let rest = run-Ran cs first.rep first.is_rep in
    record {
      rep = rest.rep;
      result = rw first.result rest.result;
      is_rep = rest.is_rep;
      set = λ x.
          rest.set x
          ∙ ap (holds cs x) (first.set x)
          ∙ holds-cons c cs x (contains x (inorder t.root));
    }

-- Whatever calls of `find_insert` and `erase` are made on a new tree, each erasing a node that the search
-- has found, none of them fails. The tree then has exactly the keys that a set would have, and it is
-- at most `2 b` deep for a `b` with `2 ^ b - 1` nodes or more in the tree.
pub run-shallow :
    (cs : List Call)
    → (t : RbRep) × (run cs new ≡ some t)
      × ((x : ℕ) → contains x (inorder t.root) ≡ holds cs x false)
      × ((b : ℕ) × (height t.root ≤ 2 * b) × (2 ^ b ≤ size t.root + 1))
unfolding contains
run-shallow cs =
    let done = run-Ran cs new new-IsRbRep in
    (done.rep, done.result, done.set, height-log done.rep.root done.is_rep.tree)
