-- ===== src/Examples/SortedLists.antt =====
-- A transaction on a sorted list, with a new node of another one in it.
use sto_layout.Base.Sorted.{insert_sorted, contains, remove}
use sto_layout.Base.{
  ℕ, ◌≡◌, ◌≢◌, refl, Bool, true, false, not, if◌then◌else◌, ◌==◌, ==_iff, Bool-cases, inl, inr, sym,
  Option, none, some, List, [], ◌∷◌, All, ◌>>=◌, arith,
}
use sto_layout.SortedList.{
  ListNode, NodeItem, node_item, pos, offset, SortedList, find_node, validity_check, take_effect,
  trans_find, trans_insert, trans_delete, install_all, cleanup_all,
}
use sto_layout.SortedList.View.{IsList, untouched, inserted, deleted, view, visible}
use sto_layout.SortedList.Change.{seen}
use sto_layout.SortedList.Answering.{Answers, is_foreign}
use sto_layout.SortedList.Calls.{calls-Answers, calls_abort}
use sto_layout.SortedList.Installing.{committed, is_written}
use sto_layout.SortedList.Install.{Distinct, Covers, install_all-seen}
use sto_layout.SortedList.Cleanup.{without_new, is_new, CoversNew, cleanup_all-without_new}

abbrev list_node : ℕ → Bool → ListNode
list_node k v = record { val = k; is_valid = v }

-- The values 10 and 30; another transaction adds 20.
abbrev at_start : SortedList
at_start = record {
  nodes = list_node 10 true ∷ list_node 20 false ∷ list_node 30 true ∷ [];
  listsize = 2;
  items = λ k. node_item false false false false false;
  list_read = false;
  list_write = false;
  size_offs = pos 0;
}

abbrev items_later : ℕ → NodeItem
items_later k =
    if k == 10
    then node_item true true false true false
    else if k == 25
    then node_item false true true false false
    else node_item false false false false false

-- This one has deleted 10 and inserted 25.
abbrev later : SortedList
later = record {
  nodes = list_node 10 true ∷ list_node 20 false ∷ list_node 25 false ∷ list_node 30 true ∷ [];
  listsize = 2;
  items = items_later;
  list_read = false;
  list_write = true;
  size_offs = pos 0;
}

-- At a value that no node has, the transaction has no item with a write.
later_fresh :
    (k : ℕ)
    → All (λ n. n.val ≢ k) later.nodes
    → (r : Bool) × (later.items k ≡ node_item r false false false false)
later_fresh k away = elim (Bool-cases (k == 10)) [
  | inl e ↦ absurd (away.0 (sym ((==_iff k 10).0 e)))
  | inr e ↦ elim (Bool-cases (k == 25)) [
    | inl f ↦ absurd (away.1.1.0 (sym ((==_iff k 25).0 f)))
    | inr f ↦ (false, rw (e, f) refl)
  ]
]

later-IsList : IsList later
unfolding view visible offset
later-IsList = record {
  increasing = (
    (omega arith, (omega arith, (omega arith, tt))),
    ((omega arith, (omega arith, tt)), ((omega arith, tt), (tt, tt))),
  );
  items_fit = (deleted true, (untouched false false, (inserted false, (untouched true false, tt))));
  fresh = later_fresh;
  size = refl;
}

sees : seen later ≡ 25 ∷ 30 ∷ []
unfolding view visible
sees = refl

not_foreign_10 : is_foreign 10 later ≡ false
unfolding is_foreign find_node validity_check
not_foreign_10 = refl

foreign_20 : is_foreign 20 later ≡ true
unfolding is_foreign find_node validity_check
foreign_20 = refl

calls-Answers_example :
    Answers
      (trans_insert 10 later)
      (not (contains 10 (seen later)))
      (if contains 10 (seen later) then seen later else insert_sorted 10 (seen later))
    × Answers
        (trans_delete 10 later)
        (contains 10 (seen later))
        (if contains 10 (seen later) then remove 10 (seen later) else seen later)
    × Answers (trans_find 10 later) (contains 10 (seen later)) (seen later)
calls-Answers_example = calls-Answers 10 later later-IsList not_foreign_10

calls_abort_case :
    (trans_insert 20 later ≡ none) × (trans_delete 20 later ≡ none) × (trans_find 20 later ≡ none)
calls_abort_case = calls_abort 20 later foreign_20

distinct : Distinct (25 ∷ 10 ∷ [])
distinct = (((λ e. omega (arith, e)), tt), (tt, tt))

both_written : All (λ k. is_written (later.items k) ≡ true) (25 ∷ 10 ∷ [])
unfolding is_written
both_written = (refl, (refl, tt))

covered : Covers later.items (25 ∷ 10 ∷ []) later.nodes
unfolding is_written contains
covered = ((λ e. refl), ((λ e. ground (arith, e)), ((λ e. refl), ((λ e. ground (arith, e)), tt))))

install_all-seen_example : committed ((install_all (25 ∷ 10 ∷ []) later).nodes) ≡ seen later
install_all-seen_example =
    install_all-seen (25 ∷ 10 ∷ []) later later-IsList distinct both_written covered

new_covered : CoversNew later.items (10 ∷ 25 ∷ []) later.nodes
unfolding is_new contains
new_covered =
    ((λ e. refl), ((λ e. ground (arith, e)), ((λ e. refl), ((λ e. ground (arith, e)), tt))))

-- The node of 20, which another transaction adds, stays.
kept_nodes : without_new later.items later.nodes ≡ at_start.nodes
unfolding without_new is_new
kept_nodes = refl

cleanup_all-without_new_example :
    (cleanup_all (10 ∷ 25 ∷ []) later
      ≡ record later { nodes = without_new later.items later.nodes })
    × (committed (without_new later.items later.nodes) ≡ committed later.nodes)
cleanup_all-without_new_example =
    cleanup_all-without_new (10 ∷ 25 ∷ []) later later-IsList new_covered

-- From the start: 10 is deleted and 25 inserted.
abbrev insert_25 : Bool × SortedList → Option (Bool × SortedList)
insert_25 r = trans_insert 25 r.1

abbrev nodes_of : Bool × SortedList → Option (List ListNode)
nodes_of r = some r.1.nodes

run : (trans_delete 10 at_start >>= insert_25 >>= nodes_of) ≡ some later.nodes
unfolding trans_delete trans_insert find_node validity_check take_effect
run = refl
