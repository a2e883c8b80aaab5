-- ===== src/SortedList/Calls.antt =====
-- The calls of a transaction on the list are those of a set, on what the transaction sees.
use sto_layout.Base.Sorted.{insert_sorted, contains, remove}
use sto_layout.Base.{
  ℕ, ◌≡◌, refl, sym, subst, Bool, true, false, not, if◌then◌else◌, Option, none, some, All, length,
  arith,
}
use sto_layout.SortedList.{
  ListNode, pos, SortedList, validity_check, find_node, trans_size, on_node, verify_list,
  trans_find, trans_insert, trans_delete, find_found, insert_found, delete_found,
}
use sto_layout.SortedList.Split.{Sought, find_node-Sought}
use sto_layout.SortedList.View.{ItemFits, IsList}
use sto_layout.SortedList.Change.{seen, IsNode, Around-IsNode, All-parts, contains-visible}
use sto_layout.SortedList.Answering.{
  find_at-Answers, insert_at-Answers, delete_at-Answers, missing_seen, verify-Answers, new-Answers,
  Answers, is_foreign, foreign_at,
}

-- What a call finds: a node of the list with its item, or a gap.
node_fits :
    (s : SortedList) → IsList s → (n : ListNode) → IsNode s n → ItemFits n.is_valid (s.items n.val)
node_fits s h n at =
    (All-parts (λ m. ItemFits m.is_valid (s.items m.val)) at.ps n at.qs
      (subst (All (λ m. ItemFits m.is_valid (s.items m.val))) at.whole h.items_fit)).1

not_foreign : (b : Bool) → not b ≡ false → b ≡ true
not_foreign true e = refl
not_foreign false e = ground (arith, e)

not_own : (b : Bool) → not b ≡ true → b ≡ false
not_own true e = ground (arith, e)
not_own false e = refl

insert_found-Answers :
    (elem : ℕ) (o : Option ListNode) (s : SortedList)
    → IsList s
    → Sought elem s.nodes o
    → foreign_at o s ≡ false
    → Answers
        (insert_found elem o s)
        (not (contains elem (seen s)))
        (if contains elem (seen s) then seen s else insert_sorted elem (seen s))
unfolding insert_found foreign_at
insert_found-Answers elem none s h gap own =
    rw (missing_seen elem s h gap) (new-Answers elem s h gap)
insert_found-Answers elem (some n) s h there own =
    let at = Around-IsNode s elem n there.0 there.1 in
    rw (sym there.0, contains-visible s h n at)
      (insert_at-Answers s h n at n.is_valid (s.items n.val) (node_fits s h n at) refl refl
        (not_foreign _ own))

delete_found-Answers :
    (elem : ℕ) (o : Option ListNode) (s : SortedList)
    → IsList s
    → Sought elem s.nodes o
    → foreign_at o s ≡ false
    → Answers
        (delete_found o s)
        (contains elem (seen s))
        (if contains elem (seen s) then remove elem (seen s) else seen s)
unfolding delete_found foreign_at
delete_found-Answers elem none s h gap own =
    rw (missing_seen elem s h gap) (verify-Answers elem s h gap)
delete_found-Answers elem (some n) s h there own =
    let at = Around-IsNode s elem n there.0 there.1 in
    rw (sym there.0, contains-visible s h n at)
      (delete_at-Answers s h n at n.is_valid (s.items n.val) (node_fits s h n at) refl refl
        (not_foreign _ own))

find_found-Answers :
    (elem : ℕ) (o : Option ListNode) (s : SortedList)
    → IsList s
    → Sought elem s.nodes o
    → foreign_at o s ≡ false
    → Answers (find_found o s) (contains elem (seen s)) (seen s)
unfolding find_found foreign_at
find_found-Answers elem none s h gap own =
    rw (missing_seen elem s h gap) (verify-Answers elem s h gap)
find_found-Answers elem (some n) s h there own =
    let at = Around-IsNode s elem n there.0 there.1 in
    rw (sym there.0, contains-visible s h n at)
      (find_at-Answers s h n at n.is_valid (s.items n.val) (node_fits s h n at) refl refl
        (not_foreign _ own))

-- `transInsert`, `transDelete` and `transFind` are the calls of a set. Unless another transaction has put
-- a new node for the element into the list, each returns: an insertion or a deletion says whether it
-- changed what the transaction sees, a search whether it sees the element; afterwards the transaction
-- sees what a set says, in order, and the invariant holds, with the size that `size` returns.
pub calls-Answers :
    (elem : ℕ) (s : SortedList)
    → IsList s
    → is_foreign elem s ≡ false
    → Answers
        (trans_insert elem s)
        (not (contains elem (seen s)))
        (if contains elem (seen s) then seen s else insert_sorted elem (seen s))
      × Answers
          (trans_delete elem s)
          (contains elem (seen s))
          (if contains elem (seen s) then remove elem (seen s) else seen s)
      × Answers (trans_find elem s) (contains elem (seen s)) (seen s)
unfolding trans_insert trans_delete trans_find is_foreign
calls-Answers elem s h own =
    let sought = find_node-Sought elem s.nodes h.increasing in
    (
      insert_found-Answers elem (find_node elem s.nodes) s h sought own,
      delete_found-Answers elem (find_node elem s.nodes) s h sought own,
      find_found-Answers elem (find_node elem s.nodes) s h sought own,
    )

-- Where another transaction has put a new node for the element into the list, each call aborts.
foreign_aborts :
    (o : Option ListNode) (elem : ℕ) (s : SortedList)
    → foreign_at o s ≡ true
    → (insert_found elem o s ≡ none) × (delete_found o s ≡ none) × (find_found o s ≡ none)
unfolding foreign_at insert_found delete_found find_found on_node
foreign_aborts none elem s e = absurd (ground (arith, e))
foreign_aborts (some n) elem s e = (
  rw (not_own (validity_check n.is_valid (s.items n.val)) e) refl,
  rw (not_own (validity_check n.is_valid (s.items n.val)) e) refl,
  rw (not_own (validity_check n.is_valid (s.items n.val)) e) refl,
)

-- Where another transaction has put a new node for the element into the list, each of the calls aborts.
pub calls_abort :
    (elem : ℕ) (s : SortedList)
    → is_foreign elem s ≡ true
    → (trans_insert elem s ≡ none) × (trans_delete elem s ≡ none) × (trans_find elem s ≡ none)
unfolding is_foreign trans_insert trans_delete trans_find
calls_abort elem s e = foreign_aborts (find_node elem s.nodes) elem s e

-- `size` is the number of values that the transaction sees.
pub trans_size-seen :
    (s : SortedList) → IsList s → trans_size s ≡ (pos (length (seen s)), verify_list s)
unfolding trans_size
trans_size-seen s h = rw h.size refl
