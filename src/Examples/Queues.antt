-- ===== src/Examples/Queues.antt =====
-- A queue of eight slots, and a transaction on it.
use sto_layout.Base.{
  ℕ, if◌then◌else◌, ◌==◌, ◌+◌, ◌<◌, ◌≤◌, ◌≡◌, ◌⊎◌, refl, Bool, true, false, none, some, List, [],
  ◌∷◌, ◌++◌, ◌||◌, ◌-◌, length, arith,
}
use sto_layout.Queue.{
  Queue, next, put, nontrans_push, nontrans_pop, nontrans_empty, nontrans_clear, one, many, Local,
  untouched, trans_push, trans_pop, pop_from, trans_front, full_mark, install_pushes,
  install_push_item, QueueItem, head_item, index_item, push_item, install_item, install_items,
}
use sto_layout.Queue.View.{IsQueue, count, contents}
use sto_layout.Queue.Direct.{
  Puts, Pops, without_head, nontrans_push_lem, nontrans_pop_lem, nontrans_clear_lem,
}
use sto_layout.Queue.Trans.{HasPopped, view, trans_push-view}
use sto_layout.Queue.Answers.{PopsView, trans_pop_lem, trans_front_lem}
use sto_layout.Queue.Install.{Joins, install_pushes_lem, install_one_full}
use sto_layout.Queue.Items.{pops, Commits, install_items-view}

-- It holds 10, 11 and 12, around the end of the buffer.
abbrev three : Queue
three = record { slots = λ i. if i == 0 then 12 else i + 4; head = 6; tail = 1 }

three-IsQueue : IsQueue 8 three
three-IsQueue = record { head_in = omega arith; tail_in = omega arith }

three-contents : contents 8 three ≡ 10 ∷ 11 ∷ 12 ∷ []
three-contents = refl

untouched-HasPopped : HasPopped 8 three untouched 0
untouched-HasPopped = record {
  few = omega arith;
  gone = λ i lt. absurd (omega (arith, lt));
  left = λ i le lt. refl;
}

-- After a push of 20 the transaction pops 10.
pop_after_push :
    (r : Bool × Local) × (trans_pop 8 three (trans_push untouched 20) ≡ some r)
    × (r.0 ≡ true)
    × (view 8 three r.1 1 ≡ 11 ∷ 12 ∷ 20 ∷ [])
unfolding trans_pop pop_from trans_push next
pop_after_push = (_, refl, refl, refl)

-- The test for a full buffer at head 0 compares with a slot in its middle.
full_mark_at_zero : full_mark 1000000 0 ≡ 967295
full_mark_at_zero = refl

nontrans_push_lem_case :
    (count 8 three + 1 < 8
      → (nontrans_push 8 three 13 ≡ some (put 8 three 13)) × Puts 8 three 13 (put 8 three 13))
    × (count 8 three + 1 ≡ 8 → nontrans_push 8 three 13 ≡ none)
nontrans_push_lem_case = nontrans_push_lem 8 three 13 three-IsQueue

nontrans_pop_lem_case :
    ((nontrans_empty three ≡ true) × (contents 8 three ≡ []) × (nontrans_pop 8 three ≡ none))
    ⊎ ((nontrans_empty three ≡ false)
        × (nontrans_pop 8 three ≡ some (10, without_head 8 three))
        × Pops 8 three 10 (without_head 8 three))
nontrans_pop_lem_case = nontrans_pop_lem 8 three three-IsQueue

nontrans_clear_lem_example : (q : Queue) × (nontrans_clear 8 4 three ≡ some q) × (contents 8 q ≡ [])
nontrans_clear_lem_example = nontrans_clear_lem 8 4 three three-IsQueue (omega arith)

trans_push-view_case :
    HasPopped 8 three (trans_push untouched 20) 0
    × (view 8 three (trans_push untouched 20) 0 ≡ 10 ∷ 11 ∷ 12 ∷ 20 ∷ [])
trans_push-view_case = trans_push-view 8 three untouched 20 0 untouched-HasPopped

trans_pop_lem_example :
    (r : Bool × Local) × (trans_pop 8 three untouched ≡ some r)
    × PopsView 8 three (view 8 three untouched 0) r
trans_pop_lem_example = trans_pop_lem 8 three untouched 0 three-IsQueue untouched-HasPopped

trans_front_lem_example :
    (u : Local) × (trans_front 8 three untouched ≡ some (some 10, u))
    × HasPopped 8 three u 0
    × (view 8 three u 0 ≡ view 8 three untouched 0)
trans_front_lem_example = trans_front_lem 8 three untouched 0 three-IsQueue untouched-HasPopped

install_pushes_lem_case :
    (count 8 three + 2 < 8
      → (q : Queue) × (install_pushes 8 5 three (1 ∷ 2 ∷ []) ≡ some q)
        × Joins 8 three (1 ∷ 2 ∷ []) q)
    × (8 ≤ count 8 three + 2 → install_pushes 8 5 three (1 ∷ 2 ∷ []) ≡ none)
install_pushes_lem_case = install_pushes_lem 8 5 three (1 ∷ 2 ∷ []) three-IsQueue (omega arith) refl

-- A transaction that has popped 10 and 11 and pushed 20 and 21. The item of index 1 is of an element that
-- it took from its own pushes.
abbrev popped_two : Local
popped_two = record untouched {
  push = many (20 ∷ 21 ∷ []);
  deleted = λ i. i == 6 || i == 7;
  read_writes = λ i. i == 1;
}

popped_two-HasPopped : HasPopped 8 three popped_two 2
popped_two-HasPopped = record {
  few = omega arith;
  gone = λ i lt. ground arith;
  left = λ i le lt. ground arith;
}

-- One pop is installed before the pushes.
abbrev items_before : List QueueItem
items_before = head_item ∷ index_item true false ∷ index_item true true ∷ []

abbrev items_after : List QueueItem
items_after = index_item true false ∷ []

in_order : Commits 2 (items_before ++ push_item ∷ items_after) items_before items_after
unfolding pops
in_order = record { whole = refl; before_pops = tt; after_pops = tt; popped = refl }

one_before : pops items_before ≡ 1
unfolding pops
one_before = refl

install_items-view_example :
    (count 8 three - pops items_before + 2 < 8
      → (q : Queue) × (install_items 8 popped_two.push three
            (items_before ++ push_item ∷ items_after)
          ≡ some q)
        × IsQueue 8 q
        × (contents 8 q ≡ 12 ∷ 20 ∷ 21 ∷ []))
    × ((vs : List ℕ)
        → popped_two.push ≡ many vs
        → 8 ≤ count 8 three - pops items_before + length vs
        → install_items 8 popped_two.push three (items_before ++ push_item ∷ items_after) ≡ none)
install_items-view_example =
    install_items-view 8 three popped_two 2 (items_before ++ push_item ∷ items_after) items_before
      items_after three-IsQueue popped_two-HasPopped in_order (omega arith)
      (ground (arith, one_before))

installed_run :
    (q : Queue) × (install_items 8 popped_two.push three
        (index_item true false ∷ push_item ∷ index_item true false ∷ [])
      ≡ some q)
    × (contents 8 q ≡ 12 ∷ 20 ∷ 21 ∷ [])
unfolding install_items install_item install_push_item install_pushes next
installed_run = (_, refl, refl)

-- Seven elements in eight slots.
abbrev seven : Queue
seven = record { slots = λ i. i; head = 1; tail = 0 }

install_one_full_example :
    (q : Queue) × (install_push_item 8 seven (one 9 false) ≡ some q) × (contents 8 q ≡ [])
install_one_full_example =
    install_one_full 8 seven 9 (record { head_in = omega arith; tail_in = omega arith }) refl
