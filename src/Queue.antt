-- ===== src/Queue.antt =====
-- Queue.hh: a queue in a circular buffer, and what one transaction does to it before it commits.
--
-- Elements are numbers, and `size` is `BUF_SIZE`. An answer of none is a failed assertion. The version words
-- of head and tail are not in the queue here: `Local` says whether the transaction has observed them.
pub mod View
pub mod Direct
pub mod Trans
pub mod Answers
pub mod Install
pub mod Items
use sto_layout.Base.{
  ℕ, zero, suc, ◌+◌, ◌-◌, ◌%◌, ◌^◌, Bool, true, false, not, ◌==◌, ◌&&◌, if◌then◌else◌, Option, none,
  some, List, [], ◌∷◌, ◌++◌, update, ◌>>=◌,
}
use sto_layout.Rwlock.{u32}

pub record Queue : Type 0 where
  pub slots : ℕ → ℕ
  pub head : ℕ
  pub tail : ℕ

-- The index after `i`.
unfoldable pub next : ℕ → ℕ → ℕ
next size i = (i + 1) % size

-- An element written at the tail.
abbrev pub put : ℕ → Queue → ℕ → Queue
put size q v = record q { slots = update q.slots q.tail v; tail = next size q.tail }

unfoldable pub nontrans_push : ℕ → Queue → ℕ → Option Queue
nontrans_push size q v = let q' = put size q v in if q'.head == q'.tail then none else some q'

unfoldable pub nontrans_pop : ℕ → Queue → Option (ℕ × Queue)
nontrans_pop size q =
    if q.head == q.tail then none else some (q.slots q.head, record q { head = next size q.head })

unfoldable pub nontrans_empty : Queue → Bool
nontrans_empty q = q.head == q.tail

-- `nontrans_clear` on fuel.
unfoldable pub nontrans_clear : ℕ → ℕ → Queue → Option Queue
unfolding nontrans_pop nontrans_empty
nontrans_clear size zero q = none
nontrans_clear size (suc fuel) q =
    let next_round = λ (r : Queue). nontrans_clear size fuel r in
    if nontrans_empty q
    then some q
    else elim (nontrans_pop size q) [ none ↦ none | some (v, r) ↦ next_round r ]

-- The write of the item with key -1: a value with `empty_bit`, or with `list_bit` a list of values.
pub data PushItem : Type 0 where
  no_write : PushItem
  one : ℕ → Bool → PushItem
  many : List ℕ → PushItem

-- The items of one transaction on the queue: the push item, `delete_bit` and `read_writes` of the items of
-- indices, and whether the versions of tail and head are observed. `transPop` writes to the item with key
-- -2 whenever it observes the head.
pub record Local : Type 0 where
  pub push : PushItem
  pub deleted : ℕ → Bool
  pub read_writes : ℕ → Bool
  pub tail_observed : Bool
  pub head_observed : Bool
  pub head_write : Bool

abbrev pub untouched : Local
untouched = record {
  push = no_write;
  deleted = λ _. false;
  read_writes = λ _. false;
  tail_observed = false;
  head_observed = false;
  head_write = false;
}

abbrev pub pushed : PushItem → ℕ → PushItem
pushed no_write v = one v false
pushed (one x false) v = many (x ∷ v ∷ [])
pushed (one x true) v = many (v ∷ [])
pushed (many vs) v = many (vs ++ (v ∷ []))

unfoldable pub trans_push : Local → ℕ → Local
trans_push l v = record l { push = pushed l.push v }

-- `transPop` at the tail: it takes from the transaction's own pushes.
abbrev pub pop_own : Local → ℕ → PushItem → Bool × Local
pop_own l index no_write = (false, l)
pop_own l index (one x true) = (false, l)
pop_own l index (one x false) = (true, record l { push = one x true })
pop_own l index (many []) = (false, l)
pop_own l index (many (x ∷ xs)) =
    (true, record l { push = many xs; read_writes = update l.read_writes index true })

abbrev pub pop_at_tail : Local → ℕ → Bool × Local
pop_at_tail l index = pop_own (record l { tail_observed = true }) index l.push

abbrev pub pop_slot : Local → ℕ → Bool × Local
pop_slot l index = (
  true,
  record l { head_observed = true; head_write = true; deleted = update l.deleted index true },
)

-- The loop of `transPop` on fuel, from an index on; the answer none is that the fuel is used up.
unfoldable pub pop_from : ℕ → Queue → Local → ℕ → ℕ → Option (Bool × Local)
pop_from size q l zero index = none
pop_from size q l (suc fuel) index =
    let rest = pop_from size q l fuel (next size index) in
    if index == q.tail
    then some (pop_at_tail l index)
    else (if l.deleted index then rest else some (pop_slot l index))

unfoldable pub trans_pop : ℕ → Queue → Local → Option (Bool × Local)
unfolding pop_from
trans_pop size q l = pop_from size q l size q.head

abbrev pub front_own : PushItem → Option ℕ
front_own no_write = none
front_own (one x true) = none
front_own (one x false) = some x
front_own (many []) = none
front_own (many (x ∷ xs)) = some x

-- The loop of `transFront`: the value if there is one.
unfoldable pub front_from : ℕ → Queue → Local → ℕ → ℕ → Option (Option ℕ × Local)
front_from size q l zero index = none
front_from size q l (suc fuel) index =
    let rest = front_from size q l fuel (next size index) in
    if index == q.tail
    then some (front_own l.push, record l { tail_observed = true })
    else (if l.deleted index
        then rest
        else some (some (q.slots index), record l { head_observed = true }))

unfoldable pub trans_front : ℕ → Queue → Local → Option (Option ℕ × Local)
unfolding front_from
trans_front size q l = front_from size q l size q.head

-- `(head_index - 1) % BUF_SIZE`, on 32-bit unsigned numbers.
abbrev pub full_mark : ℕ → ℕ → ℕ
full_mark size head = u32 (head + 2 ^ 32 - 1) % size

-- The loop of `install` over the values that were pushed.
unfoldable pub install_pushes : ℕ → ℕ → Queue → List ℕ → Option Queue
install_pushes size mark q [] = some q
install_pushes size mark q (v ∷ vs) =
    let rest = install_pushes size mark (put size q v) vs in if q.tail == mark then none else rest

-- `install` of the push item.
unfoldable pub install_push_item : ℕ → Queue → PushItem → Option Queue
unfolding install_pushes
install_push_item size q no_write = some q
install_push_item size q (one v false) = some (put size q v)
install_push_item size q (one v true) = some q
install_push_item size q (many vs) = install_pushes size (full_mark size q.head) q vs

-- The items of a transaction that are installed: the one with key -2, which stands for the version of the
-- head, those of indices with `delete_bit` and `read_writes`, and the one with key -1, for the pushes.
pub data QueueItem : Type 0 where
  head_item : QueueItem
  index_item : Bool → Bool → QueueItem
  push_item : QueueItem

-- `install` of one item, where `push` is the write of the push item.
unfoldable pub install_item : ℕ → PushItem → Queue → QueueItem → Option Queue
unfolding install_push_item
install_item size push q head_item = some q
install_item size push q (index_item false is_rw) = some q
install_item size push q (index_item true is_rw) =
    if not is_rw then some (record q { head = next size q.head }) else some q
install_item size push q push_item = install_push_item size q push

-- `install` of the items in their order.
unfoldable pub install_items : ℕ → PushItem → Queue → List QueueItem → Option Queue
unfolding install_item
install_items size push q [] = some q
install_items size push q (item ∷ items) = do
  q' ← install_item size push q item
  install_items size push q' items
