-- ===== src/Counter.antt =====
-- TCounter.hh, for a 64-bit unsigned value type: what a transaction does to its item of a counter.
--
-- Every call takes the value that it finds in the counter, `v`, as an argument: other threads may change it
-- between calls. A `Sto::abort` is none. The comparisons are those of TIntPredicate.hh, with a delta.
pub mod Replay
pub mod Install
use sto_layout.Base.{
  ℕ, ◌+◌, ◌-◌, ◌^◌, Bool, true, false, not, ◌||◌, ◌==◌, ltb, leb, if◌then◌else◌, Option, none, some,
  List, [], ◌∷◌,
}
use sto_layout.Tid.{u64}
use sto_layout.IntRange
use sto_layout.IntRange.{TIntRange, unconstrained, verify}

-- The item: its write, `assigned_bit`, `delta_bit`, and its predicate.
pub record CounterItem : Type 0 where
  pub written : Option ℕ
  pub assigned : Bool
  pub delta_bit : Bool
  pub predicate : Option TIntRange

abbrev pub fresh : CounterItem
fresh = record { written = none; assigned = false; delta_bit = false; predicate = none }

-- `write_value(T())`
abbrev pub write_value : Option ℕ → ℕ
write_value none = 0
write_value (some x) = x

-- `get`
abbrev pub range_of : Option TIntRange → TIntRange
range_of none = unconstrained
range_of (some r) = r

abbrev pub with_range : CounterItem → Option TIntRange → Option CounterItem
with_range it none = none
with_range it (some r) = some (record it { predicate = some r })

abbrev pub answered : {A : Type 0} → Option CounterItem → A → Option (CounterItem × A)
answered none a = none
answered (some it) a = some (it, a)

-- `operator T`
unfoldable pub read : CounterItem → ℕ → Option (CounterItem × ℕ)
unfolding IntRange.observe
read it v =
    let result = if it.assigned then 0 else v in
    let noted =
      if it.assigned then some it else with_range it (IntRange.observe (range_of it.predicate) v) in
    answered noted (u64 (result + write_value it.written))

-- `operator=`
unfoldable pub assign : CounterItem → ℕ → CounterItem
assign it x = record it { written = some x; assigned = true; delta_bit = false }

-- `operator+=` and `operator-=`
unfoldable pub plus : CounterItem → ℕ → CounterItem
plus it d = record it {
  written = some (u64 (write_value it.written + d));
  delta_bit = not it.assigned || it.delta_bit;
}

unfoldable pub minus : CounterItem → ℕ → CounterItem
minus it d = record it {
  written = some (u64 (write_value it.written + 2 ^ 64 - d));
  delta_bit = not it.assigned || it.delta_bit;
}

abbrev pub snapshot : CounterItem → ℕ → ℕ
snapshot it v = if it.assigned then write_value it.written else v

abbrev pub delta : CounterItem → ℕ
delta it = if it.delta_bit then write_value it.written else 0

-- `value -= delta(item)`
abbrev pub less_delta : CounterItem → ℕ → ℕ
less_delta it x = u64 (x + 2 ^ 64 - delta it)

unfoldable pub observe_eq : CounterItem → ℕ → ℕ → Option (CounterItem × Bool)
unfolding IntRange.observe_test_eq
observe_eq it v x =
    let value = less_delta it x in
    let s = snapshot it v in
    let noted =
      if it.assigned
      then some it
      else with_range it (IntRange.observe_test_eq (range_of it.predicate) s value) in
    answered noted (s == value)

unfoldable pub observe_lt : CounterItem → ℕ → ℕ → Option (CounterItem × Bool)
unfolding IntRange.observe_lt
observe_lt it v x =
    let value = less_delta it x in
    let result = ltb (snapshot it v) value in
    let noted =
      if it.assigned
      then some it
      else with_range it (IntRange.observe_lt (range_of it.predicate) value result) in
    answered noted result

unfoldable pub observe_le : CounterItem → ℕ → ℕ → Option (CounterItem × Bool)
unfolding IntRange.observe_le
observe_le it v x =
    let value = less_delta it x in
    let result = leb (snapshot it v) value in
    let noted =
      if it.assigned
      then some it
      else with_range it (IntRange.observe_le (range_of it.predicate) value result) in
    answered noted result

-- `check_predicate`, for an item that has a predicate; commits ask no other.
unfoldable pub verified : CounterItem → ℕ → Bool
unfolding verify
verified it v = elim (it.predicate) [ none ↦ true | some r ↦ verify r v ]

-- The value that `install` writes.
unfoldable pub installed : CounterItem → ℕ → ℕ
installed it v =
    let result = write_value it.written in if it.delta_bit then u64 (result + v) else result

-- The calls of a transaction on one counter, with their answers.
pub data Op : Type 0 where
  reading : Op
  assigning : ℕ → Op
  adding : ℕ → Op
  subtracting : ℕ → Op
  testing_eq : ℕ → Op
  testing_lt : ℕ → Op
  testing_le : ℕ → Op

pub data Answer : Type 0 where
  done : Answer
  number : ℕ → Answer
  truth : Bool → Answer

abbrev pub wrapped :
    {A : Type 0} → (A → Answer) → Option (CounterItem × A) → Option (CounterItem × Answer)
wrapped f none = none
wrapped f (some (it, a)) = some (it, f a)

unfoldable pub call : CounterItem → ℕ → Op → Option (CounterItem × Answer)
unfolding read assign plus minus observe_eq observe_lt observe_le
call it v reading = wrapped number (read it v)
call it v (assigning x) = some (assign it x, done)
call it v (adding d) = some (plus it d, done)
call it v (subtracting d) = some (minus it d, done)
call it v (testing_eq x) = wrapped truth (observe_eq it v x)
call it v (testing_lt x) = wrapped truth (observe_lt it v x)
call it v (testing_le x) = wrapped truth (observe_le it v x)

abbrev pub then_answers :
    Answer → Option (CounterItem × List Answer) → Option (CounterItem × List Answer)
then_answers a none = none
then_answers a (some (it, rest)) = some (it, a ∷ rest)

-- Calls one after the other, each with the value that it finds.
unfoldable pub run : CounterItem → List (ℕ × Op) → Option (CounterItem × List Answer)
unfolding call
run it [] = some (it, [])
run it ((v, op) ∷ ops) = elim (call it v op) [
  | none ↦ none
  | some (it', a) ↦ then_answers a (run it' ops)
]
