-- ===== src/Examples/Counters.antt =====
-- A counter to which a transaction adds, and which it compares.
use sto_layout.Base.{ℕ, ◌<◌, ◌^◌, ◌≡◌, refl, true, false, some, List, [], ◌∷◌, All, arith}
use sto_layout.IntRange
use sto_layout.IntRange.{TIntRange, unconstrained, verify}
use sto_layout.Counter.{
  CounterItem, fresh, plus, observe_lt, observe_le, verified, installed, Op, adding, testing_lt,
  testing_le, Answer, done, truth, call, run,
}
use sto_layout.Counter.Install.{IsWordOp, installed_lem}
use sto_layout.Counter.Replay.{all_on, run_replays}

-- It adds 3 to a counter of 5, then compares it with 10 when the counter is 4, and with 12 when it is 6.
abbrev three_calls : List (ℕ × Op)
three_calls = (5, adding 3) ∷ (4, testing_lt 10) ∷ (6, testing_le 12) ∷ []

abbrev their_answers : List Answer
their_answers = done ∷ truth true ∷ truth true ∷ []

-- The counter may be at most 6 at commit time.
abbrev item_after : CounterItem
item_after = record {
  written = some 3;
  assigned = false;
  delta_bit = true;
  predicate = some (record { first = 0; second = 6 });
}

calls_run : run fresh three_calls ≡ some (item_after, their_answers)
unfolding run call plus observe_lt observe_le IntRange.observe_lt IntRange.observe_le unconstrained
calls_run = refl

operands-IsWordOp : All (λ (p : ℕ × Op). IsWordOp p.1) three_calls
operands-IsWordOp = (omega arith, (omega arith, (omega arith, tt)))

words_called : All (λ (q : ℕ × Op). q.0 < 2 ^ 64) three_calls
words_called = (omega arith, (omega arith, (omega arith, tt)))

item_verified : verified item_after 6 ≡ true
unfolding verified verify
item_verified = refl

installed_lem_example : installed item_after 6 ≡ 9
installed_lem_example =
    installed_lem item_after three_calls their_answers 6 operands-IsWordOp calls_run refl

run_replays_example :
    (jt : CounterItem) × (run fresh (all_on 6 three_calls) ≡ some (jt, their_answers))
run_replays_example =
    run_replays item_after three_calls their_answers 6 words_called (omega arith) calls_run
      item_verified
