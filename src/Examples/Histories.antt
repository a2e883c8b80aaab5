-- ===== src/Examples/Histories.antt =====
-- Callbacks that wait for their epoch.
use sto_layout.Base.{ℕ, ◌≡◌, refl, some, List, [], ◌∷◌, arith}
use sto_layout.Rcu.{
  epoch_mark, callback, TRcuSet, new, add, hard_clean_until, clean_groups, clean_group,
  clean_elements, is_before,
}
use sto_layout.Rcu.View.{pending, IsRcuSet, Queues, add-Queues}
use sto_layout.Rcu.Sets.{CleansSet, hard_clean_until-CleansSet}

-- Callbacks 7 and 8 of epoch 3, and callback 9 of epoch 5.
abbrev waiting : TRcuSet
waiting = record new {
  current = record {
    head = 0;
    capacity = 252;
    epoch = 5;
    e = epoch_mark 3 ∷ callback 7 ∷ callback 8 ∷ epoch_mark 5 ∷ callback 9 ∷ [];
  };
}

waiting-IsRcuSet : IsRcuSet waiting
unfolding new
waiting-IsRcuSet = record {
  full_groups = tt;
  current_group = record {
    marked = tt;
    filled = tt;
    last = λ z x. refl;
    fits = omega arith;
    room = omega arith;
    at_start = λ z. refl;
  };
  spare_groups = tt;
}

clean_waiting :
    hard_clean_until waiting 5
    ≡ some (
      7 ∷ 8 ∷ [],
      record waiting {
        current = record {
          head = 3;
          capacity = 252;
          epoch = 5;
          e = epoch_mark 5 ∷ callback 9 ∷ [];
        };
      },
    )
unfolding hard_clean_until clean_groups clean_group clean_elements is_before new
clean_waiting = refl

hard_clean_until-CleansSet_example :
    (r : List ℕ × TRcuSet) × (hard_clean_until waiting 5 ≡ some r)
    × CleansSet 5 (pending waiting) r.0 r.1
hard_clean_until-CleansSet_example = hard_clean_until-CleansSet 5 waiting waiting-IsRcuSet

add-Queues_example : (u : TRcuSet) × (add waiting 6 4 ≡ some u) × Queues waiting 6 4 u
add-Queues_example = add-Queues waiting 6 4 waiting-IsRcuSet
