-- ===== src/Examples/Ranges.antt =====
-- Ranges and their proxies.
use sto_layout.Base.{◌≡◌, ◌==◌, refl, true, none, some, ltb, leb, arith}
use sto_layout.IntRange.{TIntRangeProxy, unconstrained, verify, eq, lt, le, gt, less_delta}
use sto_layout.IntRange.Replay.{Replays, comparisons_replay}

abbrev four : TIntRangeProxy
four = record { range = some unconstrained; original = 4; delta = 1 }

comparisons_replay_case :
    Replays unconstrained four (λ w. w == less_delta four 6) (eq four 6)
    × Replays unconstrained four (λ w. ltb w (less_delta four 6)) (lt four 6)
    × Replays unconstrained four (λ w. leb w (less_delta four 6)) (le four 6)
    × Replays unconstrained four (λ w. ltb (less_delta four 6) w) (gt four 6)
unfolding unconstrained verify
comparisons_replay_case = comparisons_replay four unconstrained 6 refl refl (omega arith)

-- `0 + 5 < 3` is answered by `0 < 3 - 5`, which wraps around.
lt_wraps : lt (record { range = none; original = 0; delta = 5 }) 3 ≡ some (none, true)
unfolding lt
lt_wraps = refl
