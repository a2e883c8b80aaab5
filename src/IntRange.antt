-- ===== src/IntRange.antt =====
-- TIntRange.hh, for a 64-bit unsigned value type: the range of values for which every comparison made so
-- far would have come out the same, and the proxies that narrow it. A `Sto::abort` is none; a
-- `difference_type` is the word of its two's complement.
pub mod Replay
use sto_layout.Base.{
  ℕ, ◌+◌, ◌-◌, ◌^◌, Bool, true, false, not, ◌&&◌, ◌==◌, ltb, leb, if◌then◌else◌, Option, none, some,
  map, max, min,
}
use sto_layout.Tid.{u64}

pub record TIntRange : Type 0 where
  pub first : ℕ
  pub second : ℕ

unfoldable pub unconstrained : TIntRange
unconstrained = record { first = 0; second = 2 ^ 64 - 1 }

-- `if (first > second) Sto::abort();`
abbrev pub nonempty : TIntRange → Option TIntRange
nonempty r = if ltb r.second r.first then none else some r

unfoldable pub verify : TIntRange → ℕ → Bool
verify r value = leb r.first value && leb value r.second

unfoldable pub observe : TIntRange → ℕ → Option TIntRange
observe r value =
    if leb r.first value && leb value r.second
    then some (record { first = value; second = value })
    else none

unfoldable pub observe_test_eq : TIntRange → ℕ → ℕ → Option TIntRange
observe_test_eq r value comparison = nonempty (
    if value == comparison
    then record { first = max r.first value; second = min r.second value }
    else (if ltb value comparison
        then record r { second = min r.second (u64 (comparison + 2 ^ 64 - 1)) }
        else record r { first = max r.first (u64 (comparison + 1)) }))

unfoldable pub observe_lt : TIntRange → ℕ → Bool → Option TIntRange
observe_lt r value was_lt = nonempty (
    if was_lt
    then record r { second = min r.second (u64 (value + 2 ^ 64 - 1)) }
    else record r { first = max r.first value })

unfoldable pub observe_le : TIntRange → ℕ → Bool → Option TIntRange
observe_le r value was_le = nonempty (
    if was_le
    then record r { second = min r.second value }
    else record r { first = max r.first (u64 (value + 1)) })

unfoldable pub observe_gt : TIntRange → ℕ → Bool → Option TIntRange
unfolding observe_le
observe_gt r value was_gt = observe_le r value (not was_gt)

unfoldable pub observe_ge : TIntRange → ℕ → Bool → Option TIntRange
unfolding observe_lt
observe_ge r value was_ge = observe_lt r value (not was_ge)

-- `TIntRangeProxy`, with the range that `r_` points to, if it points to one.
pub record TIntRangeProxy : Type 0 where
  pub range : Option TIntRange
  pub original : ℕ
  pub delta : ℕ

-- `if (r_) r_->…`
unfoldable pub touch : Option TIntRange → (TIntRange → Option TIntRange) → Option (Option TIntRange)
touch none f = some none
touch (some r) f = elim (f r) [ none ↦ none | some r' ↦ some (some r') ]

-- The range after an operation, with its answer.
abbrev pub answer : {A : Type 0} → Option (Option TIntRange) → A → Option (Option TIntRange × A)
answer none x = none
answer (some r) x = some (r, x)

abbrev pub negated : Option (Option TIntRange × Bool) → Option (Option TIntRange × Bool)
negated none = none
negated (some (r, b)) = some (r, not b)

-- `x -= delta_`
abbrev pub less_delta : TIntRangeProxy → ℕ → ℕ
less_delta p x = u64 (x + 2 ^ 64 - p.delta)

unfoldable pub value : TIntRangeProxy → Option (Option TIntRange × ℕ)
unfolding observe touch
value p = answer (touch p.range (λ r. observe r p.original)) (u64 (p.original + p.delta))

unfoldable pub eq : TIntRangeProxy → ℕ → Option (Option TIntRange × Bool)
unfolding observe_test_eq touch
eq p x =
    let y = less_delta p x in
    answer (touch p.range (λ r. observe_test_eq r p.original y)) (p.original == y)

unfoldable pub ne : TIntRangeProxy → ℕ → Option (Option TIntRange × Bool)
unfolding eq
ne p x = negated (eq p x)

unfoldable pub lt : TIntRangeProxy → ℕ → Option (Option TIntRange × Bool)
unfolding observe_lt touch
lt p x =
    let y = less_delta p x in
    answer (touch p.range (λ r. observe_lt r y (ltb p.original y))) (ltb p.original y)

unfoldable pub le : TIntRangeProxy → ℕ → Option (Option TIntRange × Bool)
unfolding observe_le touch
le p x =
    let y = less_delta p x in
    answer (touch p.range (λ r. observe_le r y (leb p.original y))) (leb p.original y)

unfoldable pub ge : TIntRangeProxy → ℕ → Option (Option TIntRange × Bool)
unfolding lt
ge p x = negated (lt p x)

unfoldable pub gt : TIntRangeProxy → ℕ → Option (Option TIntRange × Bool)
unfolding le
gt p x = negated (le p x)

-- The other operand first.
unfoldable pub lt_swapped : ℕ → TIntRangeProxy → Option (Option TIntRange × Bool)
unfolding gt
lt_swapped a b = gt b a

unfoldable pub le_swapped : ℕ → TIntRangeProxy → Option (Option TIntRange × Bool)
unfolding ge
le_swapped a b = ge b a

-- `TIntRangeDifferenceProxy`: the comparisons of a difference of 64-bit values with a signed operand. A
-- negative `x` after `x -= delta_` is a word with its top bit set; then nothing is observed.
abbrev pub is_negative : ℕ → Bool
is_negative x = leb (2 ^ 63) x

unfoldable pub difference_eq : TIntRangeProxy → ℕ → Option (Option TIntRange × Bool)
unfolding observe_test_eq touch
difference_eq p x =
    let y = less_delta p x in
    if is_negative y
    then some (p.range, false)
    else answer (touch p.range (λ r. observe_test_eq r p.original y)) (p.original == y)

unfoldable pub difference_lt : TIntRangeProxy → ℕ → Option (Option TIntRange × Bool)
unfolding observe_lt touch
difference_lt p x =
    let y = less_delta p x in
    if is_negative y
    then some (p.range, false)
    else answer (touch p.range (λ r. observe_lt r y (ltb p.original y))) (ltb p.original y)

unfoldable pub difference_le : TIntRangeProxy → ℕ → Option (Option TIntRange × Bool)
unfolding observe_le touch
difference_le p x =
    let y = less_delta p x in
    if is_negative y
    then some (p.range, false)
    else answer (touch p.range (λ r. observe_le r y (leb p.original y))) (leb p.original y)
