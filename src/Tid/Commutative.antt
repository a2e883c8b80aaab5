-- ===== src/Tid/Commutative.antt =====
-- Interface.hh, `TCommutativeVersion`: the low bits count the threads that hold the word, and commits
-- may install their versions in any order.
use sto_layout.Base.{
  ℕ, ◌+◌, ◌-◌, ◌/◌, ◌%◌, ◌^◌, ◌≤◌, ◌≡◌, bit_or, Bool, true, false, Option, none, some, ◌==◌, ltb,
  max, if◌then◌else◌, arith,
}
use sto_layout.Base.Bits.{bit_or-add_of_low}
use sto_layout.Tid.{nonopaque_bit, increment_value, u64, unlocked, bool_cmpxchg}

abbrev pub num_locks : ℕ → ℕ
num_locks v = v % 32

unfoldable pub is_locked : ℕ → Bool
is_locked v = ltb 0 (num_locks v)

-- `__sync_fetch_and_add` by 1 and by -1; `try_lock` is `lock` and never fails.
unfoldable pub lock : ℕ → ℕ
lock v = u64 (v + 1)

unfoldable pub unlock : ℕ → ℕ
unlock v = u64 (v + 2 ^ 64 - 1)

-- How a round of a loop ends: the call returns, or another round follows.
pub data Round : Type 0 where
  done : ℕ → Round
  again : ℕ → Round

abbrev pub swapped : ℕ × Bool → Round
swapped (v, true) = Round.done v
swapped (v, false) = Round.again v

-- One round of the loop of `set_version`, for a word read as `cur` that is `v` at the swap.
unfoldable pub set_version_round : ℕ → ℕ → ℕ → Round
unfolding unlocked
set_version_round v cur new_v =
    if ltb (unlocked new_v) (unlocked cur)
    then Round.done v
    else swapped (bool_cmpxchg v cur (bit_or new_v (num_locks cur)))

-- `set_version` with no other thread in between: its first round returns.
unfoldable pub set_version : ℕ → ℕ → Option ℕ
unfolding set_version_round
set_version v new_v =
    if num_locks new_v == 0
    then elim (set_version_round v v new_v) [ Round.done w ↦ some w | Round.again w ↦ none ]
    else none

unfoldable pub inc_nonopaque_version_round : ℕ → ℕ → Option Round
unfolding is_locked
inc_nonopaque_version_round v cur =
    if is_locked v
    then some (swapped (bool_cmpxchg v cur (bit_or (u64 (cur + increment_value)) nonopaque_bit)))
    else none

unfoldable pub check_version : ℕ → ℕ → Bool → Bool
check_version v old_vers locked_by_us = v == bit_or old_vers (if locked_by_us then 1 else 0)

-- `set_version` with a commit id, on a word without the lock bit, returns; it keeps the count of
-- holders, and the version becomes the later of the two.
pub set_version_lem :
    (v tid : ℕ)
    → tid % 64 ≡ 0
    → v / 32 % 2 ≡ 0
    → set_version v tid ≡ some (max (unlocked v) tid + num_locks v)
unfolding set_version unlocked
set_version_lem v tid free bit = ground (arith, bit_or-add_of_low 6 tid (v % 32) free)

-- Two commits may install their versions in either order: the word is the same.
pub set_version_comm :
    (v a b : ℕ) {va vb : ℕ}
    → a % 64 ≡ 0
    → b % 64 ≡ 0
    → v / 32 % 2 ≡ 0
    → set_version v a ≡ some va
    → set_version v b ≡ some vb
    → set_version va b ≡ set_version vb a
unfolding unlocked
set_version_comm v a b {va} {vb} fa fb bit ea eb = ground (
  arith,
  set_version_lem v a fa bit,
  set_version_lem v b fb bit,
  set_version_lem va b fb,
  set_version_lem vb a fa,
)

-- With other threads in between: if the version has only grown since the word was read, a round that
-- ends keeps the count of holders of that moment, and leaves the later of the two versions.
pub set_version_round_lem :
    (v cur tid w : ℕ)
    → tid % 64 ≡ 0
    → v / 32 % 2 ≡ 0
    → set_version_round v cur tid ≡ Round.done w
    → unlocked cur ≤ unlocked v
    → (num_locks w ≡ num_locks v) × (unlocked w ≡ max (unlocked v) tid)
unfolding set_version_round unlocked
set_version_round_lem v cur tid w free bit e same =
    ground (arith, bit_or-add_of_low 6 tid (cur % 32) free)

-- A reader's version stays valid while nobody holds the word, or the reader alone does.
pub check_version_holders :
    (v old : ℕ)
    → num_locks old ≡ 0
    → (by_us : Bool) → check_version v old by_us ≡ (v == (if by_us then old + 1 else old))
unfolding check_version
check_version_holders v old free true = rw (bit_or-add_of_low 5 old 1 free (omega arith))
check_version_holders v old free false =
    rw (bit_or-add_of_low 5 old 0 free (omega arith)) (ground arith)
