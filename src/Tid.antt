-- ===== src/Tid.antt =====
-- Interface.hh, `TransactionTid`: the 64-bit word that is both version number and lock.
--
-- From the low end: five bits for the owner's thread id (or a count of readers), the lock bit, the
-- nonopaque bit, a user bit, two free bits, and from bit 10 the version number. `v & mask` at a
-- mask of ones is `%`, at its complement it is what `%` leaves out, and `|` is `bit_or`. A failed
-- `assert` is `none`. A compare-and-swap takes the word at its own moment, `v`, and the word that the
-- thread read before, `vv`. The fences order memory accesses and have no counterpart here.
pub mod Laws
pub mod Rw
pub mod Commutative
use sto_layout.Base.{
  ℕ, ◌+◌, ◌-◌, ◌*◌, ◌/◌, ◌%◌, ◌^◌, bit_or, Bool, true, false, not, ◌&&◌, ◌||◌, Option, none, some,
  ◌==◌, ltb, if◌then◌else◌,
}

abbrev pub lock_bit : ℕ
lock_bit = 0x20

abbrev pub nonopaque_bit : ℕ
nonopaque_bit = 0x40

abbrev pub increment_value : ℕ
increment_value = 0x400

-- uint64_t arithmetic
abbrev pub u64 : ℕ → ℕ
u64 n = n % 2 ^ 64

-- `v & (lock_bit | threadid_mask)`
abbrev pub lock_field : ℕ → ℕ
lock_field v = v % 64

-- `v & lock_bit`, as a truth value
abbrev pub has_lock_bit : ℕ → Bool
has_lock_bit v = v / 32 % 2 == 1

abbrev pub has_nonopaque_bit : ℕ → Bool
has_nonopaque_bit v = v / 64 % 2 == 1

unfoldable pub is_locked : ℕ → Bool
is_locked v = has_lock_bit v

unfoldable pub is_locked_here : ℕ → ℕ → Bool
is_locked_here v here = lock_field v == bit_or lock_bit here

unfoldable pub is_locked_elsewhere : ℕ → ℕ → Bool
is_locked_elsewhere v here = let m = lock_field v in not (m == 0) && not (m == bit_or lock_bit here)

-- The builtin compare-and-swap: the word after it, and whether it took place.
abbrev pub bool_cmpxchg : ℕ → ℕ → ℕ → ℕ × Bool
bool_cmpxchg v expected desired = if v == expected then (desired, true) else (v, false)

-- The swap of `try_lock`, for a word that was read as `vv` before. `vv & ~lock_bit` is `vv` less its
-- lock bit.
unfoldable pub try_lock_swap : ℕ → ℕ → ℕ → ℕ × Bool
try_lock_swap v vv here = bool_cmpxchg v (vv - vv / 32 % 2 * 32) (bit_or (bit_or vv lock_bit) here)

-- With no other thread between the read and the swap.
unfoldable pub try_lock : ℕ → ℕ → ℕ × Bool
unfolding try_lock_swap
try_lock v here = try_lock_swap v v here

unfoldable pub unlocked : ℕ → ℕ
unlocked v = v - v % 64

unfoldable pub unlock : ℕ → ℕ → Option ℕ
unfolding is_locked_here unlocked
unlock v here = if is_locked_here v here then some (unlocked v) else none

unfoldable pub set_version : ℕ → ℕ → ℕ → Option ℕ
unfolding is_locked_here
set_version v new_v here =
    if is_locked_here v here && lock_field new_v == 0
    then some (bit_or new_v (bit_or lock_bit here))
    else none

unfoldable pub set_version_locked : ℕ → ℕ → ℕ → Option ℕ
unfolding is_locked_here
set_version_locked v new_v here =
    if is_locked_here v here && is_locked_here new_v here then some new_v else none

unfoldable pub set_version_unlock : ℕ → ℕ → ℕ → Option ℕ
unfolding is_locked_here is_locked
set_version_unlock v new_v here =
    if is_locked_here v here && (not (is_locked new_v) || is_locked_here new_v here)
    then some (new_v - new_v % 64)
    else none

unfoldable pub set_nonopaque : ℕ → ℕ
set_nonopaque v = bit_or v nonopaque_bit

unfoldable pub next_nonopaque_version : ℕ → ℕ
next_nonopaque_version v = bit_or (u64 (v + increment_value)) nonopaque_bit

-- `& ~(increment_value - 1)` clears the ten flag bits.
unfoldable pub next_unflagged_nonopaque_version : ℕ → ℕ
next_unflagged_nonopaque_version v =
    let n = u64 (v + increment_value) in bit_or (n - n % increment_value) nonopaque_bit

unfoldable pub inc_nonopaque_version : ℕ → ℕ → Option ℕ
unfolding is_locked_here
inc_nonopaque_version v here =
    if is_locked_here v here then some (bit_or (u64 (v + increment_value)) nonopaque_bit) else none

unfoldable pub check_version : ℕ → ℕ → ℕ → Option Bool
unfolding is_locked_elsewhere
check_version cur_vers old_vers here =
    if is_locked_elsewhere old_vers here
    then none
    else some (cur_vers == old_vers || cur_vers == bit_or (bit_or old_vers lock_bit) here)

-- `signed_type delta = start_tid - v` is positive when the wrapped difference is below 2 ^ 63 and
-- not 0; `v & (lock_bit | nonopaque_bit)` is 0 when neither bit is set.
unfoldable pub try_check_opacity : ℕ → ℕ → Bool
try_check_opacity start_tid v =
    let delta = u64 (start_tid + 2 ^ 64 - v) in
    not (delta == 0) && ltb delta (2 ^ 63) && not (has_lock_bit v || has_nonopaque_bit v)
