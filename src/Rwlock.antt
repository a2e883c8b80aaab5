-- ===== src/Rwlock.antt =====
-- rwlock.hh: a 32-bit word that counts readers, or has its top bit set for a writer. A round of a spinning
-- loop swaps the word `value` if it is still the word `v` that was read before.
pub mod Holders
use sto_layout.Base.{
  ℕ, zero, ◌+◌, ◌-◌, ◌%◌, ◌^◌, Bool, true, false, not, ◌&&◌, ◌==◌, leb, if◌then◌else◌,
}
use sto_layout.Tid.{bool_cmpxchg}

abbrev pub write_bit : ℕ
write_bit = 2 ^ 31

-- uint32_t
abbrev pub u32 : ℕ → ℕ
u32 n = n % 2 ^ 32

unfoldable pub read_lock_round : ℕ → ℕ → ℕ × Bool
read_lock_round value v =
    if leb write_bit v then (value, false) else bool_cmpxchg value v (u32 (v + 1))

unfoldable pub read_unlock : ℕ → ℕ
read_unlock value = u32 (value + 2 ^ 32 - 1)

unfoldable pub write_lock_round : ℕ → ℕ → ℕ × Bool
write_lock_round value v = if v == 0 then bool_cmpxchg value v write_bit else (value, false)

unfoldable pub write_unlock : ℕ → ℕ
write_unlock value = 0
