-- ===== src/Tid/Rw.antt =====
-- Interface.hh, `TransactionTid::lock_read` and its companions: the word as a readers-writer lock, with
-- the owner's field as a count of readers. The loops are modelled a round at a time.
use sto_layout.Base.{
  ℕ, ◌+◌, ◌-◌, ◌*◌, ◌/◌, ◌%◌, ◌^◌, ◌<◌, ◌≡◌, bit_or, Bool, true, false, not, ◌&&◌, Option, none,
  some, ◌==◌, ltb, if◌then◌else◌, arith,
}
use sto_layout.Base.Bits.{bit_or-add_of_low}
use sto_layout.Tid.{lock_bit, increment_value, u64, has_lock_bit, bool_cmpxchg, is_locked}

-- The count of readers, `v & threadid_mask`.
abbrev pub readers : ℕ → ℕ
readers v = v % 32

-- One round of the loop of `lock_read`: the word was read as `vv` and is `v` at the swap.
unfoldable pub lock_read_round : ℕ → ℕ → ℕ × Bool
lock_read_round v vv =
    if not (has_lock_bit vv) then bool_cmpxchg v vv (u64 (vv + 1)) else (v, false)

unfoldable pub lock_write_round : ℕ → ℕ → ℕ × Bool
lock_write_round v vv =
    if readers vv == 0 && not (has_lock_bit vv)
    then bool_cmpxchg v vv (bit_or vv lock_bit)
    else (v, false)

unfoldable pub inc_write_version : ℕ → Option ℕ
unfolding is_locked
inc_write_version v = if is_locked v then some (u64 (v + increment_value)) else none

-- `__sync_fetch_and_add(&v, -1)`, then the assertion on the old value.
unfoldable pub unlock_read : ℕ → Option ℕ
unlock_read v = if ltb 0 v then some (u64 (v + 2 ^ 64 - 1)) else none

unfoldable pub unlock_write : ℕ → ℕ
unlock_write v = v - v / 32 % 2 * 32

-- With fewer than 31 readers, a round of `lock_read` succeeds exactly if the lock bit is clear and the word
-- has not changed since it was read; success adds one reader and changes nothing above the count, and
-- failure leaves the word as it was.
pub lock_read_round_lem :
    (v vv : ℕ)
    → v < 2 ^ 64
    → readers v < 31
    → let r = lock_read_round v vv in
      (r.1 ≡ (not (has_lock_bit vv) && (v == vv)))
      × (readers r.0 ≡ readers v + (if r.1 then 1 else 0))
      × (r.0 / 32 ≡ v / 32)
unfolding lock_read_round
lock_read_round_lem v vv h few = ground (arith, few)

-- A round of `lock_write` succeeds exactly if there are no readers and no writer, and the word has not
-- changed; success sets the lock bit alone.
pub lock_write_round_lem :
    (v vv : ℕ)
    → let r = lock_write_round v vv in
      (r.1 ≡ ((v % 64 == 0) && (v == vv))) × (r.0 ≡ (if r.1 then v + 32 else v))
unfolding lock_write_round
lock_write_round_lem v vv = ground (arith, bit_or-add_of_low 6 vv lock_bit)

-- Unlocking undoes locking, for readers below the bound and for the writer.
pub unlock-lock_round :
    (v : ℕ)
    → v < 2 ^ 64
    → (has_lock_bit v ≡ false → readers v < 31 → unlock_read (lock_read_round v v).0 ≡ some v)
      × (v % 64 ≡ 0 → unlock_write (lock_write_round v v).0 ≡ v)
unfolding lock_read_round lock_write_round unlock_read unlock_write
unlock-lock_round v h =
    (λ free few. ground arith, λ free. ground (arith, bit_or-add_of_low 6 v lock_bit free))

-- The count has room for 31 readers: with 31 of them in, one more `lock_read` carries into the lock bit,
-- and the word then says that there is a writer and no reader.
pub lock_read_overflow :
    (v : ℕ)
    → v < 2 ^ 64
    → has_lock_bit v ≡ false
    → readers v ≡ 31
    → let r = lock_read_round v v in (r.1 ≡ true) × (is_locked r.0 ≡ true) × (readers r.0 ≡ 0)
unfolding lock_read_round is_locked
lock_read_overflow v h free full = ground arith
