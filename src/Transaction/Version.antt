-- ===== src/Transaction/Version.antt =====
-- Transaction.hh: `try_lock`, `commit_tid` and the installation of versions. The global `_TID` is state that
-- goes in and comes out.
pub mod Bounds
use sto_layout.Base.{
  ℕ, zero, suc, ◌+◌, ◌-◌, ◌^◌, Bool, true, false, ◌==◌, ◌||◌, if◌then◌else◌, Option, none, some,
  bit_or,
}
use sto_layout.Tid
use sto_layout.Tid.{u64, increment_value, next_unflagged_nonopaque_version}
use sto_layout.Transaction.{
  TransItem, clear_needs_unlock, State, committing, committing_locked, Transaction, is_committing,
}

-- `1 << STO_SPIN_BOUND_WRITE`
abbrev pub spin_bound : ℕ
spin_bound = 8

-- `try_lock` with `left + 1` attempts to go: `words n` is the word that attempt `n` finds. The answer is the
-- number of the last attempt, the word after it, and whether it took the lock.
unfoldable pub try_lock_from : (ℕ → ℕ) → ℕ → Bool → ℕ → ℕ → ℕ × ℕ × Bool
unfolding Tid.try_lock
try_lock_from words here has_read zero n = let r = Tid.try_lock (words n) here in (n, r.0, r.1)
try_lock_from words here has_read (suc left) n =
    let r = Tid.try_lock (words n) here in
    let rest = try_lock_from words here has_read left (n + 1) in
    if r.1 || has_read then (n, r.0, r.1) else rest

unfoldable pub try_lock : (ℕ → ℕ) → ℕ → Bool → ℕ × ℕ × Bool
unfolding try_lock_from
try_lock words here has_read = try_lock_from words here has_read (spin_bound - 1) 0

-- `commit_tid`: the id, the transaction, and `_TID`.
unfoldable pub commit_tid : Transaction → ℕ → Option ((ℕ × Transaction) × ℕ)
commit_tid t tid =
    if is_committing t.state
    then some (
        if t.commit_tid == 0
        then ((tid, record t { commit_tid = tid }), u64 (tid + increment_value))
        else ((t.commit_tid, t), tid))
    else none

-- `set_version_unlock` of a `TVersion` and of a `TNonopaqueVersion`: the word and the item.
unfoldable pub set_version_unlock : ℕ → ℕ → ℕ → ℕ → TransItem → Option (ℕ × TransItem)
unfolding Tid.set_version_unlock
set_version_unlock vers id flags here it =
    elim (Tid.set_version_unlock vers (bit_or id flags) here) [
      | none ↦ none
      | some v ↦ some (v, clear_needs_unlock it)
    ]

unfoldable pub nonopaque_version : Transaction → ℕ → ℕ
unfolding next_unflagged_nonopaque_version
nonopaque_version t vers =
    if t.commit_tid == 0 then next_unflagged_nonopaque_version vers else t.commit_tid

unfoldable pub set_version_unlock_nonopaque :
    Transaction → ℕ → ℕ → TransItem → Option (ℕ × TransItem)
unfolding nonopaque_version set_version_unlock
set_version_unlock_nonopaque t vers flags it =
    if is_committing t.state
    then set_version_unlock vers (nonopaque_version t vers) flags t.threadid it
    else none
