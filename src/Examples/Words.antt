-- ===== src/Examples/Words.antt =====
-- Version words.
use sto_layout.Base.{
  ◌+◌, ◌/◌, ◌%◌, ◌^◌, ◌<◌, ◌≡◌, ◌↔◌, ◌⊎◌, refl, true, false, not, ◌&&◌, ◌==◌, if◌then◌else◌, some,
  max, arith,
}
use sto_layout.Tid.{
  has_lock_bit, has_nonopaque_bit, increment_value, lock_field, is_locked, is_locked_here, try_lock,
  unlock, unlocked, set_version_unlock, next_nonopaque_version, check_version, try_check_opacity,
}
use sto_layout.Tid.Laws.{
  Acquires, try_lock-Acquires, unlock-try_lock, check_version_lem, check_version-set_version_unlock,
  try_check_opacity_lem, next_nonopaque_version_lem,
}
use sto_layout.Tid.Rw.{
  readers, lock_read_round, lock_write_round, lock_read_round_lem, lock_write_round_lem,
  lock_read_overflow,
}
use sto_layout.Tid.Commutative
use sto_layout.Tid.Commutative.{Round, set_version_round, set_version_round_lem, set_version_comm}

try_lock_runs : try_lock 0x800 3 ≡ (0x823, true)
unfolding try_lock
try_lock_runs = refl

try_lock-Acquires_case : Acquires 0x800 3 (try_lock 0x800 3)
try_lock-Acquires_case = try_lock-Acquires 0x800 3 refl (omega arith)

unlock-try_lock_case : unlock (try_lock 0x800 3).0 3 ≡ some 0x800
unlock-try_lock_case = unlock-try_lock 0x800 3 refl (omega arith)

check_version_lem_example :
    (check_version 0x823 0x800 3 ≡ some true)
    ↔ ((unlocked 0x823 ≡ 0x800) × ((lock_field 0x823 ≡ 0) ⊎ (is_locked_here 0x823 3 ≡ true)))
check_version_lem_example = check_version_lem 0x823 0x800 3 refl (omega arith)

check_version-set_version_unlock_case : check_version 0xc00 0x800 5 ≡ some false
unfolding set_version_unlock
check_version-set_version_unlock_case =
    check_version-set_version_unlock 0x823 0xc00 0x800 3 5 0xc00 refl refl (omega arith)
      (omega arith) (omega arith) refl

try_check_opacity_lem_case :
    (try_check_opacity 0xc00 0x800 ≡ true)
    ↔ ((0x800 < 0xc00) × (has_lock_bit 0x800 ≡ false) × (has_nonopaque_bit 0x800 ≡ false))
try_check_opacity_lem_case = try_check_opacity_lem 0xc00 0x800 (omega arith) (omega arith)

next_nonopaque_version_lem_case :
    (try_check_opacity 0xc00 (next_nonopaque_version 0x800) ≡ false)
    × (lock_field (next_nonopaque_version 0x800) ≡ lock_field 0x800)
    × (next_nonopaque_version 0x800 / increment_value ≡ (0x800 / increment_value + 1) % 2 ^ 54)
next_nonopaque_version_lem_case = next_nonopaque_version_lem 0xc00 0x800 (omega arith)

lock_read_round_lem_case :
    ((lock_read_round 5 5).1 ≡ (not (has_lock_bit 5) && (5 == 5)))
    × (readers (lock_read_round 5 5).0 ≡ readers 5 + (if (lock_read_round 5 5).1 then 1 else 0))
    × ((lock_read_round 5 5).0 / 32 ≡ 5 / 32)
lock_read_round_lem_case = lock_read_round_lem 5 5 (omega arith) (omega arith)

lock_write_round_lem_case :
    ((lock_write_round 0x400 0x400).1 ≡ ((0x400 % 64 == 0) && (0x400 == 0x400)))
    × ((lock_write_round 0x400 0x400).0
        ≡ (if (lock_write_round 0x400 0x400).1 then 0x400 + 32 else 0x400))
lock_write_round_lem_case = lock_write_round_lem 0x400 0x400

lock_read_overflow_example :
    ((lock_read_round 31 31).1 ≡ true)
    × (is_locked (lock_read_round 31 31).0 ≡ true)
    × (readers (lock_read_round 31 31).0 ≡ 0)
lock_read_overflow_example = lock_read_overflow 31 (omega arith) refl refl

set_version_comm_case : Commutative.set_version 0x802 0xc00 ≡ Commutative.set_version 0xc02 0x800
unfolding Commutative.set_version
set_version_comm_case = set_version_comm 0x402 0x800 0xc00 refl refl refl refl refl

set_version_round_lem_case :
    (Commutative.num_locks 0x803 ≡ Commutative.num_locks 0x403)
    × (unlocked 0x803 ≡ max (unlocked 0x403) 0x800)
unfolding set_version_round unlocked
set_version_round_lem_case =
    set_version_round_lem 0x403 0x403 0x800 0x803 refl refl refl (omega arith)
