-- ===== src/Tid/Laws.antt =====
-- What locking, unlocking and version checks do to a version word.
use sto_layout.Base.{
  ℕ, ◌+◌, ◌-◌, ◌*◌, ◌/◌, ◌%◌, ◌^◌, ◌<◌, ◌≡◌, refl, ◌≢◌, ◌↔◌, ◌⊎◌, bit_or, Bool, true, false,
  if◌then◌else◌, none, some, arith,
}
use sto_layout.Base.Bits.{bit_or-add_of_low, bit_or-split, bit_or_step, bit_or-zero}
use sto_layout.Tid.{
  lock_bit, nonopaque_bit, increment_value, u64, lock_field, is_locked, is_locked_here,
  is_locked_elsewhere, try_lock, unlock, unlocked, set_version_unlock, set_nonopaque,
  next_nonopaque_version, next_unflagged_nonopaque_version, check_version, try_check_opacity,
  has_lock_bit, has_nonopaque_bit,
}

-- The lock field of a word that thread `here` has locked.
pub owner_mark : (here : ℕ) → here < 32 → bit_or lock_bit here ≡ 32 + here
owner_mark here h = bit_or-add_of_low 5 lock_bit here refl h

-- `v | lock_bit | here` for a word with a clear lock field.
pub owned_word :
    (v here : ℕ) → v % 64 ≡ 0 → here < 32 → bit_or (bit_or v lock_bit) here ≡ v + 32 + here
owned_word v here free h =
    rw (bit_or-add_of_low 6 v lock_bit free (omega arith))
      (bit_or-add_of_low 5 (v + 32) here (omega arith) h)

-- What a call of `try_lock` by thread `here` does to a word.
pub record Acquires (v here : ℕ) (r : ℕ × Bool) : Type 0 where
  pub taken : r.1 ≡ true
  pub mine : is_locked_here r.0 here ≡ true
  pub others : (t : ℕ) → t < 32 → t ≢ here → is_locked_elsewhere r.0 t ≡ true
  pub version : unlocked r.0 ≡ unlocked v

-- `try_lock` on a word with a clear lock field takes the lock: the caller owns it, every other thread
-- sees it as locked elsewhere, and the version number stays.
pub try_lock-Acquires :
    (v here : ℕ) → lock_field v ≡ 0 → here < 32 → Acquires v here (try_lock v here)
unfolding try_lock is_locked_here is_locked_elsewhere unlocked
try_lock-Acquires v here free h = record {
  taken = ground (arith, owned_word v here free h);
  mine = ground (arith, owned_word v here free h, owner_mark here h);
  others = λ t lt ne. ground (arith, owned_word v here free h, owner_mark t lt);
  version = ground (arith, owned_word v here free h);
}

-- `try_lock` on a word that any thread has locked fails, and leaves the word as it was.
pub try_lock-busy : (v here : ℕ) → is_locked v ≡ true → try_lock v here ≡ (v, false)
unfolding try_lock is_locked
try_lock-busy v here h = ground arith

-- `unlock` undoes `try_lock`.
pub unlock-try_lock :
    (v here : ℕ) → lock_field v ≡ 0 → here < 32 → unlock (try_lock v here).0 here ≡ some v
unfolding try_lock unlock
unlock-try_lock v here free h = ground (arith, owned_word v here free h, owner_mark here h)

-- `check_version` on a version read with a clear lock field accepts exactly the same version, free or
-- locked by the caller.
pub check_version_lem :
    (cur old here : ℕ)
    → lock_field old ≡ 0
    → here < 32
    → (check_version cur old here ≡ some true)
      ↔ ((unlocked cur ≡ old) × ((lock_field cur ≡ 0) ⊎ (is_locked_here cur here ≡ true)))
unfolding check_version unlocked is_locked_here
check_version_lem cur old here free h = (
  λ e. ground (arith, owned_word old here free h, owner_mark here h),
  λ r. ground (arith, owned_word old here free h, owner_mark here h),
)

-- `set_version_unlock` with a commit id, by the owner, leaves the word at that id with a clear lock
-- field; by anyone else its assertion fails.
pub set_version_unlock_lem :
    (v tid here : ℕ)
    → lock_field tid ≡ 0
    → here < 32
    → set_version_unlock v tid here ≡ (if is_locked_here v here then some tid else none)
unfolding set_version_unlock
set_version_unlock_lem v tid here free h = ground arith

-- A signed comparison: with both below 2 ^ 63, the test passes exactly for an earlier version with
-- neither the lock bit nor the nonopaque bit.
pub try_check_opacity_lem :
    (start v : ℕ)
    → start < 2 ^ 63
    → v < 2 ^ 63
    → (try_check_opacity start v ≡ true)
      ↔ ((v < start) × (has_lock_bit v ≡ false) × (has_nonopaque_bit v ≡ false))
unfolding try_check_opacity
try_check_opacity_lem start v hs hv = ground arith

pub or-nonopaque_bit : (v : ℕ) → bit_or v nonopaque_bit ≡ v / 128 * 128 + 64 + v % 64
or-nonopaque_bit v =
    rw (bit_or-split 6 v nonopaque_bit, bit_or_step (v / 2 ^ 6) 1, bit_or-zero, bit_or-zero)
      (omega arith)

-- Setting the nonopaque bit sets it and changes no other.
pub set_nonopaque_lem :
    (v : ℕ)
    → (has_nonopaque_bit (set_nonopaque v) ≡ true)
      × (set_nonopaque v / 128 ≡ v / 128)
      × (set_nonopaque v % 64 ≡ v % 64)
unfolding set_nonopaque
set_nonopaque_lem v = rw (or-nonopaque_bit v) (ground arith, omega arith, omega arith)

-- The next nonopaque version never passes the quick opacity check, keeps the lock field, and its
-- version number is the next one, modulo 2 ^ 54.
pub next_nonopaque_version_lem :
    (start v : ℕ)
    → v < 2 ^ 64
    → let n = next_nonopaque_version v in
      (try_check_opacity start n ≡ false)
      × (lock_field n ≡ lock_field v)
      × (n / increment_value ≡ (v / increment_value + 1) % 2 ^ 54)
unfolding next_nonopaque_version try_check_opacity
next_nonopaque_version_lem start v h =
    rw (or-nonopaque_bit (u64 (v + increment_value))) (ground arith, omega arith, omega arith)

-- The unflagged variant moves the version number on in the same way and clears every flag below it
-- but the nonopaque bit, the lock field among them.
pub next_unflagged_nonopaque_version_lem :
    (v : ℕ)
    → v < 2 ^ 64
    → next_unflagged_nonopaque_version v
      ≡ (v / increment_value + 1) % 2 ^ 54 * increment_value + nonopaque_bit
unfolding next_unflagged_nonopaque_version
next_unflagged_nonopaque_version_lem v h =
    let n = u64 (v + increment_value) in
    rw (or-nonopaque_bit (n - n % increment_value)) (omega arith)

-- A commit is seen: after the owner has installed a new version, no thread validates the old one.
pub check_version-set_version_unlock :
    (v tid old here t new_v : ℕ)
    → lock_field tid ≡ 0
    → lock_field old ≡ 0
    → tid ≢ old
    → here < 32
    → t < 32
    → set_version_unlock v tid here ≡ some new_v
    → check_version new_v old t ≡ some false
unfolding set_version_unlock check_version
check_version-set_version_unlock v tid old here t new_v ft fo ne h ht e =
    ground (arith, owned_word old t fo ht)
