-- ===== src/Array/Words.antt =====
-- What the operations of an element do to its version number, its lock field and its value.
use sto_layout.Base.{
  ℕ, zero, suc, ◌||◌, ◌+◌, ◌/◌, ◌%◌, ◌<◌, ◌≡◌, refl, ◌⊎◌, Bool, true, false, some, arith,
  Bool-cases, inl, inr,
}
use sto_layout.Base.Bits.{bit_or-zero}
use sto_layout.Tid
use sto_layout.Tid.{is_locked, is_locked_here, is_locked_elsewhere, unlocked}
use sto_layout.Tid.Laws.{owner_mark, owned_word, try_lock-busy}
use sto_layout.Transaction.Version.{try_lock, try_lock_from}
use sto_layout.Array.{Elem, lock_elem, install_elem, unlock_elem}

abbrev pub field : Elem → ℕ
field e = e.vers % 64

-- The version without the lock field, as a number.
abbrev pub number : Elem → ℕ
number e = e.vers / 64

-- The lock field is clear, or it has the lock bit.
abbrev pub Tidy : Elem → Type 0
Tidy e = (field e ≡ 0) ⊎ (is_locked e.vers ≡ true)

-- A lock that is granted.
pub record Locks (e : Elem) (t : ℕ) (e' : Elem) : Type 0 where
  pub free : field e ≡ 0
  pub mine : field e' ≡ 32 + t
  pub same_number : number e' ≡ number e
  pub same_value : e'.value ≡ e.value

try_lock_word : (v t : ℕ) → v % 64 ≡ 0 → t < 32 → (Tid.try_lock v t).0 ≡ v + 32 + t
unfolding Tid.try_lock Tid.try_lock_swap
try_lock_word v t free lt = ground (arith, owned_word v t free lt)

try_lock_from-same :
    (v here : ℕ) (has_read : Bool) (left n : ℕ)
    → let r = try_lock_from (λ _. v) here has_read left n in
      (r.1 ≡ (Tid.try_lock v here).0) × (r.2 ≡ (Tid.try_lock v here).1)
unfolding try_lock_from
try_lock_from-same v here has_read zero n = (refl, refl)
try_lock_from-same v here has_read (suc left) n =
    elim (Bool-cases ((Tid.try_lock v here).1 || has_read)) [
      | inl last ↦ rw last (refl, refl)
      | inr again ↦ rw again (try_lock_from-same v here has_read left (n + 1))
    ]

-- With no other thread at the word, all attempts are as the first.
pub lock_elem_lem :
    (e : Elem) (t : ℕ) (has_read : Bool)
    → ((lock_elem e t has_read).0.vers ≡ (Tid.try_lock e.vers t).0)
      × ((lock_elem e t has_read).0.value ≡ e.value)
      × ((lock_elem e t has_read).1 ≡ (Tid.try_lock e.vers t).1)
unfolding lock_elem try_lock
lock_elem_lem e t has_read =
    let same = try_lock_from-same e.vers t has_read 7 0 in (same.0, refl, same.1)

pub lock_elem-Locks :
    (e : Elem) (t : ℕ) (has_read : Bool)
    → t < 32
    → Tidy e
    → (lock_elem e t has_read).1 ≡ true
    → Locks e t (lock_elem e t has_read).0
lock_elem-Locks e t has_read lt tidy got =
    let same = lock_elem_lem e t has_read in
    elim tidy [
      | inl free ↦
          let word : (Tid.try_lock e.vers t).0 ≡ e.vers + 32 + t = try_lock_word e.vers t free lt in
          record {
            free = free;
            mine = omega (arith, same.0, word, free, lt);
            same_number = omega (arith, same.0, word, free, lt);
            same_value = same.1;
          }
      | inr taken ↦ absurd (ground (arith, same.2, try_lock-busy e.vers t taken, got))
    ]

-- A failed attempt changes nothing.
pub lock_elem-refused :
    (e : Elem) (t : ℕ) (has_read : Bool)
    → (lock_elem e t has_read).1 ≡ false
    → (lock_elem e t has_read).0.vers ≡ e.vers
unfolding Tid.try_lock Tid.try_lock_swap
lock_elem-refused e t has_read off = ground (arith, lock_elem_lem e t has_read, off)

-- An installation: it succeeds exactly for the owner.
pub record Installs (e : Elem) (id x t : ℕ) (e' : Elem) : Type 0 where
  pub mine : field e ≡ 32 + t
  pub word : e'.vers ≡ id
  pub val : e'.value ≡ x

pub install_elem-Installs :
    (e : Elem) (id x t : ℕ) {e' : Elem}
    → t < 32
    → id % 64 ≡ 0
    → install_elem e id x t ≡ some e'
    → Installs e id x t e'
unfolding install_elem Tid.set_version_unlock is_locked_here is_locked
install_elem-Installs e id x t {e'} lt free got = record {
  mine = ground (arith, got, owner_mark t lt);
  word = ground (arith, got, bit_or-zero id, free);
  val = ground (arith, got);
}

pub record Unlocks (e : Elem) (t : ℕ) (e' : Elem) : Type 0 where
  pub mine : field e ≡ 32 + t
  pub free : field e' ≡ 0
  pub same_number : number e' ≡ number e
  pub same_value : e'.value ≡ e.value

pub unlock_elem-Unlocks :
    (e : Elem) (t : ℕ) {e' : Elem} → t < 32 → unlock_elem e t ≡ some e' → Unlocks e t e'
unfolding unlock_elem Tid.unlock is_locked_here unlocked
unlock_elem-Unlocks e t {e'} lt got = record {
  mine = ground (arith, got, owner_mark t lt);
  free = ground (arith, got);
  same_number = ground (arith, got);
  same_value = ground (arith, got);
}
