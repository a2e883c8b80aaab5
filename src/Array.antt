-- ===== src/Array.antt =====
-- TArray.hh and TBox.hh over the opaque wrapper of TWrapped.hh: elements with a version and a value.
--
-- An answer of none is a failed assertion. A `TBox` is one element, with key 0.
pub mod Words
pub mod Owners
pub mod Contents
use sto_layout.Base.{ℕ, Bool, true, false, bit_or, Option, none, some}
use sto_layout.Tid
use sto_layout.Transaction.Version.{try_lock}

-- `elem`, and the two fields of a `TBox`.
pub record Elem : Type 0 where
  pub vers : ℕ
  pub value : ℕ

-- `lock`, in thread `here`, with no other thread at the word meanwhile: every attempt finds the same word.
unfoldable pub lock_elem : Elem → ℕ → Bool → Elem × Bool
unfolding try_lock
lock_elem e here has_read =
    let r = try_lock (λ _. e.vers) here has_read in (record e { vers = r.1 }, r.2)

-- `check`, of the version that was read.
unfoldable pub check_elem : Elem → ℕ → ℕ → Option Bool
unfolding Tid.check_version
check_elem e old here = Tid.check_version e.vers old here

-- `install` of a value under a commit id.
unfoldable pub install_elem : Elem → ℕ → ℕ → ℕ → Option Elem
unfolding Tid.set_version_unlock
install_elem e id x here = elim (Tid.set_version_unlock e.vers (bit_or id 0) here) [
  | none ↦ none
  | some v ↦ some (record { vers = v; value = x })
]

unfoldable pub unlock_elem : Elem → ℕ → Option Elem
unfolding Tid.unlock
unlock_elem e here = elim (Tid.unlock e.vers here) [
  | none ↦ none
  | some v ↦ some (record e { vers = v })
]
