-- ===== src/Transaction/Proxy.antt =====
-- Transaction.hh, `TransProxy`: reads, writes, predicates and stashes of the item at an index. An answer of
-- none is a failed assertion, or an index at which there is no item.
pub mod Observe
use sto_layout.Base.{
  ℕ, ◌≡◌, Bool, true, false, not, ◌&&◌, ◌||◌, ◌==◌, ltb, if◌then◌else◌, Option, none, some, List,
  get_elem?, set,
}
use sto_layout.Tid.{is_locked_elsewhere}
use sto_layout.Tid.Commutative
use sto_layout.Transaction.{TransItem, Transaction, Objects}
use sto_layout.Transaction.Opacity.{Checked, abort, check_opacity}

abbrev pub item_at : Transaction → ℕ → Option TransItem
item_at t i = get_elem? t.tset i

abbrev pub put_item : Transaction → ℕ → TransItem → Transaction
put_item t i it = record t { tset = set t.tset i it }

-- The read bit and the data, unless the item has a read already.
abbrev pub with_read : TransItem → ℕ → TransItem
with_read it rdata = if it.has_read then it else record it { has_read = true; rdata = rdata }

unfoldable pub add_read : Transaction → ℕ → ℕ → Option Transaction
add_read t i rdata = elim (item_at t i) [
  | none ↦ none
  | some it ↦
      let u = record (put_item t i (with_read it rdata)) {
        any_nonopaque = not it.has_read || t.any_nonopaque;
      } in
      if it.has_stash then none else some u
]

-- `update_read`: a read of the old data becomes one of the new data.
unfoldable pub update_read : Transaction → ℕ → ℕ → ℕ → Option Transaction
update_read t i old_rdata new_rdata = elim (item_at t i) [
  | none ↦ none
  | some it ↦ some (
      if it.has_read && (it.rdata == old_rdata)
      then put_item t i (record it { rdata = new_rdata })
      else t)
]

unfoldable pub set_predicate : Transaction → ℕ → ℕ → Option Transaction
set_predicate t i pdata = elim (item_at t i) [
  | none ↦ none
  | some it ↦
      if it.has_read
      then none
      else some (put_item t i (record it { has_predicate = true; rdata = pdata }))
]

unfoldable pub add_write : Transaction → ℕ → ℕ → Option Transaction
add_write t i wdata = elim (item_at t i) [
  | none ↦ none
  | some it ↦
      let u = put_item t i (record it { has_write = true; wdata = wdata }) in
      some (if it.has_write then u else record u { any_writes = true })
]

unfoldable pub set_stash : Transaction → ℕ → ℕ → Option Transaction
set_stash t i sdata = elim (item_at t i) [
  | none ↦ none
  | some it ↦
      if it.has_read
      then none
      else some (put_item t i (record it { has_stash = true; rdata = sdata }))
]

-- The last lines of `observe`.
unfoldable pub note_read : Transaction → ℕ → ℕ → Bool → Transaction
note_read t i version add = elim (item_at t i) [
  | none ↦ t
  | some it ↦ if add then put_item t i (with_read it version) else t
]

unfoldable pub note_nonopaque_read : Transaction → ℕ → ℕ → Bool → Transaction
unfolding note_read
note_nonopaque_read t i version add = elim (item_at t i) [
  | none ↦ t
  | some it ↦
      let u = note_read t i version add in
      if add && not it.has_read then record u { any_nonopaque = true } else u
]

module _ {S : Type 0} (o : Objects S) where
  unfoldable pub after_check : Option (Checked S) → ℕ → ℕ → Bool → Option (Checked S)
  unfolding note_read
  after_check none i version add = none
  after_check (some (Checked.thrown u s)) i version add = some (Checked.thrown u s)
  after_check (some (Checked.returned u s)) i version add =
      some (Checked.returned (note_read u i version add) s)

  -- `observe` of a `TVersion`, a `TCommutativeVersion` and a `TNonopaqueVersion`.
  unfoldable pub observe : Transaction → ℕ → ℕ → Bool → ℕ → S → Option (Checked S)
  unfolding after_check check_opacity abort is_locked_elsewhere
  observe t i version add tid s = elim (item_at t i) [
    | none ↦ none
    | some it ↦
        if it.has_stash
        then none
        else (if is_locked_elsewhere version t.threadid
            then some (abort o t s)
            else after_check (check_opacity o t (some it) version tid s) i version add)
  ]

  unfoldable pub observe_commutative : Transaction → ℕ → ℕ → Bool → ℕ → S → Option (Checked S)
  unfolding after_check check_opacity abort Commutative.is_locked
  observe_commutative t i version add tid s = elim (item_at t i) [
    | none ↦ none
    | some it ↦
        if it.has_stash
        then none
        else (if Commutative.is_locked version
            then some (abort o t s)
            else after_check (check_opacity o t (some it) version tid s) i version add)
  ]

  unfoldable pub observe_nonopaque : Transaction → ℕ → ℕ → Bool → S → Option (Checked S)
  unfolding note_nonopaque_read abort is_locked_elsewhere
  observe_nonopaque t i version add s = elim (item_at t i) [
    | none ↦ none
    | some it ↦
        if it.has_stash
        then none
        else (if is_locked_elsewhere version t.threadid
            then some (abort o t s)
            else some (Checked.returned (note_nonopaque_read t i version add) s))
  ]
