-- ===== src/Transaction/Commit.antt =====
-- Transaction.cc: `try_commit` and `stop`, with `STO_SORT_WRITESET` and `CONSISTENCY_CHECK` off.
--
-- An entry is an item with a mark that says whether its index stands in the write set that the call
-- collects. Loops over the indices of the write set run over the marked entries.
pub mod Laws
pub mod Locks
pub mod Atomic
use sto_layout.Base.{
  ℕ, zero, suc, ◌+◌, ◌≡◌, Bool, true, false, not, ◌&&◌, ◌||◌, if◌then◌else◌, Option, none, some,
  List, [], ◌∷◌, ◌++◌, map, length, drop,
}
use sto_layout.Transaction.{
  TransItem, State, is_in_progress, in_progress, committing, committing_locked, aborted, committed,
  Transaction, Objects, preceding_duplicate_read,
}

pub record Entry : Type 0 where
  pub item : TransItem
  pub in_writeset : Bool

abbrev pub plain : TransItem → Entry
plain it = record { item = it; in_writeset = false }

-- What the first loop of `try_commit` leaves: the items, the store, and whether the loop came to its end.
pub record Phase (S : Type 0) : Type 0 where
  pub entries : List Entry
  pub store : S
  pub ok : Bool

abbrev pub items_of : List Entry → List TransItem
items_of = map (λ e. e.item)

abbrev pub prepend : {S : Type 0} → Entry → Phase S → Phase S
prepend e p = record p { entries = e ∷ p.entries }

-- `first_write_`: the index of the first entry of the write set, or the size if there is none.
unfoldable pub first_write_index : List Entry → ℕ
first_write_index [] = 0
first_write_index (e ∷ es) = let n = first_write_index es in if e.in_writeset then 0 else suc n

-- Whether the write set has an entry.
unfoldable pub any_marked : List Entry → Bool
any_marked [] = false
any_marked (e ∷ es) = e.in_writeset || any_marked es

module _ {S : Type 0} (o : Objects S) where
  -- One item of the first loop: the item, the store, and whether the loop goes on.
  unfoldable pub prepare : TransItem → S → (TransItem × S) × Bool
  prepare it s =
      let locked : S × Bool = if it.has_write then o.lock it s else (s, true) in
      let held = record it { needs_unlock = it.has_write || it.needs_unlock } in
      if not locked.1
      then ((it, locked.0), false)
      else (if not it.has_read && it.has_predicate
          then (let p = o.check_predicate held locked.0 true in ((p.0, locked.0), p.1))
          else ((held, locked.0), true))

  -- The first loop: it collects the write set, locks what it holds, and checks predicates.
  unfoldable pub lock_loop : List TransItem → S → Phase S
  unfolding prepare
  lock_loop [] s = record { entries = []; store = s; ok = true }
  lock_loop (it ∷ its) s =
      let r = prepare it s in
      let e : Entry = record { item = r.0.0; in_writeset = it.has_write } in
      elim (r.1) [
        | true ↦ prepend e (lock_loop its r.0.1)
        | false ↦ record { entries = e ∷ map plain its; store = r.0.1; ok = false }
      ]

  -- The second phase, at the items after `before`: whether every read is still valid.
  unfoldable pub check_loop : Bool → List TransItem → List TransItem → S → Bool
  check_loop may_duplicate before [] s = true
  check_loop may_duplicate before (it ∷ its) s =
      (not it.has_read || o.check it s || (may_duplicate && preceding_duplicate_read before it))
      && check_loop may_duplicate (before ++ (it ∷ [])) its s

  -- The third phase.
  unfoldable pub install_loop : List Entry → S → List Entry × S
  install_loop [] s = ([], s)
  install_loop (e ∷ es) s =
      let r : TransItem × S = if e.in_writeset then o.install e.item s else (e.item, s) in
      let (es', s') = install_loop es r.1 in (record e { item = r.0 } ∷ es', s')

  -- The loops of `stop`, from the last item to the first.
  unfoldable pub unlock_loop : List TransItem → S → S
  unlock_loop [] s = s
  unlock_loop (it ∷ its) s =
      let s' = unlock_loop its s in if it.needs_unlock then o.unlock it s' else s'

  unfoldable pub cleanup_loop : Bool → List TransItem → S → S
  cleanup_loop c [] s = s
  cleanup_loop c (it ∷ its) s =
      let s' = cleanup_loop c its s in if it.has_write then o.cleanup it s' c else s'

  -- The entries of the write set, as items.
  unfoldable pub writeset_items : List Entry → List TransItem
  writeset_items [] = []
  writeset_items (e ∷ es) =
      let its = writeset_items es in if e.in_writeset then e.item ∷ its else its

  -- `stop(true, writeset, nwriteset)`
  unfoldable pub stop_committed : Transaction → List Entry → S → S
  unfolding unlock_loop cleanup_loop writeset_items
  stop_committed t es s =
      if t.any_writes
      then (let its = writeset_items es in cleanup_loop true its (unlock_loop its s))
      else s

  -- `stop(false, nullptr, 0)`, on the items from `first_write_` on.
  unfoldable pub stop_aborted : Transaction → S → S
  unfolding unlock_loop cleanup_loop
  stop_aborted t s =
      let its = drop t.first_write t.tset in
      let unlocked : S = elim (t.state) [ committing_locked ↦ unlock_loop its s | _ ↦ s ] in
      if t.any_writes then cleanup_loop false its unlocked else s

  -- `silent_abort`
  unfoldable pub silent_abort : Transaction → S → Transaction × S
  unfolding stop_aborted
  silent_abort t s =
      if is_in_progress t.state then (record t { state = aborted }, stop_aborted t s) else (t, s)

  -- The abort of a commit that has begun, with the items, the write set and `first_write_` of that moment.
  unfoldable pub commit_abort : Transaction → ℕ → List Entry → S → (Transaction × S) × Bool
  unfolding stop_aborted any_marked
  commit_abort t first es s =
      let t' = record t {
        tset = items_of es;
        first_write = first;
        state = if any_marked es then committing_locked else committing;
      } in
      ((record t' { state = aborted }, stop_aborted t' s), false)

  -- The commit after the first loop.
  unfoldable pub commit_rest : Transaction → Phase S → (Transaction × S) × Bool
  unfolding commit_abort check_loop install_loop stop_committed first_write_index
  commit_rest t p =
      if not (check_loop t.may_duplicate_items [] (items_of p.entries) p.store)
      then commit_abort t (first_write_index p.entries) p.entries p.store
      else (let (es, s) = install_loop p.entries p.store in
          (
            (
              record t {
                tset = items_of es;
                first_write = first_write_index p.entries;
                state = committed;
              },
              stop_committed t es s,
            ),
            true,
          ))

  -- `try_commit`; none is a failed assertion.
  unfoldable pub try_commit : Transaction → S → Option ((Transaction × S) × Bool)
  unfolding commit_abort commit_rest lock_loop stop_committed first_write_index any_marked
  try_commit t s = elim (t.state) [
    | aborted ↦ some ((t, s), false)
    | committed ↦ some ((t, s), true)
    | in_progress ↦
        let p = lock_loop t.tset s in
        let first = if any_marked p.entries then first_write_index p.entries else t.first_write in
        some (
          if not t.any_writes && not t.any_nonopaque
          then ((record t { state = committed }, stop_committed t [] s), true)
          else (if p.ok then commit_rest t p else commit_abort t first p.entries p.store))
    | _ ↦ none
  ]
