-- ===== src/Examples/Commits.antt =====
-- Commits over the elements of arrays, and opacity checks over boxes that each have a lock and a value.
use sto_layout.Base.{
  ℕ, ◌+◌, ◌-◌, ◌<◌, ◌≡◌, ◌⊎◌, refl, Bool, true, false, ◌==◌, ◌&&◌, if◌then◌else◌, none, some, inl,
  [], ◌∷◌, All, arith,
}
use sto_layout.Tid
use sto_layout.Tid.{is_locked_elsewhere, try_check_opacity}
use sto_layout.Transaction.{TransItem, new_item, State, in_progress, Transaction, Objects}
use sto_layout.Transaction.Commit.{items_of, lock_loop, try_commit}
use sto_layout.Transaction.Commit.Laws.{IsReady}
use sto_layout.Array.{lock_elem, check_elem, install_elem, unlock_elem}
use sto_layout.Array.Owners.{Store, weight, arrays, held, arrays-LockLaws}
use sto_layout.Array.Contents.{values, write_value, arrays-DataLaws}
use sto_layout.Transaction.Commit.Locks.{try_commit_releases}
use sto_layout.Transaction.Commit.Atomic.{Outcome, wanted, try_commit_atomic, try_commit_validates}
use sto_layout.Transaction.Set
use sto_layout.Transaction.Set.{item, find_item, matches, matches_at}
use sto_layout.Transaction.Set.Find.{IsIndexed, Unique, Tracks, find_item_lem, item-Tracks}
use sto_layout.Transaction.Opacity.{hard_check_opacity}
use sto_layout.Transaction.Opacity.Sound.{hard_check_opacity_sound}
use sto_layout.Transaction.Proxy.{add_write, observe}
use sto_layout.Transaction.Proxy.Observe.{add_write-IsReady, observe_opaque}
use sto_layout.Transaction.Version.{try_lock, commit_tid}
use sto_layout.Transaction.Version.Bounds.{commit_tid_once, try_lock_bounded}

record Boxes : Type 0 where
  locks : ℕ → ℕ → ℕ
  vals : ℕ → ℕ → ℕ

-- Whether the item is the one of object `a` with key `k`, as a number.
abbrev here : TransItem → ℕ → ℕ → ℕ
here it a k = if (it.owner == a) && (it.key == k) then 1 else 0

abbrev boxes : Objects Boxes
boxes = record {
  lock = λ it s.
      if s.locks it.owner it.key == 0
      then (record s { locks = λ a k. s.locks a k + here it a k }, true)
      else (s, false);
  check_predicate = λ it s c. (it, true);
  check = λ it s. s.vals it.owner it.key == it.rdata;
  install =
      λ it s. (it, record s { vals = λ a k. if here it a k == 1 then it.wdata else s.vals a k });
  unlock = λ it s. record s { locks = λ a k. s.locks a k - here it a k };
  cleanup = λ it s c. s;
}

abbrev store : Boxes
store = record { locks = λ a k. 0; vals = λ a k. 7 }

-- A transaction that has read box 1 of object 16, and written box 2.
abbrev two_items : Transaction
two_items = record {
  threadid = 3;
  hash_base = 0;
  first_write = 0;
  state = in_progress;
  any_writes = true;
  any_nonopaque = false;
  may_duplicate_items = false;
  start_tid = 0x800;
  commit_tid = 0;
  tset =
      record (new_item 16 1) { has_read = true; rdata = 7 }
      ∷ record (new_item 16 2) { has_write = true; wdata = 9 }
      ∷ [];
  hashtable = λ _. 0;
}

two_items-IsReady : IsReady two_items
two_items-IsReady = record {
  unlocked = (refl, (refl, tt));
  writes = λ e. absurd (ground (arith, e));
}

-- The elements of arrays, for thread 3 and a commit with the id 0x1000.
abbrev of_thread : Objects Store
of_thread = arrays 3 (omega arith) 0x1000 refl

-- All have the version 0x400 and the value 7.
abbrev elements : Store
elements = λ a k. (record { vers = 0x400; value = 7 }, inl refl)

-- The transaction has read element 1 of array 16 and written element 2.
abbrev two_elements : Transaction
two_elements = record two_items {
  tset =
      record (new_item 16 1) { has_read = true; rdata = 0x400 }
      ∷ record (new_item 16 2) { has_write = true; wdata = 9 }
      ∷ [];
}

two_elements-IsReady : IsReady two_elements
two_elements-IsReady = record {
  unlocked = (refl, (refl, tt));
  writes = λ e. absurd (ground (arith, e));
}

try_commit_releases_example :
    (r : (Transaction × Store) × Bool) × (try_commit of_thread two_elements elements ≡ some r)
    × ((a k : ℕ)
        → held 3 (omega arith) 0x1000 refl r.0.1 a k
          ≡ held 3 (omega arith) 0x1000 refl elements a k)
try_commit_releases_example =
    try_commit_releases (arrays-LockLaws 3 (omega arith) 0x1000 refl) two_elements elements refl
      two_elements-IsReady

try_commit_atomic_example :
    (r : (Transaction × Store) × Bool) × (try_commit of_thread two_elements elements ≡ some r)
    × Outcome
        (write_value 3 (omega arith) 0x1000 refl)
        (values 3 (omega arith) 0x1000 refl)
        two_elements
        elements
        r
try_commit_atomic_example =
    try_commit_atomic (arrays-DataLaws 3 (omega arith) 0x1000 refl) two_elements elements refl
      two_elements-IsReady

-- The commit succeeds: element 2 has the new value and version, and its lock is free.
commit_runs :
    (r : (Transaction × Store) × Bool) × (try_commit of_thread two_elements elements ≡ some r)
    × (r.1 ≡ true)
    × ((r.0.1 16 2).0 ≡ record { vers = 0x1000; value = 9 })
    × ((r.0.1 16 1).0 ≡ record { vers = 0x400; value = 7 })
unfolding try_commit lock_elem check_elem install_elem unlock_elem
commit_runs = (_, refl, refl, refl, refl)

add_write-IsReady_case : (u : Transaction) × (add_write two_items 0 5 ≡ some u) × IsReady u
add_write-IsReady_case =
    add_write-IsReady two_items 0 5 (record (new_item 16 1) { has_read = true; rdata = 7 })
      two_items-IsReady refl

commit_tid_once_case :
    commit_tid (record two_items { state = State.committing; commit_tid = 0x400 }) 0xC00
    ≡ some ((0x400, record two_items { state = State.committing; commit_tid = 0x400 }), 0xC00)
unfolding commit_tid
commit_tid_once_case =
    commit_tid_once (record two_items { state = State.committing })
      (record two_items { state = State.committing; commit_tid = 0x400 }) 0x400 0x400 0x800 0xC00
      (omega arith) refl

try_lock_bounded_case :
    let r = try_lock (λ n. if n == 2 then 0x400 else 0x421) 3 false in
    (r.0 < 8)
    × ((r.1, r.2) ≡ Tid.try_lock (if r.0 == 2 then 0x400 else 0x421) 3)
    × (false ≡ true → r.0 ≡ 0)
    × (r.2 ≡ false
        → false ≡ false
        → (j : ℕ) → j < 8
        → (Tid.try_lock (if j == 2 then 0x400 else 0x421) 3).1 ≡ false)
try_lock_bounded_case = try_lock_bounded (λ n. if n == 2 then 0x400 else 0x421) 3 false

try_commit_validates_example :
    let p = lock_loop of_thread two_elements.tset elements in
    ((a k : ℕ)
      → held 3 (omega arith) 0x1000 refl p.store a k
        ≡ held 3 (omega arith) 0x1000 refl elements a k + wanted weight two_elements.tset a k)
    × All (λ it. it.has_read ≡ true → of_thread.check it p.store ≡ true) (items_of p.entries)
unfolding try_commit lock_elem check_elem install_elem unlock_elem
try_commit_validates_example =
    try_commit_validates (arrays-LockLaws 3 (omega arith) 0x1000 refl) two_elements elements refl
      refl refl refl

-- A set with one item, whose slot is 2.
abbrev one_item : Transaction
one_item = record two_items {
  tset = new_item 16 1 ∷ [];
  any_writes = false;
  hashtable = λ h. if h == 2 then 1 else 0;
}

one_item-IsIndexed : IsIndexed one_item
unfolding Set.hash
one_item-IsIndexed = record {
  slots = (omega arith, tt);
  inside = λ h. ground arith;
  base = omega arith;
  size = omega arith;
}

find_item_lem_case :
    ((i : ℕ) → find_item one_item 16 2 ≡ some i → matches_at 16 2 one_item.tset i ≡ true)
    × (find_item one_item 16 2 ≡ none → All (λ it. matches 16 2 it ≡ false) one_item.tset)
find_item_lem_case = find_item_lem one_item 16 2 one_item-IsIndexed

one_item-Unique : Unique one_item.tset
unfolding Unique
one_item-Unique = (tt, tt)

item-Tracks_example : (r : Transaction × ℕ) × (item one_item 16 2 ≡ some r) × Tracks 16 2 r
item-Tracks_example = item-Tracks one_item 16 2 one_item-IsIndexed one_item-Unique (omega arith)

-- A version that is newer than the start is read, and the earlier read is checked again.
abbrev reader : Transaction
reader = record two_items {
  tset = record (new_item 16 1) { has_read = true; rdata = 7 } ∷ new_item 16 2 ∷ [];
  any_writes = false;
}

abbrev rechecked : Transaction
rechecked = record reader { start_tid = 0x1000 }

hard_check_opacity_sound_example :
    (is_locked_elsewhere 0xC00 3 ≡ false)
    × All (λ x. x.has_read ≡ true → boxes.check x store ≡ true) reader.tset
    × (store ≡ store)
    × (rechecked.state ≡ in_progress)
    × (rechecked.start_tid ≡ 0x1000)
unfolding hard_check_opacity
hard_check_opacity_sound_example =
    hard_check_opacity_sound boxes reader rechecked (some (new_item 16 2)) 0xC00 0x1000 store store
      refl refl refl refl

observe_opaque_example :
    (is_locked_elsewhere 0xC00 3 ≡ false)
    × ((try_check_opacity 0x800 0xC00 ≡ true)
        ⊎ All (λ x. x.has_read ≡ true → boxes.check x store ≡ true) reader.tset)
unfolding observe
observe_opaque_example =
    observe_opaque boxes reader
      (record reader {
        start_tid = 0x1000;
        tset =
            record (new_item 16 1) { has_read = true; rdata = 7 }
            ∷ record (new_item 16 2) { has_read = true; rdata = 0xC00 }
            ∷ [];
      })
      1 0xC00 0x1000 true store store (new_item 16 2) refl refl refl refl refl
