-- ===== src/Transaction/Commit/Atomic.antt =====
-- A commit applies all of its writes or none, and applies them to a state in which its reads are valid.
use sto_layout.Base.{
  ℕ, ◌+◌, ◌≡◌, refl, ap, ◌∙◌, Bool, true, false, not, ◌&&◌, ◌||◌, if◌then◌else◌, some, List, [],
  ◌∷◌, ◌++◌, drop, All, arith, Bool-cases, inl, inr,
}
use sto_layout.Transaction.{TransItem, State, in_progress, Transaction, Objects}
use sto_layout.Transaction.Commit.{
  Entry, items_of, prepare, lock_loop, install_loop, check_loop, unlock_loop, cleanup_loop,
  writeset_items, first_write_index, any_marked, stop_aborted, stop_committed, commit_abort,
  commit_rest, try_commit,
}
use sto_layout.Transaction.Commit.Laws.{LockLaws, DataLaws, IsReady}

module _ {D : Type 0} (apply : TransItem → D → D) where
  -- What the writes of a list of items do, in the order of the items.
  unfoldable pub apply_all : List TransItem → D → D
  apply_all [] d = d
  apply_all (it ∷ its) d = apply_all its (if it.has_write then apply it d else d)

  unfoldable apply_marked : List Entry → D → D
  apply_marked [] d = d
  apply_marked (e ∷ es) d = apply_marked es (if e.in_writeset then apply e.item d else d)

  -- How a commit ends: on success the contents are those of before with all writes applied, on failure they
  -- are those of before, and the state says which.
  pub record Outcome {S : Type 0} (data_of : S → D) (t : Transaction) (s : S)
      (r : (Transaction × S) × Bool) : Type 0 where
    pub success : r.1 ≡ true → data_of r.0.1 ≡ apply_all t.tset (data_of s)
    pub failure : r.1 ≡ false → data_of r.0.1 ≡ data_of s
    pub final : r.0.0.state ≡ (if r.1 then State.committed else State.aborted)

module _ {S D : Type 0} {o : Objects S} {data_of : S → D} {apply : TransItem → D → D}
    (laws : DataLaws o data_of apply) where
  open laws use {lock_data, unlock_data, cleanup_data, install_data, apply_predicate, apply_lock}

  prepare-data : (it : TransItem) (s : S) → data_of (prepare o it s).0.1 ≡ data_of s
  unfolding prepare
  prepare-data it s = ground (arith, lock_data it s)

  prepare-apply : (it : TransItem) (s : S) (d : D) → apply (prepare o it s).0.0 d ≡ apply it d
  unfolding prepare
  prepare-apply it s d =
      let held = record it { needs_unlock = it.has_write || it.needs_unlock } in
      let locked : S × Bool = if it.has_write then o.lock it s else (s, true) in
      ground
        (arith, apply_predicate held locked.0 d, apply_lock it (it.has_write || it.needs_unlock) d)

  lock_loop-data : (its : List TransItem) (s : S) → data_of (lock_loop o its s).store ≡ data_of s
  unfolding lock_loop
  lock_loop-data [] s = refl
  lock_loop-data (it ∷ its) s = elim (Bool-cases (prepare o it s).1) [
    | inl on ↦ rw (on, lock_loop) (lock_loop-data its (prepare o it s).0.1 ∙ prepare-data it s)
    | inr off ↦ rw (off, lock_loop) (prepare-data it s)
  ]

  lock_loop-apply :
      (its : List TransItem) (s : S) (d : D)
      → (lock_loop o its s).ok ≡ true
      → apply_marked apply (lock_loop o its s).entries d ≡ apply_all apply its d
  unfolding lock_loop apply_marked apply_all
  lock_loop-apply [] s d ok = refl
  lock_loop-apply (it ∷ its) s d ok = elim (Bool-cases (prepare o it s).1) [
    | inl on ↦
        let ok' : (lock_loop o its (prepare o it s).0.1).ok ≡ true = ground (arith, ok, on) in
        rw (on, lock_loop)
          (ap
              (λ x.
                apply_marked apply (lock_loop o its (prepare o it s).0.1).entries
                  (if it.has_write then x else d))
              (prepare-apply it s d)
            ∙ lock_loop-apply its (prepare o it s).0.1 (if it.has_write then apply it d else d) ok')
    | inr off ↦ ground (arith, ok, off)
  ]

  unlock_loop-data : (its : List TransItem) (s : S) → data_of (unlock_loop o its s) ≡ data_of s
  unfolding unlock_loop
  unlock_loop-data [] s = refl
  unlock_loop-data (it ∷ its) s =
      ground (arith, unlock_loop-data its s, unlock_data it (unlock_loop o its s))

  cleanup_loop-data :
      (c : Bool) (its : List TransItem) (s : S) → data_of (cleanup_loop o c its s) ≡ data_of s
  unfolding cleanup_loop
  cleanup_loop-data c [] s = refl
  cleanup_loop-data c (it ∷ its) s =
      ground (arith, cleanup_loop-data c its s, cleanup_data it (cleanup_loop o c its s) c)

  install_loop-data :
      (es : List Entry) (s : S)
      → data_of (install_loop o es s).1 ≡ apply_marked apply es (data_of s)
  unfolding install_loop apply_marked
  install_loop-data [] s = refl
  install_loop-data (e ∷ es) s = elim (Bool-cases e.in_writeset) [
    | inl on ↦ rw on (
        install_loop-data es (o.install e.item s).1
        ∙ ap (apply_marked apply es) (install_data e.item s))
    | inr off ↦ rw off (install_loop-data es s)
  ]

  commit_abort-data :
      (t : Transaction) (first : ℕ) (es : List Entry) (s : S)
      → data_of (commit_abort o t first es s).0.1 ≡ data_of s
  unfolding commit_abort stop_aborted
  commit_abort-data t first es s = elim (Bool-cases (any_marked es)) [
    | inl on ↦
        let its = drop first (items_of es) in
        rw on (
          ground (arith, unlock_loop-data its s, cleanup_loop-data false its (unlock_loop o its s)))
    | inr off ↦ rw off (ground (arith, cleanup_loop-data false (drop first (items_of es)) s))
  ]

  stop_committed-data :
      (t : Transaction) (es : List Entry) (s : S) → data_of (stop_committed o t es s) ≡ data_of s
  unfolding stop_committed
  stop_committed-data t es s =
      let its = writeset_items o es in
      ground (arith, unlock_loop-data its s, cleanup_loop-data true its (unlock_loop o its s))

  commit_rest-Outcome :
      (t : Transaction) (s : S)
      → let p = lock_loop o t.tset s in p.ok ≡ true → Outcome apply data_of t s (commit_rest o t p)
  unfolding commit_rest commit_abort
  commit_rest-Outcome t s ok =
      let p = lock_loop o t.tset s in
      let r = install_loop o p.entries p.store in
      elim (Bool-cases (check_loop o t.may_duplicate_items [] (items_of p.entries) p.store)) [
        | inl valid ↦ rw valid (record {
          success = λ _. ground (
            arith,
            stop_committed-data t r.0 r.1,
            install_loop-data p.entries p.store,
            lock_loop-data t.tset s,
            lock_loop-apply t.tset s (data_of s) ok,
          );
          failure = λ z. ground arith;
          final = refl;
        })
        | inr stale ↦ rw stale (record {
          success = λ z. ground arith;
          failure = λ _.
              commit_abort-data t (first_write_index p.entries) p.entries p.store
              ∙ lock_loop-data t.tset s;
          final = refl;
        })
      ]

  apply_all-unwritten :
      (its : List TransItem) (d : D)
      → All (λ it. it.has_write ≡ false) its
      → apply_all apply its d ≡ d
  unfolding apply_all
  apply_all-unwritten [] d h = refl
  apply_all-unwritten (it ∷ its) d h = ground (arith, h.0, apply_all-unwritten its d h.1)

-- Over objects that meet `DataLaws`, a commit of a transaction in progress that is ready (`IsReady`) always
-- returns, and it is all or nothing: on success the contents are those of before with every write applied
-- in the order of the items, on failure they are those of before, and the transaction is then committed or
-- aborted.
pub try_commit_atomic :
    {S D : Type 0} {o : Objects S} {data_of : S → D} {apply : TransItem → D → D}
    → DataLaws o data_of apply
    → (t : Transaction) (s : S) → t.state ≡ in_progress
    → IsReady t
    → (r : (Transaction × S) × Bool) × (try_commit o t s ≡ some r) × Outcome apply data_of t s r
unfolding try_commit commit_abort stop_committed
try_commit_atomic {S} {D} {o} {data_of} {apply} laws t s run ready = rw run (
  _,
  refl,
  elim (Bool-cases (not t.any_writes && not t.any_nonopaque)) [
    | inl read_only ↦ rw read_only (record {
      success =
          λ _. ground (arith, read_only, apply_all-unwritten laws t.tset (data_of s), ready.writes);
      failure = λ z. ground arith;
      final = refl;
    })
    | inr full ↦
        let p = lock_loop o t.tset s in
        rw full (elim (Bool-cases p.ok) [
          | inl ok ↦ rw ok (commit_rest-Outcome laws (record t { state = in_progress }) s ok)
          | inr refused ↦ rw refused (record {
            success = λ z. ground arith;
            failure = λ _.
                commit_abort-data laws (record t { state = in_progress })
                  (if any_marked p.entries then first_write_index p.entries else t.first_write)
                  p.entries p.store
                ∙ lock_loop-data laws t.tset s;
            final = refl;
          })
        ])
  ],
)

-- The locks of the items with a write.
unfoldable pub wanted : (TransItem → ℕ → ℕ → ℕ) → List TransItem → ℕ → ℕ → ℕ
wanted weight [] a k = 0
wanted weight (it ∷ its) a k = (if it.has_write then weight it a k else 0) + wanted weight its a k

lock_loop-wanted :
    {S : Type 0} {o : Objects S} {weight : TransItem → ℕ → ℕ → ℕ} {held : S → ℕ → ℕ → ℕ}
    → LockLaws o weight held
    → (its : List TransItem) (s : S) (a k : ℕ) → (lock_loop o its s).ok ≡ true
    → held (lock_loop o its s).store a k ≡ held s a k + wanted weight its a k
unfolding lock_loop wanted prepare
lock_loop-wanted laws [] s a k ok = omega arith
lock_loop-wanted {S} {o} {weight} {held} laws (it ∷ its) s a k ok =
    elim (Bool-cases (prepare o it s).1) [
      | inl on ↦
          let ok' : (lock_loop o its (prepare o it s).0.1).ok ≡ true = ground (arith, ok, on) in
          rw (on, lock_loop)
            (ground (
              arith,
              on,
              laws.taken it s a k,
              lock_loop-wanted laws its (prepare o it s).0.1 a k ok',
            ))
      | inr off ↦ ground (arith, ok, off)
    ]

check_loop_sound :
    {S : Type 0} (o : Objects S) (before its : List TransItem) (s : S)
    → check_loop o false before its s ≡ true
    → All (λ it. it.has_read ≡ true → o.check it s ≡ true) its
unfolding check_loop
check_loop_sound o before [] s h = tt
check_loop_sound o before (it ∷ its) s h = (
  λ read. ground (arith, h, read),
  check_loop_sound o (before ++ (it ∷ [])) its s (ground (arith, h)),
)

-- Over objects that meet `LockLaws`, a commit that succeeds has validated its reads under its locks: at the end of the locking phase the
-- thread holds, beside what it held before, the lock of every item with a write, and in that very store
-- every item with a read passes its check. It holds for a transaction in progress without duplicate items
-- that has a write or a nonopaque read.
pub try_commit_validates :
    {S : Type 0} {o : Objects S} {weight : TransItem → ℕ → ℕ → ℕ} {held : S → ℕ → ℕ → ℕ}
    → LockLaws o weight held
    → (t : Transaction) (s : S) {r : (Transaction × S)} → t.state ≡ in_progress
    → t.may_duplicate_items ≡ false
    → (t.any_writes || t.any_nonopaque) ≡ true
    → try_commit o t s ≡ some (r, true)
    → let p = lock_loop o t.tset s in
      ((a k : ℕ) → held p.store a k ≡ held s a k + wanted weight t.tset a k)
      × All (λ it. it.has_read ≡ true → o.check it p.store ≡ true) (items_of p.entries)
unfolding try_commit commit_rest commit_abort
try_commit_validates {S} {o} {weight} {held} laws t s {r} run single busy done =
    let p = lock_loop o t.tset s in
    let ok : p.ok ≡ true = ground (arith, done, run, busy) in
    let valid : check_loop o false [] (items_of p.entries) p.store ≡ true =
      ground (arith, done, run, busy, single) in
    (
      λ a k. lock_loop-wanted laws t.tset s a k ok,
      check_loop_sound o [] (items_of p.entries) p.store valid,
    )
