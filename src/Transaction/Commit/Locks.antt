-- ===== src/Transaction/Commit/Locks.antt =====
-- A commit gives back every lock that it takes.
use sto_layout.Base.{
  ℕ, ◌+◌, ◌≤◌, ◌≡◌, refl, ap, Bool, true, false, ◌||◌, if◌then◌else◌, some, List, [], ◌∷◌, map,
  drop, All, arith, Bool-cases, inl, inr,
}
use sto_layout.Transaction.{TransItem, in_progress, Transaction, Objects}
use sto_layout.Transaction.Commit.{
  Entry, plain, Phase, items_of, prepare, lock_loop, install_loop, unlock_loop, cleanup_loop,
  writeset_items, first_write_index, any_marked, check_loop, stop_aborted, stop_committed,
  commit_abort, commit_rest, try_commit,
}
use sto_layout.Transaction.Commit.Laws.{mine, LockLaws, IsReady}

module _ {S : Type 0} {o : Objects S} {weight : TransItem → ℕ → ℕ → ℕ} {held : S → ℕ → ℕ → ℕ}
    (laws : LockLaws o weight held) (a k : ℕ) where
  open laws use {mark, taken, refused, predicate, predicate_mark, installed, unlocked, cleaned}

  -- The locks that the items still have to give back.
  unfoldable owed : List TransItem → ℕ
  owed [] = 0
  owed (it ∷ its) = mine weight it a k + owed its

  owed-plain :
      (its : List TransItem)
      → All (λ it. it.needs_unlock ≡ false) its
      → owed (items_of (map plain its)) ≡ 0
  unfolding owed mine
  owed-plain [] h = refl
  owed-plain (it ∷ its) h = ground (arith, owed-plain its h.1)

  -- An item outside the write set has no lock to give back.
  abbrev Covered : List Entry → Type 0
  Covered es = All (λ e. e.in_writeset ≡ false → mine weight e.item a k ≡ 0) es

  Covered-plain :
      (its : List TransItem) → All (λ it. it.needs_unlock ≡ false) its → Covered (map plain its)
  unfolding mine
  Covered-plain [] h = tt
  Covered-plain (it ∷ its) h = (λ _. ground (arith, h.0), Covered-plain its h.1)

  prepare-held :
      (it : TransItem) (s : S)
      → it.needs_unlock ≡ false
      → let r = prepare o it s in held r.0.1 a k ≡ held s a k + mine weight r.0.0 a k
  unfolding prepare mine
  prepare-held it s free = ground (
    arith,
    taken it s a k,
    refused it s a k,
    predicate (record it { needs_unlock = it.has_write || it.needs_unlock })
        (if it.has_write then o.lock it s else (s, true)).0 a k,
    predicate_mark (record it { needs_unlock = it.has_write || it.needs_unlock })
        (if it.has_write then o.lock it s else (s, true)).0,
    mark it (it.has_write || it.needs_unlock) a k,
  )

  prepare-mine :
      (it : TransItem) (s : S)
      → it.needs_unlock ≡ false
      → it.has_write ≡ false
      → mine weight (prepare o it s).0.0 a k ≡ 0
  unfolding prepare mine
  prepare-mine it s free w = ground (
    arith,
    predicate (record it { needs_unlock = it.has_write || it.needs_unlock })
        (if it.has_write then o.lock it s else (s, true)).0 a k,
    predicate_mark (record it { needs_unlock = it.has_write || it.needs_unlock })
        (if it.has_write then o.lock it s else (s, true)).0,
    mark it (it.has_write || it.needs_unlock) a k,
  )

  prepare-mark :
      (it : TransItem) (s : S)
      → (prepare o it s).1 ≡ true
      → it.has_write ≡ true
      → (prepare o it s).0.0.needs_unlock ≡ true
  unfolding prepare
  prepare-mark it s on w = ground (
    arith,
    on,
    w,
    predicate_mark (record it { needs_unlock = it.has_write || it.needs_unlock })
        (if it.has_write then o.lock it s else (s, true)).0,
  )

  -- Every entry of the write set is marked as locked.
  abbrev Marked : List Entry → Type 0
  Marked es = All (λ e. e.in_writeset ≡ true → e.item.needs_unlock ≡ true) es

  lock_loop-Marked :
      (its : List TransItem) (s : S)
      → (lock_loop o its s).ok ≡ true
      → Marked (lock_loop o its s).entries
  unfolding lock_loop
  lock_loop-Marked [] s ok = tt
  lock_loop-Marked (it ∷ its) s ok = elim (Bool-cases (prepare o it s).1) [
    | inl on ↦
        let ok' : (lock_loop o its (prepare o it s).0.1).ok ≡ true = ground (arith, ok, on) in
        rw (on, lock_loop) (prepare-mark it s on, lock_loop-Marked its (prepare o it s).0.1 ok')
    | inr off ↦ absurd (ground (arith, ok, off))
  ]

  -- After the first loop, what is held is what was held before and the locks of the items.
  lock_loop-held :
      (its : List TransItem) (s : S)
      → All (λ it. it.needs_unlock ≡ false) its
      → let p = lock_loop o its s in
        (held p.store a k ≡ held s a k + owed (items_of p.entries)) × Covered p.entries
  unfolding lock_loop owed
  lock_loop-held [] s h = (omega arith, tt)
  lock_loop-held (it ∷ its) s h = elim (Bool-cases (prepare o it s).1) [
    | inl on ↦
        let rest = lock_loop-held its (prepare o it s).0.1 h.1 in
        rw (on, lock_loop)
          (omega (arith, prepare-held it s h.0, rest.0), (prepare-mine it s h.0, rest.1))
    | inr off ↦
        rw (off, lock_loop)
          (
            omega (arith, prepare-held it s h.0, owed-plain its h.1),
            (prepare-mine it s h.0, Covered-plain its h.1),
          )
  ]

  unlock_loop-held :
      (its : List TransItem) (s : S)
      → owed its ≤ held s a k
      → held (unlock_loop o its s) a k + owed its ≡ held s a k
  unfolding unlock_loop owed mine
  unlock_loop-held [] s h = omega arith
  unlock_loop-held (it ∷ its) s h =
      ground (arith, unlock_loop-held its s, unlocked it (unlock_loop o its s) a k)

  cleanup_loop-held :
      (c : Bool) (its : List TransItem) (s : S) → held (cleanup_loop o c its s) a k ≡ held s a k
  unfolding cleanup_loop
  cleanup_loop-held c [] s = refl
  cleanup_loop-held c (it ∷ its) s =
      ground (arith, cleanup_loop-held c its s, cleaned it (cleanup_loop o c its s) c a k)

  owed-writeset_items :
      (es : List Entry) → Covered es → owed (writeset_items o es) ≡ owed (items_of es)
  unfolding writeset_items owed
  owed-writeset_items [] h = refl
  owed-writeset_items (e ∷ es) h = ground (arith, h.0, owed-writeset_items es h.1)

  owed-drop :
      (es : List Entry)
      → Covered es
      → owed (drop (first_write_index es) (items_of es)) ≡ owed (items_of es)
  unfolding first_write_index owed
  owed-drop [] h = refl
  owed-drop (e ∷ es) h = ground (arith, h.0, owed-drop es h.1)

  owed-unmarked : (es : List Entry) → Covered es → any_marked es ≡ false → owed (items_of es) ≡ 0
  unfolding any_marked owed
  owed-unmarked [] h u = refl
  owed-unmarked (e ∷ es) h u = ground (arith, h.0, owed-unmarked es h.1)

  install_loop-held :
      (es : List Entry) (s : S)
      → Covered es
      → Marked es
      → owed (items_of es) ≤ held s a k
      → let r = install_loop o es s in
        (held r.1 a k + owed (items_of es) ≡ held s a k + owed (items_of r.0)) × Covered r.0
  unfolding install_loop owed mine
  install_loop-held [] s h m le = (refl, tt)
  install_loop-held (e ∷ es) s h m le = elim (Bool-cases e.in_writeset) [
    | inl on ↦
        let i = installed e.item s a k (m.0 on) (ground (arith, m.0 on, le)) in
        let mine_e : mine weight e.item a k ≡ weight e.item a k = ground (arith, m.0 on) in
        let rest =
          install_loop-held es (o.install e.item s).1 h.1 m.1 (omega (arith, i, le, mine_e)) in
        rw on (omega (arith, i, rest.0, mine_e), (λ z. ground arith, rest.1))
    | inr off ↦
        let rest = install_loop-held es s h.1 m.1 (omega (arith, le)) in
        rw off (omega (arith, rest.0), (λ _. h.0 off, rest.1))
  ]

  plain-unmarked : (its : List TransItem) → any_marked (map plain its) ≡ false
  unfolding any_marked
  plain-unmarked [] = refl
  plain-unmarked (it ∷ its) = plain-unmarked its

  lock_loop-unmarked :
      (its : List TransItem) (s : S)
      → All (λ it. it.has_write ≡ false) its
      → any_marked (lock_loop o its s).entries ≡ false
  unfolding lock_loop any_marked
  lock_loop-unmarked [] s h = refl
  lock_loop-unmarked (it ∷ its) s h = elim (Bool-cases (prepare o it s).1) [
    | inl on ↦
        rw (on, lock_loop) (ground (arith, h.0, lock_loop-unmarked its (prepare o it s).0.1 h.1))
    | inr off ↦ rw (off, lock_loop) (ground (arith, h.0, plain-unmarked its))
  ]

  -- `stop` after an abort gives back what the items still hold.
  commit_abort-held :
      (t : Transaction) (first : ℕ) (es : List Entry) (s : S)
      → Covered es
      → (any_marked es ≡ true → first ≡ first_write_index es)
      → (t.any_writes ≡ false → any_marked es ≡ false)
      → owed (items_of es) ≤ held s a k
      → held (commit_abort o t first es s).0.1 a k + owed (items_of es) ≡ held s a k
  unfolding commit_abort stop_aborted
  commit_abort-held t first es s c at w le = elim (Bool-cases (any_marked es)) [
    | inl on ↦
        let start = at on in
        let its = drop (first_write_index es) (items_of es) in
        let d = owed-drop es c in
        rw (on, start)
          (ground (
            arith,
            d,
            w,
            on,
            unlock_loop-held its s,
            cleanup_loop-held false its (unlock_loop o its s),
          ))
    | inr off ↦ rw off (
        ground
          (arith, owed-unmarked es c off, cleanup_loop-held false (drop first (items_of es)) s))
  ]

  install_loop-marked :
      (es : List Entry) (s : S) → any_marked (install_loop o es s).0 ≡ any_marked es
  unfolding install_loop any_marked
  install_loop-marked [] s = refl
  install_loop-marked (e ∷ es) s =
      ap (λ b. e.in_writeset || b)
        (install_loop-marked es (if e.in_writeset then o.install e.item s else (e.item, s)).1)

  commit_rest-held :
      (t : Transaction) (p : Phase S)
      → Covered p.entries
      → Marked p.entries
      → (t.any_writes ≡ false → any_marked p.entries ≡ false)
      → owed (items_of p.entries) ≤ held p.store a k
      → held (commit_rest o t p).0.1 a k + owed (items_of p.entries) ≡ held p.store a k
  unfolding commit_rest stop_committed
  commit_rest-held t p c marked w le =
      elim (Bool-cases (check_loop o t.may_duplicate_items [] (items_of p.entries) p.store)) [
        | inl valid ↦
            let i = install_loop-held p.entries p.store c marked le in
            let r = install_loop o p.entries p.store in
            let its = writeset_items o r.0 in
            let m = owed-writeset_items r.0 i.1 in
            let n = install_loop-marked p.entries p.store in
            rw valid (
              ground (
                arith,
                i.0,
                m,
                w,
                owed-unmarked r.0 i.1,
                n,
                unlock_loop-held its r.1,
                cleanup_loop-held true its (unlock_loop o its r.1),
              ))
        | inr stale ↦
            rw stale (
              commit_abort-held t (first_write_index p.entries) p.entries p.store c (λ _. refl) w
                le)
      ]

  -- The three ways in which a commit of a transaction in progress ends.
  outcome-held :
      (t : Transaction) (s : S)
      → IsReady t
      → let p = lock_loop o t.tset s in
        let first = if any_marked p.entries then first_write_index p.entries else t.first_write in
        (p.ok ≡ true → held (commit_rest o t p).0.1 a k ≡ held s a k)
        × (held (commit_abort o t first p.entries p.store).0.1 a k ≡ held s a k)
        × (held (stop_committed o t [] s) a k ≡ held s a k)
  unfolding stop_committed writeset_items unlock_loop cleanup_loop
  outcome-held t s ready =
      let p = lock_loop o t.tset s in
      let first = if any_marked p.entries then first_write_index p.entries else t.first_write in
      let l = lock_loop-held t.tset s ready.unlocked in
      let w : t.any_writes ≡ false → any_marked p.entries ≡ false =
        λ none_set. lock_loop-unmarked t.tset s (ready.writes none_set) in
      let at : any_marked p.entries ≡ true → first ≡ first_write_index p.entries =
        λ on. ground (arith, on) in
      (
        λ ok. omega (
          arith,
          l.0,
          commit_rest-held t p l.1 (lock_loop-Marked t.tset s ok) w (omega (arith, l.0)),
        ),
        omega
            (arith, l.0, commit_abort-held t first p.entries p.store l.1 at w (omega (arith, l.0))),
        ground arith,
      )

-- Over objects that meet `LockLaws`, a commit always returns, and whether it succeeds or not, it leaves every
-- lock as it found it: what this thread holds afterwards is what it held before. The transaction is in
-- progress, none of its items is locked yet, and `any_writes` is set if an item has a write.
pub try_commit_releases :
    {S : Type 0} {o : Objects S} {weight : TransItem → ℕ → ℕ → ℕ} {held : S → ℕ → ℕ → ℕ}
    → LockLaws o weight held
    → (t : Transaction) (s : S) → t.state ≡ in_progress
    → IsReady t
    → (r : (Transaction × S) × Bool) × (try_commit o t s ≡ some r)
      × ((a k : ℕ) → held r.0.1 a k ≡ held s a k)
unfolding try_commit
try_commit_releases {S} {o} {weight} {held} laws t s run ready = rw run (
  _,
  refl,
  λ a k. ground (
    arith,
    outcome-held laws a k (record t { state = in_progress }) s
        (record { unlocked = ready.unlocked; writes = ready.writes }),
  ),
)
