-- ===== src/Transaction/Opacity/Sound.antt =====
-- A transaction that passes a hard opacity check has only valid reads.
use sto_layout.Base.{
  ℕ, ◌≡◌, Bool, true, false, ◌||◌, if◌then◌else◌, Option, List, [], ◌∷◌, ◌++◌, All, arith,
}
use sto_layout.Tid.{is_locked_elsewhere}
use sto_layout.Transaction.{TransItem, in_progress, Transaction, Objects}
use sto_layout.Transaction.Opacity.{Checked, recheck_loop, unchanged, hard_check_opacity, abort}

recheck_loop_lem :
    {S : Type 0} (o : Objects S) (before its : List TransItem) (s : S)
    → (recheck_loop o false before its s).1 ≡ true
    → All (λ it. it.has_read ≡ true → o.check it s ≡ true) its
unfolding recheck_loop
recheck_loop_lem o before [] s h = tt
recheck_loop_lem o before (it ∷ its) s h =
    let r : TransItem × Bool =
      if it.has_read
      then (it, o.check it s || false)
      else (if it.has_predicate then o.check_predicate it s false else (it, true)) in
    (
      λ read. ground (arith, h, read),
      recheck_loop_lem o (before ++ (r.0 ∷ [])) its s (ground (arith, h)),
    )

-- When a hard opacity check of a transaction in progress without duplicate items, on a version that its
-- item has not read before, returns, then the version is not locked by another thread, every read of the
-- transaction passes its check in the present store, the store is unchanged, and the transaction goes on
-- with the present commit id as its start.
pub hard_check_opacity_sound :
    {S : Type 0} (o : Objects S)
    → (t u : Transaction) (it : Option TransItem) (v tid : ℕ) (s s' : S) → t.state ≡ in_progress
    → t.may_duplicate_items ≡ false
    → unchanged o it v ≡ false
    → hard_check_opacity o t it v tid s ≡ Checked.returned u s'
    → (is_locked_elsewhere v t.threadid ≡ false)
      × All (λ x. x.has_read ≡ true → o.check x s ≡ true) t.tset
      × (s' ≡ s)
      × (u.state ≡ in_progress)
      × (u.start_tid ≡ tid)
unfolding hard_check_opacity abort
hard_check_opacity_sound o t u it v tid s s' run single seen e =
    let passed : (recheck_loop o false [] t.tset s).1 ≡ true =
      ground (arith, run, single, seen, e) in
    (
      ground (arith, run, single, seen, e),
      recheck_loop_lem o [] t.tset s passed,
      ground (arith, run, single, seen, e),
      ground (arith, run, single, seen, e),
      ground (arith, run, single, seen, e),
    )
