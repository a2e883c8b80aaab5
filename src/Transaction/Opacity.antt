-- ===== src/Transaction/Opacity.antt =====
-- Transaction.hh and Transaction.cc: `check_opacity` and `hard_check_opacity`. The global `_TID` is an
-- argument; an answer of none is a failed assertion.
pub mod Sound
use sto_layout.Base.{
  ℕ, zero, suc, ◌/◌, ◌%◌, ◌≡◌, Bool, true, false, not, ◌&&◌, ◌||◌, ◌==◌, ltb, if◌then◌else◌, Option,
  none, some, List, [], ◌∷◌, ◌++◌,
}
use sto_layout.Tid.{is_locked_elsewhere, try_check_opacity}
use sto_layout.Transaction.{
  TransItem, State, in_progress, opacity_check, aborted, committed, is_committing, Transaction,
  Objects, preceding_duplicate_read,
}
use sto_layout.Transaction.Commit.{silent_abort}

-- How a check ends: it returns, or it throws `Abort` after `silent_abort`.
pub data Checked (S : Type 0) : Type 0 where
  returned : Transaction → S → Checked S
  thrown : Transaction → S → Checked S

module _ {S : Type 0} (o : Objects S) where
  unfoldable pub abort : Transaction → S → Checked S
  unfolding silent_abort
  abort t s = let r = silent_abort o t s in Checked.thrown r.0 r.1

  -- The loop of `hard_check_opacity`, at the items after `before`: the items, whose predicates may have
  -- changed them, and whether no check failed.
  unfoldable pub recheck_loop : Bool → List TransItem → List TransItem → S → List TransItem × Bool
  unfolding preceding_duplicate_read
  recheck_loop may_duplicate before [] s = ([], true)
  recheck_loop may_duplicate before (it ∷ its) s =
      let r : TransItem × Bool =
        if it.has_read
        then (it, o.check it s || (may_duplicate && preceding_duplicate_read before it))
        else (if it.has_predicate then o.check_predicate it s false else (it, true)) in
      let rest = recheck_loop may_duplicate (before ++ (r.0 ∷ [])) its s in
      if r.1 then (r.0 ∷ rest.0, rest.1) else (r.0 ∷ its, false)

  -- Whether the item has a read whose value is the version `v`.
  abbrev pub unchanged : Option TransItem → ℕ → Bool
  unchanged none v = false
  unchanged (some it) v = it.has_read && (it.rdata == v)

  -- Where the state is aborted or committed the code fails an assertion; `check_opacity`, its only caller
  -- here, answers none for these states.
  unfoldable pub hard_check_opacity : Transaction → Option TransItem → ℕ → ℕ → S → Checked S
  unfolding abort recheck_loop is_locked_elsewhere
  hard_check_opacity t it v tid s =
      let opened = record t { state = opacity_check; start_tid = tid } in
      let r = recheck_loop t.may_duplicate_items [] t.tset s in
      let rechecked = record opened { tset = r.0 } in
      if is_committing t.state || unchanged it v then Checked.returned t s else elim (t.state) [
        | in_progress ↦
            if is_locked_elsewhere v t.threadid
            then abort t s
            else (if r.1
                then Checked.returned (record rechecked { state = in_progress }) s
                else abort rechecked s)
        | _ ↦ abort t s
      ]

  -- `check_opacity(item, v)`, and with no item `check_opacity(v)`.
  unfoldable pub check_opacity : Transaction → Option TransItem → ℕ → ℕ → S → Option (Checked S)
  unfolding hard_check_opacity try_check_opacity
  check_opacity t it v tid s =
      let u = record t { start_tid = if t.start_tid == 0 then tid else t.start_tid } in
      let answer =
        if try_check_opacity u.start_tid v || is_committing t.state
        then Checked.returned u s
        else hard_check_opacity u it v tid s in
      elim (t.state) [ aborted ↦ none | committed ↦ none | _ ↦ some answer ]
