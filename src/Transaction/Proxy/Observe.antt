-- ===== src/Transaction/Proxy/Observe.antt =====
-- What `observe` establishes, and what the flags of a transaction say of its items.
use sto_layout.Base.{
  ℕ, zero, suc, ◌≡◌, refl, subst, Bool, true, false, ◌==◌, ◌⊎◌, inl, inr, if◌then◌else◌, none, some,
  List, [], ◌∷◌, get_elem?, set, All, arith, Bool-cases,
}
use sto_layout.Tid.{is_locked_elsewhere, try_check_opacity}
use sto_layout.Transaction.{TransItem, in_progress, Transaction, Objects}
use sto_layout.Transaction.Commit.Laws.{IsReady}
use sto_layout.Transaction.Opacity.{Checked, hard_check_opacity, check_opacity}
use sto_layout.Transaction.Opacity.Sound.{hard_check_opacity_sound}
use sto_layout.Transaction.Proxy.{item_at, add_write, observe, after_check}

All-set :
    (P : TransItem → Type 0) (its : List TransItem) (i : ℕ) (it : TransItem)
    → All P its
    → P it
    → All P (set its i it)
All-set P [] i it h p = tt
All-set P (x ∷ its) zero it h p = (p, h.1)
All-set P (x ∷ its) (suc i) it h p = (h.0, All-set P its i it h.1 p)

All-get_elem? :
    (P : TransItem → Type 0) (its : List TransItem) (i : ℕ) {it : TransItem}
    → All P its
    → get_elem? its i ≡ some it
    → P it
All-get_elem? P [] i h e = absurd (ground (arith, e))
All-get_elem? P (x ∷ its) zero h e = subst (λ o. elim o [ none ↦ P x | some y ↦ P y ]) e h.0
All-get_elem? P (x ∷ its) (suc i) h e = All-get_elem? P its i h.1 e

-- `add_write` on an item of the set succeeds, and keeps a transaction ready to commit.
pub add_write-IsReady :
    (t : Transaction) (i wdata : ℕ) (it : TransItem)
    → IsReady t
    → item_at t i ≡ some it
    → (u : Transaction) × (add_write t i wdata ≡ some u) × IsReady u
unfolding add_write
add_write-IsReady t i wdata it v e =
    let w : TransItem = record it { has_write = true; wdata = wdata } in
    let kept : All (λ x. x.needs_unlock ≡ false) (set t.tset i w) =
      All-set (λ x. x.needs_unlock ≡ false) t.tset i w v.unlocked
        (All-get_elem? (λ x. x.needs_unlock ≡ false) t.tset i v.unlocked e) in
    rw (e, add_write)
      (elim (Bool-cases it.has_write) [
        | inl again ↦ rw again (
          _,
          refl,
          record {
            unlocked = kept;
            writes = λ unset. absurd (
                ground (
                  arith,
                  again,
                  All-get_elem? (λ x. x.has_write ≡ false) t.tset i (v.writes unset) e,
                ));
          },
        )
        | inr first ↦
            rw first (
              _,
              refl,
              record { unlocked = kept; writes = λ unset. absurd (ground (arith, unset)) },
            )
      ])

Checked-cases :
    {S : Type 0} (c : Checked S)
    → ((r : Transaction × S) × (c ≡ Checked.returned r.0 r.1))
      ⊎ ((r : Transaction × S) × (c ≡ Checked.thrown r.0 r.1))
Checked-cases (Checked.returned u s) = inl ((u, s), refl)
Checked-cases (Checked.thrown u s) = inr ((u, s), refl)

-- When `observe` of a version returns, to a transaction in progress without duplicate items, whose item has
-- no read yet: no other thread has the version locked, and either the version is older than the start of
-- the transaction, or every read that the transaction had passes its check in the present store.
pub observe_opaque :
    {S : Type 0} (o : Objects S)
    → (t u : Transaction) (i version tid : ℕ) (add : Bool) (s s' : S) (it : TransItem)
    → t.state ≡ in_progress
    → t.may_duplicate_items ≡ false
    → item_at t i ≡ some it
    → it.has_read ≡ false
    → observe o t i version add tid s ≡ some (Checked.returned u s')
    → (is_locked_elsewhere version t.threadid ≡ false)
      × ((try_check_opacity (if t.start_tid == 0 then tid else t.start_tid) version ≡ true)
          ⊎ All (λ x. x.has_read ≡ true → o.check x s ≡ true) t.tset)
unfolding observe check_opacity after_check
observe_opaque o t u i version tid add s s' it run single at unread e =
    let u0 : Transaction = record t { start_tid = if t.start_tid == 0 then tid else t.start_tid } in
    let free : is_locked_elsewhere version t.threadid ≡ false = ground (arith, e, at) in
    (
      free,
      elim (Bool-cases (try_check_opacity u0.start_tid version)) [
        | inl old ↦ inl old
        | inr new ↦ elim (Checked-cases (hard_check_opacity o u0 (some it) version tid s)) [
          | inl passed ↦
              inr
                (hard_check_opacity_sound o u0 passed.0.0 (some it) version tid s passed.0.1 run
                  single (ground (arith, unread)) passed.1).1
          | inr threw ↦ absurd (ground (arith, e, at, free, new, threw.1, run))
        ]
      ],
    )
