-- ===== src/LayoutLock/Safety.antt =====
-- What the layout lock promises its users, in every reachable state.
use sto_layout.Base.{ℕ, ◌<◌, ◌≡◌, ◌≢◌, ◌⊎◌, refl, ◌∙◌, true, false, arith}
use sto_layout.LayoutLock.{writer_active, reading, writing, changing, in_reset}
use sto_layout.LayoutLock.System.{System, Step, pick, Reach, later, Others, here, next}
use sto_layout.LayoutLock.Invariant.{Reach-Inv}

-- While a thread is changing the layout, no other thread is changing it, and no thread of the lock is
-- writing.
pub layout_change_exclusive :
    {n : ℕ} {s : System}
    → Reach n s
    → (c : ℕ) → s.pc c ≡ changing
    → 0 < n
    → ((d : ℕ) → s.pc d ≡ changing → c ≡ d) × ((t : ℕ) → t < n → s.pc t ≢ writing)
layout_change_exclusive {n} {s} r c e pos =
    (λ d k. ground (arith, single c d 0), λ t lt w. ground (arith, owned c t, written t))
  where
    open (Reach-Inv r) use {single, owned, written}

-- An optimistic read is sound: if `finishRead` is about to return true, then the layout is the one at
-- `startRead`, and no thread is changing it.
pub clean_read_sound :
    {n l : ℕ} {s : System}
    → Reach n s
    → (t : ℕ) → t < n
    → s.pc t ≡ reading l
    → s.mem.dirty t ≡ false
    → (s.mem.layout ≡ l) × ((c : ℕ) → s.pc c ≢ changing)
clean_read_sound {n} {l} {s} r t lt e clean =
    (ground (arith, fresh t l lt e), λ c k. ground (arith, flagged c t))
  where
    open (Reach-Inv r) use {fresh, flagged}

-- A reset of the dirty flag loses no change: while a thread is changing the layout, the flag of every
-- thread is set, or that thread is inside `resetDirty` and is about to look at its slot again, which says
-- that a writer is active.
pub reset_keeps_change :
    {n : ℕ} {s : System}
    → Reach n s
    → (c : ℕ) → s.pc c ≡ changing
    → (t : ℕ) → t < n
    → (s.mem.state t ≡ writer_active) × ((s.mem.dirty t ≡ true) ⊎ (in_reset (s.pc t) ≡ true))
reset_keeps_change r c e t lt = (ground (arith, owned c t), ground (arith, flagged c t))
  where
    open (Reach-Inv r) use {owned, flagged}

-- Steps of other threads leave a thread where it is.
Step-pc : {n t c : ℕ} {s u : System} → Step n s t u → t ≢ c → u.pc c ≡ s.pc c
Step-pc (pick lt mv) ne = ground arith

Others-pc : {n c : ℕ} {s u : System} → Others n c s u → u.pc c ≡ s.pc c
Others-pc here = refl
Others-pc (next o ne st) = Step-pc st ne ∙ Others-pc o

Others-Reach : {n c : ℕ} {s u : System} → Reach n s → Others n c s u → Reach n u
Others-Reach r here = r
Others-Reach r (next o ne st) = later (Others-Reach r o) st

-- `startLayoutChange` cannot be nested: from a state in which a thread is changing the layout, whatever
-- steps the other threads take, that thread is still changing it and every slot still says that a writer
-- is active, so a second `write_lock` of that thread would spin on its first slot for ever.
pub nested_change_blocks :
    {n : ℕ} {s u : System}
    → Reach n s
    → (c : ℕ) → s.pc c ≡ changing
    → Others n c s u
    → (u.pc c ≡ changing) × ((j : ℕ) → j < n → u.mem.state j ≡ writer_active)
nested_change_blocks {n} {s} {u} r c e o =
    let k : u.pc c ≡ changing = Others-pc o ∙ e in
    (k, λ j lt. ground (arith, (Reach-Inv (Others-Reach r o)).owned c j))
