-- ===== src/LayoutLock/Invariant.antt =====
-- What holds in every reachable state of the layout lock, and is kept by every step.
use sto_layout.Base.{ℕ, ◌≤◌, ◌<◌, ◌≡◌, ◌≢◌, ◌⊎◌, refl, true, false, update, arith}
use sto_layout.LayoutLock.{
  inactive, reader_active, writer_active, Shared, Pc, reading, writing, Move, holds, flags,
  in_reset,
}
use sto_layout.LayoutLock.System.{System, Step, pick, init, Reach, start, later}

-- `few`: a slot index in a loop stays within the array. `owned`: a slot of `write_lock` says so.
-- `single`: it has one holder. `written`: a writer's own slot says so. `flagged`: where a change under
-- way has set a flag, it is set, or its thread is about to look at its slot again. `fresh`: the
-- layout is the one that a reader saw, or its flag is set.
abbrev pub InArray : ℕ → Pc → Type 0
InArray n (Pc.acquiring i) = i ≤ n
InArray n (Pc.marking i) = i ≤ n
InArray n (Pc.releasing i) = i ≤ n
InArray n _ = Unit

pub record Inv (n : ℕ) (m : Shared) (pc : ℕ → Pc) : Type 0 where
  pub few : (c : ℕ) → InArray n (pc c)
  pub owned : (c j : ℕ) → holds n (pc c) j ≡ true → m.state j ≡ writer_active
  pub single : (c d j : ℕ) → holds n (pc c) j ≡ true → holds n (pc d) j ≡ true → c ≡ d
  pub written : (t : ℕ) → pc t ≡ writing → m.state t ≡ reader_active
  pub flagged : (c j : ℕ) → flags n (pc c) j ≡ true → (m.dirty j ≡ true) ⊎ (in_reset (pc j) ≡ true)
  pub fresh : (t l : ℕ) → t < n → pc t ≡ reading l → (m.layout ≡ l) ⊎ (m.dirty t ≡ true)

-- The test that lets a move happen, for the clauses below that take all moves together.
abbrev Guard : {n t : ℕ} {m m' : Shared} {p p' : Pc} → Move n t m p m' p' → Type 0
Guard {t} {m} (Move.finish_clean _) = m.dirty t ≡ false
Guard {t} {m} (Move.finish_dirty _) = m.dirty t ≡ true
Guard {t} {m} (Move.check_active _) = m.state t ≡ writer_active
Guard {t} {m} (Move.check_quiet _) = m.state t ≢ writer_active
Guard {t} {m} (Move.recheck_active _) = m.state t ≡ writer_active
Guard {t} {m} (Move.recheck_quiet _) = m.state t ≢ writer_active
Guard {t} {m} (Move.start_write _) = m.state t ≡ inactive
Guard {n} {m} (Move.acquire {i} _ _) = (i < n) × (m.state i ≡ inactive)
Guard {n} (Move.acquired {i} _) = i ≡ n
Guard {n} (Move.mark_dirty {i} _) = i < n
Guard {n} (Move.marked_all {i} _) = i ≡ n
Guard {n} (Move.release {i} _) = i < n
Guard {n} (Move.released {i} _) = i ≡ n
Guard _ = Unit

guard : {n t : ℕ} {m m' : Shared} {p p' : Pc} (mv : Move n t m p m' p') → Guard mv
guard (Move.finish_clean g) = g
guard (Move.finish_dirty g) = g
guard (Move.check_active g) = g
guard (Move.check_quiet g) = g
guard (Move.recheck_active g) = g
guard (Move.recheck_quiet g) = g
guard (Move.start_write g) = g
guard (Move.acquire g h) = (g, h)
guard (Move.acquired g) = g
guard (Move.mark_dirty g) = g
guard (Move.marked_all g) = g
guard (Move.release g) = g
guard (Move.released g) = g
guard _ = tt

module _ {n : ℕ} {m : Shared} {pc : ℕ → Pc} (inv : Inv n m pc) (t : ℕ) where
  open inv use {few, owned, single, written, flagged, fresh}

  -- A match on `Move` needs a variable for the place of thread `t`.
  Move-few :
      {p p' : Pc} {m' : Shared}
      → Move n t m p m' p'
      → pc t ≡ p
      → (c : ℕ) → InArray n (update pc t p' c)
  Move-few Move.start_read e c = ground (arith, few c)
  Move-few mv e c = ground (arith, guard mv, few c)

  Move-owned :
      {p p' : Pc} {m' : Shared}
      → Move n t m p m' p'
      → pc t ≡ p
      → (c j : ℕ) → holds n (update pc t p' c) j ≡ true
      → m'.state j ≡ writer_active
  Move-owned Move.start_read e c j h = ground (arith, owned c j)
  Move-owned mv e c j h = ground (arith, guard mv, owned c j, owned t j, written t, single c t j)

  Move-single :
      {p p' : Pc} {m' : Shared}
      → Move n t m p m' p'
      → pc t ≡ p
      → (c d j : ℕ) → holds n (update pc t p' c) j ≡ true
      → holds n (update pc t p' d) j ≡ true
      → c ≡ d
  Move-single Move.start_read e c d j h k = ground (arith, single c d j)
  Move-single mv e c d j h k = ground (arith, guard mv, single c d j, owned c j, owned d j)

  Move-written :
      {p p' : Pc} {m' : Shared}
      → Move n t m p m' p'
      → pc t ≡ p
      → (r : ℕ) → update pc t p' r ≡ writing
      → m'.state r ≡ reader_active
  Move-written Move.start_read e r h = ground (arith, written r)
  Move-written mv e r h = ground (arith, guard mv, written r, owned t r)

  Move-flagged :
      {p p' : Pc} {m' : Shared}
      → Move n t m p m' p'
      → pc t ≡ p
      → (c j : ℕ) → flags n (update pc t p' c) j ≡ true
      → (m'.dirty j ≡ true) ⊎ (in_reset (update pc t p' j) ≡ true)
  Move-flagged Move.start_read e c j h = ground (arith, flagged c j)
  Move-flagged mv e c j h = ground (arith, guard mv, flagged c j, owned c j, few c)

  Move-Fresh :
      {p p' : Pc} {m' : Shared}
      → Move n t m p m' p'
      → pc t ≡ p
      → (r l : ℕ) → r < n
      → update pc t p' r ≡ reading l
      → (m'.layout ≡ l) ⊎ (m'.dirty r ≡ true)
  Move-Fresh Move.start_read e r l lt h = ground (arith, fresh r l)
  Move-Fresh mv e r l lt h = ground (arith, guard mv, fresh r l, flagged t r)

Inv-init : (n : ℕ) → Inv n init.mem init.pc
Inv-init n = record {
  few = λ c. tt;
  owned = λ c j h. cc;
  single = λ c d j h k. cc;
  written = λ t h. cc;
  flagged = λ c j h. cc;
  fresh = λ t l lt h. cc;
}

-- Every step of a thread keeps the invariant.
pub Step-Inv : {n t : ℕ} {s u : System} → Step n s t u → Inv n s.mem s.pc → Inv n u.mem u.pc
Step-Inv {t} (pick lt mv) inv = record {
  few = Move-few inv t mv refl;
  owned = Move-owned inv t mv refl;
  single = Move-single inv t mv refl;
  written = Move-written inv t mv refl;
  flagged = Move-flagged inv t mv refl;
  fresh = Move-Fresh inv t mv refl;
}

pub Reach-Inv : {n : ℕ} {s : System} → Reach n s → Inv n s.mem s.pc
Reach-Inv {n} start = Inv-init n
Reach-Inv (later r st) = Step-Inv st (Reach-Inv r)
