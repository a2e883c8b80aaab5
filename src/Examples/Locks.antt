-- ===== src/Examples/Locks.antt =====
-- The layout lock with two threads.
use sto_layout.Base.{false, ℕ, ◌<◌, ◌≡◌, ◌≢◌, ◌⊎◌, refl, true, arith}
use sto_layout.LayoutLock.{Move, writing, changing, writer_active, in_reset}
use sto_layout.LayoutLock.System.{System, Reach, start, later, pick, Others, here, next}
use sto_layout.Rwlock.{read_lock_round, write_lock_round}
use sto_layout.Rwlock.Holders.{Held, Call, Calls, none_yet, call, Agrees, Calls-Agrees}
use sto_layout.LayoutLock.Safety.{
  layout_change_exclusive, clean_read_sound, reset_keeps_change, nested_change_blocks,
}

-- Thread 0 takes both slots, sets both flags, and changes the layout once.
abbrev change_run : (s : System) × Reach 2 s
change_run = (
  _,
  later {t = 0}
      (later {t = 0}
        (later {t = 0}
          (later {t = 0}
            (later {t = 0}
              (later {t = 0}
                (later {t = 0} (later {t = 0} start (pick (omega arith) Move.start_change))
                  (pick (omega arith) (Move.acquire (omega arith) refl)))
                (pick (omega arith) (Move.acquire (omega arith) refl)))
              (pick (omega arith) (Move.acquired refl)))
            (pick (omega arith) (Move.mark_dirty (omega arith))))
          (pick (omega arith) (Move.mark_dirty (omega arith))))
        (pick (omega arith) (Move.marked_all refl)))
      (pick (omega arith) Move.change),
)

-- Thread 1 begins to read, and finds its slot of the lock quiet.
abbrev read_run : (s : System) × Reach 2 s
read_run = (_, later {t = 1} start (pick (omega arith) Move.start_read))

change_run_result : (change_run.0.mem.layout ≡ 1) × (change_run.0.mem.dirty 1 ≡ true)
change_run_result = (refl, refl)

layout_change_exclusive_example :
    ((d : ℕ) → change_run.0.pc d ≡ changing → 0 ≡ d)
    × ((t : ℕ) → t < 2 → change_run.0.pc t ≢ writing)
layout_change_exclusive_example = layout_change_exclusive change_run.1 0 refl (omega arith)

clean_read_sound_example : (read_run.0.mem.layout ≡ 0) × ((c : ℕ) → read_run.0.pc c ≢ changing)
clean_read_sound_example = clean_read_sound read_run.1 1 (omega arith) refl refl

reset_keeps_change_case :
    (change_run.0.mem.state 1 ≡ writer_active)
    × ((change_run.0.mem.dirty 1 ≡ true) ⊎ (in_reset (change_run.0.pc 1) ≡ true))
reset_keeps_change_case = reset_keeps_change change_run.1 0 refl 1 (omega arith)

-- Thread 1 begins to read while thread 0 is changing the layout.
abbrev reader_beside : (u : System) × Others 2 0 change_run.0 u
reader_beside = (_, next {t = 1} here (omega arith) (pick (omega arith) Move.start_read))

nested_change_blocks_case :
    (reader_beside.0.pc 0 ≡ changing)
    × ((j : ℕ) → j < 2 → reader_beside.0.mem.state j ≡ writer_active)
nested_change_blocks_case = nested_change_blocks change_run.1 0 refl reader_beside.1

-- A reader, and a writer that finds it.
abbrev rw_run : (h : Held) × Calls h
unfolding read_lock_round write_lock_round
rw_run = (
  record { value = 1; readers = 1; writer = false },
  call (call none_yet (Call.read_locked 0 refl) (omega arith)) (Call.write_spin 1 refl)
      (omega arith),
)

Calls-Agrees_example : Agrees rw_run.0
unfolding read_lock_round write_lock_round
Calls-Agrees_example = Calls-Agrees rw_run.1
