-- ===== src/LayoutLock.antt =====
-- layoutLock/llock.hh: `LayoutLock_DefaultImpl_<ScalableRWLock<n>>`, one shared access at a time.
--
-- Readers of a structure run without a lock and ask afterwards, by their dirty flag, whether the layout
-- may have changed under them; writers hold their own slot; a layout change holds every slot. All
-- accesses are taken to be sequentially consistent, as the builtins and the fences ask for. Slot and flag
-- `i` stand at `state_[i * PADDING(int)]` and `dirty_[i * PADDING(int)]`.
pub mod System
pub mod Invariant
pub mod Safety
use sto_layout.Base.{ℕ, suc, ◌+◌, ◌<◌, ◌≡◌, ◌≢◌, Bool, true, false, ltb, leb, ◌&&◌, update}

-- `ScalableRWLock::State`
pub data SlotState : Type 0 where
  inactive : SlotState
  reader_active : SlotState
  writer_active : SlotState

-- The lock's arrays, and the protected structure: all that matters of it is how often its layout has
-- been changed.
pub record Shared : Type 0 where
  pub state : ℕ → SlotState
  pub dirty : ℕ → Bool
  pub layout : ℕ

-- Where a thread stands, with the local variables that are live there.
pub data Pc : Type 0 where
  idle : Pc
  reading : (seen : ℕ) → Pc  -- after `startRead`, with the layout of that moment
  reset_check : Pc  -- `resetDirty`, before the first `isWriterActive`
  reset_clear : Pc  -- before `*dirty = 0`
  reset_recheck : Pc  -- before the second `isWriterActive`
  reset_mark : Pc  -- before `*dirty = 1`
  writing : Pc  -- between `startWrite` and `finishWrite`
  acquiring : (i : ℕ) → Pc  -- the loop of `write_lock`
  marking : (i : ℕ) → Pc  -- the loop of `startLayoutChange` over the dirty flags
  changing : Pc  -- between `startLayoutChange` and `finishLayoutChange`
  releasing : (i : ℕ) → Pc  -- the loop of `write_unlock`

-- One step of thread `t` of `n`. `finishRead` returns true by `finish_clean`, and false at the end of
-- the reset that `finish_dirty` begins.
pub data Move (n t : ℕ) (m : Shared) : Pc → Shared → Pc → Type 0 where
  start_read : Move n t m idle m (reading m.layout)
  finish_clean : {l : ℕ} → m.dirty t ≡ false → Move n t m (reading l) m idle
  finish_dirty : {l : ℕ} → m.dirty t ≡ true → Move n t m (reading l) m reset_check
  check_active : m.state t ≡ writer_active → Move n t m reset_check m idle
  check_quiet : m.state t ≢ writer_active → Move n t m reset_check m reset_clear
  clear : Move n t m reset_clear (record m { dirty = update m.dirty t false }) reset_recheck
  recheck_active : m.state t ≡ writer_active → Move n t m reset_recheck m reset_mark
  recheck_quiet : m.state t ≢ writer_active → Move n t m reset_recheck m idle
  mark : Move n t m reset_mark (record m { dirty = update m.dirty t true }) idle
  start_write :
      m.state t ≡ inactive
      → Move n t m idle (record m { state = update m.state t reader_active }) writing
  start_write_spin : m.state t ≢ inactive → Move n t m idle m idle
  finish_write : Move n t m writing (record m { state = update m.state t inactive }) idle
  start_change : Move n t m idle m (acquiring 0)
  acquire :
      {i : ℕ}
      → i < n
      → m.state i ≡ inactive
      → Move n t m
          (acquiring i)
          (record m { state = update m.state i writer_active })
          (acquiring (suc i))
  acquire_spin : {i : ℕ} → i < n → m.state i ≢ inactive → Move n t m (acquiring i) m (acquiring i)
  acquired : {i : ℕ} → i ≡ n → Move n t m (acquiring i) m (marking 0)
  mark_dirty :
      {i : ℕ}
      → i < n
      → Move n t m (marking i) (record m { dirty = update m.dirty i true }) (marking (suc i))
  marked_all : {i : ℕ} → i ≡ n → Move n t m (marking i) m changing
  change : Move n t m changing (record m { layout = m.layout + 1 }) changing
  finish_change : Move n t m changing m (releasing 0)
  release :
      {i : ℕ}
      → i < n
      → Move n t m
          (releasing i)
          (record m { state = update m.state i inactive })
          (releasing (suc i))
  released : {i : ℕ} → i ≡ n → Move n t m (releasing i) m idle

-- Whether a thread that stands there has slot `j` from `write_lock`.
abbrev pub holds : ℕ → Pc → ℕ → Bool
holds n (acquiring i) j = ltb j i
holds n (marking i) j = ltb j n
holds n changing j = ltb j n
holds n (releasing i) j = leb i j && ltb j n
holds n _ j = false

-- Whether it has set the dirty flag of thread `j`, in the change under way.
abbrev pub flags : ℕ → Pc → ℕ → Bool
flags n (marking i) j = ltb j i
flags n changing j = ltb j n
flags n _ j = false

-- Between clearing its own flag and deciding whether to set it again.
abbrev pub in_reset : Pc → Bool
in_reset reset_recheck = true
in_reset reset_mark = true
in_reset _ = false
