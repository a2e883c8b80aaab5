-- ===== src/LayoutLock/System.antt =====
-- `n` threads over one layout lock, interleaved in any order.
use sto_layout.Base.{ℕ, ◌<◌, ◌≢◌, false, update}
use sto_layout.LayoutLock.{Shared, Pc, Move, inactive}

pub record System : Type 0 where
  pub mem : Shared
  pub pc : ℕ → Pc

-- A step of one thread.
pub data Step (n : ℕ) (s : System) (t : ℕ) : System → Type 0 where
  pick :
      {m : Shared} {p : Pc}
      → t < n
      → Move n t s.mem (s.pc t) m p
      → Step n s t (record { mem = m; pc = update s.pc t p })

-- The constructors of the two classes, with no thread inside.
abbrev pub init : System
init = record {
  mem = record { state = λ _. inactive; dirty = λ _. false; layout = 0 };
  pc = λ _. Pc.idle;
}

pub data Reach (n : ℕ) : System → Type 0 where
  start : Reach n init
  later : {s u : System} {t : ℕ} → Reach n s → Step n s t u → Reach n u

-- Steps of any threads but `c`.
pub data Others (n c : ℕ) (s : System) : System → Type 0 where
  here : Others n c s s
  next : {u v : System} {t : ℕ} → Others n c s u → t ≢ c → Step n u t v → Others n c s v
