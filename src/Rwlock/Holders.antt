-- ===== src/Rwlock/Holders.antt =====
-- The word says who holds the lock, whatever the threads do in any order.
use sto_layout.Base.{ℕ, ◌+◌, ◌-◌, ◌^◌, ◌<◌, ◌≡◌, refl, Bool, true, false, arith}
use sto_layout.Rwlock.{write_bit, read_lock_round, read_unlock, write_lock_round, write_unlock}

-- The word, and how many readers and whether a writer hold the lock.
pub record Held : Type 0 where
  pub value : ℕ
  pub readers : ℕ
  pub writer : Bool

-- One call of a thread, with the word `v` that a round read before. Only a holder unlocks.
pub data Call (h : Held) : Held → Type 0 where
  read_locked :
      (v : ℕ)
      → (read_lock_round h.value v).1 ≡ true
      → Call h (record h { value = (read_lock_round h.value v).0; readers = h.readers + 1 })
  write_locked :
      (v : ℕ)
      → (write_lock_round h.value v).1 ≡ true
      → Call h (record h { value = (write_lock_round h.value v).0; writer = true })
  read_spin :
      (v : ℕ)
      → (read_lock_round h.value v).1 ≡ false
      → Call h (record h { value = (read_lock_round h.value v).0 })
  write_spin :
      (v : ℕ)
      → (write_lock_round h.value v).1 ≡ false
      → Call h (record h { value = (write_lock_round h.value v).0 })
  read_unlocked :
      0 < h.readers → Call h (record h { value = read_unlock h.value; readers = h.readers - 1 })
  write_unlocked :
      h.writer ≡ true → Call h (record h { value = write_unlock h.value; writer = false })

-- Calls of any threads, with fewer than 2 ^ 31 readers at a time.
pub data Calls : Held → Type 0 where
  none_yet : Calls (record { value = 0; readers = 0; writer = false })
  call : {h u : Held} → Calls h → Call h u → u.readers < 2 ^ 31 → Calls u

-- The word is the number of readers, or the write bit, and then there is no reader.
pub record Agrees (h : Held) : Type 0 where
  pub writing : h.writer ≡ true → (h.value ≡ write_bit) × (h.readers ≡ 0)
  pub reading : h.writer ≡ false → h.value ≡ h.readers
  pub few : h.readers < 2 ^ 31

Call-Agrees : {h u : Held} → Agrees h → Call h u → u.readers < 2 ^ 31 → Agrees u
unfolding read_lock_round write_lock_round read_unlock write_unlock
Call-Agrees {h} a (read_locked v ok) lt = record {
  writing = λ w. ground (arith, a.writing, a.reading, ok, w);
  reading = λ w. ground (arith, a.writing, a.reading, ok, w, lt);
  few = lt;
}
Call-Agrees {h} a (write_locked v ok) lt = record {
  writing = λ w. ground (arith, a.writing, a.reading, ok, a.few);
  reading = λ w. ground (arith, w);
  few = lt;
}
Call-Agrees {h} a (read_spin v ok) lt = record {
  writing = λ w. ground (arith, a.writing, ok, w);
  reading = λ w. ground (arith, a.reading, ok, w);
  few = lt;
}
Call-Agrees {h} a (write_spin v ok) lt = record {
  writing = λ w. ground (arith, a.writing, ok, w);
  reading = λ w. ground (arith, a.reading, ok, w);
  few = lt;
}
Call-Agrees {h} a (read_unlocked some_in) lt = record {
  writing = λ w. ground (arith, a.writing, some_in, w);
  reading = λ w. ground (arith, a.reading, some_in, w, a.few);
  few = lt;
}
Call-Agrees {h} a (write_unlocked held) lt = record {
  writing = λ w. ground (arith, w);
  reading = λ w. ground (arith, a.writing, held);
  few = lt;
}

-- In every state that calls of any threads lead to, the word says who holds the lock: with a writer it is
-- the write bit and there is no reader, and without one it is the number of readers. Fewer than 2 ^ 31
-- readers are in at a time, and only holders unlock.
pub Calls-Agrees : {h : Held} → Calls h → Agrees h
Calls-Agrees none_yet = record {
  writing = λ w. ground (arith, w);
  reading = λ w. refl;
  few = omega arith;
}
Calls-Agrees (call c s lt) = Call-Agrees (Calls-Agrees c) s lt
