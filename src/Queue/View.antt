-- ===== src/Queue/View.antt =====
-- What a queue holds, as a list, and what a transaction sees of it.
use native.Mathlib.Nat.{mod-eq_of_lt, mod_self}
use sto_layout.Base.{
  ◌==◌, ltb→lt, Bool-cases, inl, inr, ℕ, zero, suc, ◌+◌, ◌-◌, ◌<◌, ◌≡◌, ◌≢◌, false, ltb, leb,
  if◌then◌else◌, List, [], ◌∷◌, arith,
}
use sto_layout.Queue.{Queue, next}

pub record IsQueue (size : ℕ) (q : Queue) : Type 0 where
  pub head_in : q.head < size
  pub tail_in : q.tail < size

-- The index `i` places after the head, for less than a full round.
abbrev pub place : ℕ → ℕ → ℕ → ℕ
place size head i = if ltb (head + i) size then head + i else head + i - size

-- How many elements the queue holds.
abbrev pub count : ℕ → Queue → ℕ
count size q = if leb q.head q.tail then q.tail - q.head else q.tail + size - q.head

-- `n` slots from the place `i` on.
abbrev pub slots_from : ℕ → Queue → ℕ → ℕ → List ℕ
slots_from size q zero i = []
slots_from size q (suc n) i = q.slots (place size q.head i) ∷ slots_from size q n (i + 1)

abbrev pub contents : ℕ → Queue → List ℕ
contents size q = slots_from size q (count size q) 0

pub next-wrap : (size i : ℕ) → i < size → next size i ≡ (if ltb (i + 1) size then i + 1 else 0)
unfolding next
next-wrap size i h = elim (Bool-cases (ltb (i + 1) size)) [
  | inl inside ↦ rw inside (mod-eq_of_lt (ltb→lt (i + 1) size inside))
  | inr outside ↦
      let at : i + 1 ≡ size = ground (arith, outside) in rw (outside, at) (mod_self size)
]

pub next-place :
    (size head i : ℕ)
    → head < size
    → i < size
    → next size (place size head i) ≡ place size head (i + 1)
next-place size head i h k = ground (arith, next-wrap size (place size head i))

-- Different places of one round are different indices.
pub place-ne :
    (size head i j : ℕ) → head < size → i < j → j < size → place size head i ≢ place size head j
place-ne size head i j h k b e = ground arith

-- The place after the last element is the tail, and the places before it are not.
pub place-tail : (size : ℕ) (q : Queue) → IsQueue size q → place size q.head (count size q) ≡ q.tail
place-tail size q v = ground (arith, v.head_in, v.tail_in)

pub count-lt : (size : ℕ) (q : Queue) → IsQueue size q → count size q < size
count-lt size q v = ground (arith, v.head_in, v.tail_in)

pub place-ne-tail :
    (size : ℕ) (q : Queue) (i : ℕ)
    → IsQueue size q
    → i < count size q
    → (place size q.head i == q.tail) ≡ false
place-ne-tail size q i v h = ground (arith, v.head_in, v.tail_in)
