-- ===== src/Queue/Direct.antt =====
-- The calls outside transactions: the buffer is a queue of fewer than `size` elements.
use sto_layout.Base.{
  ℕ, zero, suc, ◌+◌, ◌≤◌, ◌<◌, ◌≡◌, refl, ◌∙◌, ap, ◌≢◌, ◌⊎◌, true, false, ◌==◌, ==_self, Bool-cases,
  inl, inr, none, some, [], ◌∷◌, ◌++◌, arith,
}
use sto_layout.Queue.{Queue, next, put, nontrans_push, nontrans_pop, nontrans_empty, nontrans_clear}
use sto_layout.Queue.View.{
  IsQueue, place, count, slots_from, contents, next-wrap, place-tail, count-lt, place-ne-tail,
}

slots_from-snoc :
    (size : ℕ) (q : Queue) (n i : ℕ) {j : ℕ}
    → j ≡ i + n
    → slots_from size q (suc n) i ≡ slots_from size q n i ++ (q.slots (place size q.head j) ∷ [])
slots_from-snoc size q zero i {j} e = let here : j ≡ i = omega (arith, e) in rw here refl
slots_from-snoc size q (suc n) i e =
    ap (◌∷◌ (q.slots (place size q.head i))) (slots_from-snoc size q n (i + 1) (omega (arith, e)))

slots_from-same :
    (size : ℕ) (q q' : Queue) (m : ℕ)
    → q'.head ≡ q.head
    → ((i : ℕ) → i < m → q'.slots (place size q.head i) ≡ q.slots (place size q.head i))
    → (n i : ℕ) → i + n ≤ m
    → slots_from size q' n i ≡ slots_from size q n i
slots_from-same size q q' m e h zero i le = refl
slots_from-same size q q' m e h (suc n) i le =
    rw (e, h i (omega (arith, le)), slots_from-same size q q' m e h n (i + 1) (omega (arith, le)))
      refl

pub slots_from-head :
    (size : ℕ) (q q' : Queue)
    → IsQueue size q
    → q'.head ≡ next size q.head
    → ((i : ℕ) → q'.slots i ≡ q.slots i)
    → (n i : ℕ) → i + n < size
    → slots_from size q' n i ≡ slots_from size q n (i + 1)
slots_from-head size q q' v e h zero i le = refl
slots_from-head size q q' v e h (suc n) i le =
    let at : place size q'.head i ≡ place size q.head (i + 1) =
      ground (arith, next-wrap size q.head v.head_in, e, v.head_in, le) in
    rw (at, h, slots_from-head size q q' v e h n (i + 1) (omega (arith, le))) refl

-- An element joins the end.
pub record Puts (size : ℕ) (q : Queue) (v : ℕ) (q' : Queue) : Type 0 where
  pub queue : IsQueue size q'
  pub joined : contents size q' ≡ contents size q ++ (v ∷ [])
  pub more : count size q' ≡ count size q + 1

pub put-Puts :
    (size : ℕ) (q : Queue) (v : ℕ)
    → IsQueue size q
    → count size q + 1 < size
    → Puts size q v (put size q v)
put-Puts size q v w room =
    let q' = put size q v in
    let wrap = next-wrap size q.tail w.tail_in in
    let c : count size q' ≡ suc (count size q) = ground (arith, wrap, w.head_in, w.tail_in, room) in
    let at_tail = place-tail size q w in
    record {
      queue = record { head_in = w.head_in; tail_in = ground (arith, wrap, w.tail_in) };
      joined = rw c (
          slots_from-snoc size q' (count size q) 0 {j = count size q} (omega arith)
          ∙ rw
              (
                slots_from-same size q q' (count size q) refl
                    (λ i lt. ground (arith, place-ne-tail size q i w lt)) (count size q) 0
                    (omega arith),
                at_tail,
                ==_self,
              )
              refl);
      more = omega (arith, c);
    }

-- `nontrans_push` on every branch: with room for another element it puts the value at the end, and its
-- assertion fails exactly if the queue has `size - 1` elements.
pub nontrans_push_lem :
    (size : ℕ) (q : Queue) (v : ℕ)
    → IsQueue size q
    → (count size q + 1 < size
        → (nontrans_push size q v ≡ some (put size q v)) × Puts size q v (put size q v))
      × (count size q + 1 ≡ size → nontrans_push size q v ≡ none)
unfolding nontrans_push
nontrans_push_lem size q v w =
    let wrap = next-wrap size q.tail w.tail_in in
    (
      λ room.
          let free : (q.head == next size q.tail) ≡ false =
            ground (arith, wrap, w.head_in, w.tail_in, room) in
          (rw free refl, put-Puts size q v w room),
      λ full.
          let met : (q.head == next size q.tail) ≡ true =
            ground (arith, wrap, w.head_in, w.tail_in, full) in
          rw met refl,
    )

pub record Pops (size : ℕ) (q : Queue) (v : ℕ) (q' : Queue) : Type 0 where
  pub queue : IsQueue size q'
  pub taken : contents size q ≡ v ∷ contents size q'

-- The head taken away.
abbrev pub without_head : ℕ → Queue → Queue
without_head size q = record q { head = next size q.head }

pub without_head-Pops :
    (size : ℕ) (q : Queue)
    → IsQueue size q
    → q.head ≢ q.tail
    → Pops size q (q.slots q.head) (without_head size q)
without_head-Pops size q w ne =
    let q' = without_head size q in
    let wrap = next-wrap size q.head w.head_in in
    let c : count size q ≡ suc (count size q') = ground (arith, wrap, w.head_in, w.tail_in, ne) in
    let at : place size q.head 0 ≡ q.head = ground (arith, w.head_in) in
    record {
      queue = record { head_in = ground (arith, wrap, w.head_in); tail_in = w.tail_in };
      taken =
          rw
            (
              c,
              at,
              slots_from-head size q q' w refl (λ i. refl) (count size q') 0
                  (omega (arith, c, count-lt size q w)),
            )
            refl;
    }

head-ne-tail : (q : Queue) → nontrans_empty q ≡ false → q.head ≢ q.tail
unfolding nontrans_empty
head-ne-tail q h e = ground (arith, h, e)

-- `nontrans_pop` on every branch: from an empty queue its assertion fails, from any other it takes the
-- first element and leaves the others in their order; `nontrans_empty` tells which.
pub nontrans_pop_lem :
    (size : ℕ) (q : Queue)
    → IsQueue size q
    → ((nontrans_empty q ≡ true) × (contents size q ≡ []) × (nontrans_pop size q ≡ none))
      ⊎ ((nontrans_empty q ≡ false)
          × (nontrans_pop size q ≡ some (q.slots q.head, without_head size q))
          × Pops size q (q.slots q.head) (without_head size q))
unfolding nontrans_pop nontrans_empty
nontrans_pop_lem size q w = elim (Bool-cases (q.head == q.tail)) [
  | inl met ↦
      let none_left : count size q ≡ 0 = ground (arith, met) in
      inl (met, rw none_left refl, rw met refl)
  | inr apart ↦ inr (apart, rw apart refl, without_head-Pops size q w (head-ne-tail q apart))
]

-- `nontrans_clear` ends after one round for each element and one more, and leaves the queue empty.
pub nontrans_clear_lem :
    (size fuel : ℕ) (q : Queue)
    → IsQueue size q
    → count size q < fuel
    → (q' : Queue) × (nontrans_clear size fuel q ≡ some q') × (contents size q' ≡ [])
unfolding nontrans_clear
nontrans_clear_lem size zero q w lt = absurd (omega (arith, lt))
nontrans_clear_lem size (suc fuel) q w lt = elim (nontrans_pop_lem size q w) [
  | inl done ↦ (q, rw done.0 refl, done.1)
  | inr more ↦
      let q' = without_head size q in
      let fewer : count size q ≡ suc (count size q') =
        ground
          (arith, next-wrap size q.head w.head_in, w.head_in, w.tail_in, head-ne-tail q more.0) in
      let (u, e, c) = nontrans_clear_lem size fuel q' more.2.queue (omega (arith, lt, fewer)) in
      (u, rw more.0 e, c)
]
