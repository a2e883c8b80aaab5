-- ===== src/Queue/Answers.antt =====
-- The answers of `transPop` and `transFront` are those of a list.
use sto_layout.Base.{
  ℕ, ◌+◌, ◌≡◌, refl, sym, ◌∙◌, ap, ◌⊎◌, Bool, true, false, ◌==◌, Bool-cases, inl, inr, some, List,
  [], ◌∷◌, arith,
}
use sto_layout.Queue.{
  Queue, PushItem, no_write, one, many, Local, pop_own, pop_from, trans_pop, front_own, front_from,
  trans_front,
}
use sto_layout.Queue.View.{IsQueue, place, count, count-lt}
use sto_layout.Queue.Trans.{
  own_values, HasPopped, view, first, rest_of, is_some, popped_at, pop_from-popped_at,
  front_from-front_at, slots_from-left, slots_from-end, HasPopped-slot,
}

pop_own_lem :
    (l : Local) (index : ℕ) (p : PushItem)
    → l.push ≡ p
    → let r = pop_own l index p in
      (r.0 ≡ is_some (first (own_values p)))
      × (own_values r.1.push ≡ rest_of (own_values p))
      × (r.1.deleted ≡ l.deleted)
      × (r.1.tail_observed ≡ l.tail_observed)
pop_own_lem l index no_write e = (refl, rw e refl, refl, refl)
pop_own_lem l index (one x false) e = (refl, refl, refl, refl)
pop_own_lem l index (one x true) e = (refl, rw e refl, refl, refl)
pop_own_lem l index (many []) e = (refl, rw e refl, refl, refl)
pop_own_lem l index (many (x ∷ xs)) e = (refl, refl, refl, refl)

front_own_lem : (p : PushItem) → front_own p ≡ first (own_values p)
front_own_lem no_write = refl
front_own_lem (one x false) = refl
front_own_lem (one x true) = refl
front_own_lem (many []) = refl
front_own_lem (many (x ∷ xs)) = refl

HasPopped-same :
    {size : ℕ} {q : Queue} {l l' : Local} {d : ℕ}
    → l'.deleted ≡ l.deleted
    → HasPopped size q l d
    → HasPopped size q l' d
HasPopped-same {size} {q} same h = record {
  few = h.few;
  gone = λ i lt. ap (λ (f : ℕ → Bool). f (place size q.head i)) same ∙ h.gone i lt;
  left = λ i le lt. ap (λ (f : ℕ → Bool). f (place size q.head i)) same ∙ h.left i le lt;
}

-- What a pop of the transaction does: it tells whether there was an element, and takes the first one away.
-- An answer from the queue rests on the observed head, any other on the observed tail.
pub record PopsView (size : ℕ) (q : Queue) (before : List ℕ) (r : Bool × Local) : Type 0 where
  pub answer : r.0 ≡ is_some (first before)
  pub popped : ℕ
  pub has_popped : HasPopped size q r.1 popped
  pub after : view size q r.1 popped ≡ rest_of before
  pub observed : ((r.1.head_observed ≡ true) × (r.1.head_write ≡ true)) ⊎ (r.1.tail_observed ≡ true)

-- `transPop` is the pop of a list. In a queue whose indices are in range, for a transaction that has popped
-- its first `d` elements, the loop ends within `size` rounds; the call returns true exactly if the
-- transaction sees an element, first those that are left in the queue and then its own, and takes the
-- first one away.
pub trans_pop_lem :
    (size : ℕ) (q : Queue) (l : Local) (d : ℕ)
    → IsQueue size q
    → HasPopped size q l d
    → (r : Bool × Local) × (trans_pop size q l ≡ some r) × PopsView size q (view size q l d) r
unfolding trans_pop
trans_pop_lem size q l d v h =
    let at : place size q.head 0 ≡ q.head = ground (arith, v.head_in) in
    let run =
      pop_from-popped_at size q v l d h size 0 (omega arith)
        (omega (arith, h.few, count-lt size q v)) in
    (
      popped_at size q v l d h,
      ap (pop_from size q l size) (sym at) ∙ run,
      elim (Bool-cases (d == count size q)) [
        | inl end ↦
            let o = pop_own_lem (record l { tail_observed = true }) q.tail l.push refl in
            let none_left = slots_from-end size q v l d h end in
            rw end (record {
              answer = rw none_left o.0;
              popped = d;
              has_popped = HasPopped-same o.2 h;
              after = rw none_left o.1;
              observed = inr o.3;
            })
        | inr off ↦
            let some_left = slots_from-left size q v l d h off in
            rw off (record {
              answer = rw some_left refl;
              popped = d + 1;
              has_popped = HasPopped-slot size q v l d h off;
              after = rw some_left refl;
              observed = inl (refl, refl);
            })
      ],
    )

-- `transFront` returns the first element that the transaction sees, those that are left in the queue
-- before its own, and nothing if it sees none; what it sees stays. The loop ends within `size` rounds.
pub trans_front_lem :
    (size : ℕ) (q : Queue) (l : Local) (d : ℕ)
    → IsQueue size q
    → HasPopped size q l d
    → (u : Local) × (trans_front size q l ≡ some (first (view size q l d), u))
      × HasPopped size q u d
      × (view size q u d ≡ view size q l d)
unfolding trans_front
trans_front_lem size q l d v h =
    let at : place size q.head 0 ≡ q.head = ground (arith, v.head_in) in
    let run =
      front_from-front_at size q v l d h size 0 (omega arith)
        (omega (arith, h.few, count-lt size q v)) in
    elim (Bool-cases (d == count size q)) [
      | inl end ↦
          let none_left = slots_from-end size q v l d h end in
          (
            record l { tail_observed = true },
            ap (front_from size q l size) (sym at)
                ∙ run
                ∙ rw (end, none_left, front_own_lem l.push) refl,
            HasPopped-same refl h,
            refl,
          )
      | inr off ↦
          let some_left = slots_from-left size q v l d h off in
          (
            record l { head_observed = true },
            ap (front_from size q l size) (sym at) ∙ run ∙ rw (off, some_left) refl,
            HasPopped-same refl h,
            refl,
          )
    ]
