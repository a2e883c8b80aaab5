-- ===== src/Queue/Trans.antt =====
-- What a transaction sees of a queue: `transPush`, `transPop` and `transFront` are the operations of a list.
use sto_layout.Base.{
  ℕ, zero, suc, ◌+◌, ◌-◌, ◌≤◌, ◌<◌, ◌≡◌, refl, sym, ◌∙◌, ap, Bool, true, false, ◌==◌, ==_self,
  Bool-cases, inl, inr, if◌then◌else◌, Option, none, some, List, [], ◌∷◌, ◌++◌, append_assoc, arith,
}
use sto_layout.Queue.{
  Queue, PushItem, no_write, one, many, Local, pushed, trans_push, pop_at_tail, pop_slot, pop_from,
  front_own, front_from,
}
use sto_layout.Queue.View.{
  IsQueue, place, count, slots_from, next-place, place-ne, place-tail, count-lt, place-ne-tail,
}

-- The values that the transaction has pushed and not popped.
abbrev pub own_values : PushItem → List ℕ
own_values no_write = []
own_values (one x false) = x ∷ []
own_values (one x true) = []
own_values (many xs) = xs

-- The transaction has popped the first `d` elements of the queue.
pub record HasPopped (size : ℕ) (q : Queue) (l : Local) (d : ℕ) : Type 0 where
  pub few : d ≤ count size q
  pub gone : (i : ℕ) → i < d → l.deleted (place size q.head i) ≡ true
  pub left : (i : ℕ) → d ≤ i → i < count size q → l.deleted (place size q.head i) ≡ false

-- What is left of the queue for it, and its own values.
abbrev pub view : ℕ → Queue → Local → ℕ → List ℕ
view size q l d = slots_from size q (count size q - d) d ++ own_values l.push

own_values-pushed : (p : PushItem) (v : ℕ) → own_values (pushed p v) ≡ own_values p ++ (v ∷ [])
own_values-pushed no_write v = refl
own_values-pushed (one x false) v = refl
own_values-pushed (one x true) v = refl
own_values-pushed (many xs) v = refl

-- `transPush` puts its value at the end of what the transaction sees.
pub trans_push-view :
    (size : ℕ) (q : Queue) (l : Local) (v d : ℕ)
    → HasPopped size q l d
    → HasPopped size q (trans_push l v) d
      × (view size q (trans_push l v) d ≡ view size q l d ++ (v ∷ []))
unfolding trans_push
trans_push-view size q l v d h = (
  record { few = h.few; gone = h.gone; left = h.left },
  ap (◌++◌ (slots_from size q (count size q - d) d)) (own_values-pushed l.push v)
      ∙ sym (append_assoc (slots_from size q (count size q - d) d) (own_values l.push) (v ∷ [])),
)

-- The first element of a list, if there is one, and the others.
abbrev pub first : List ℕ → Option ℕ
first [] = none
first (x ∷ xs) = some x

abbrev pub rest_of : List ℕ → List ℕ
rest_of [] = []
rest_of (x ∷ xs) = xs

abbrev pub is_some : Option ℕ → Bool
is_some none = false
is_some (some x) = true

-- The loops of `transPop` and `transFront` end at the first place that is left.
module _ (size : ℕ) (q : Queue) (v : IsQueue size q) (l : Local) (d : ℕ)
    (h : HasPopped size q l d) where
  abbrev pub popped_at : Bool × Local
  popped_at = if d == count size q then pop_at_tail l q.tail else pop_slot l (place size q.head d)

  abbrev pub front_at : Option ℕ × Local
  front_at =
      if d == count size q
      then (front_own l.push, record l { tail_observed = true })
      else (some (q.slots (place size q.head d)), record l { head_observed = true })

  pub place-end : (d == count size q) ≡ true → (place size q.head d ≡ q.tail)
  place-end at = let e : d ≡ count size q = ground (arith, at) in rw e (place-tail size q v)

  pub place-left :
      (d == count size q) ≡ false
      → ((place size q.head d == q.tail) ≡ false) × (l.deleted (place size q.head d) ≡ false)
  place-left off =
      let lt : d < count size q = ground (arith, off, h.few) in
      (place-ne-tail size q d v lt, h.left d (omega arith) lt)

  pub pop_from-popped_at :
      (fuel i : ℕ)
      → i ≤ d
      → d < i + fuel
      → pop_from size q l fuel (place size q.head i) ≡ some popped_at
  unfolding pop_from
  pop_from-popped_at zero i le lt = absurd (omega (arith, le, lt))
  pop_from-popped_at (suc fuel) i le lt = elim (Bool-cases (i == d)) [
    | inl at ↦
        let e : i ≡ d = ground (arith, at) in
        rw e (elim (Bool-cases (d == count size q)) [
          | inl end ↦ rw (end, place-end end, ==_self) refl
          | inr off ↦ rw (off, (place-left off).0, (place-left off).1) refl
        ])
    | inr before ↦
        let lt' : i < d = ground (arith, before, le) in
        let on = pop_from-popped_at fuel (i + 1) (omega (arith, lt')) (omega (arith, lt)) in
        rw
          (
            place-ne-tail size q i v (omega (arith, lt', h.few)),
            h.gone i lt',
            next-place size q.head i v.head_in (omega (arith, lt', h.few, count-lt size q v)),
          )
          on
  ]

  pub front_from-front_at :
      (fuel i : ℕ)
      → i ≤ d
      → d < i + fuel
      → front_from size q l fuel (place size q.head i) ≡ some front_at
  unfolding front_from
  front_from-front_at zero i le lt = absurd (omega (arith, le, lt))
  front_from-front_at (suc fuel) i le lt = elim (Bool-cases (i == d)) [
    | inl at ↦
        let e : i ≡ d = ground (arith, at) in
        rw e (elim (Bool-cases (d == count size q)) [
          | inl end ↦ rw (end, place-end end, ==_self) refl
          | inr off ↦ rw (off, (place-left off).0, (place-left off).1) refl
        ])
    | inr before ↦
        let lt' : i < d = ground (arith, before, le) in
        let on = front_from-front_at fuel (i + 1) (omega (arith, lt')) (omega (arith, lt)) in
        rw
          (
            place-ne-tail size q i v (omega (arith, lt', h.few)),
            h.gone i lt',
            next-place size q.head i v.head_in (omega (arith, lt', h.few, count-lt size q v)),
          )
          on
  ]

  pub slots_from-left :
      (d == count size q) ≡ false
      → slots_from size q (count size q - d) d
        ≡ q.slots (place size q.head d) ∷ slots_from size q (count size q - (d + 1)) (d + 1)
  slots_from-left off =
      let e : count size q - d ≡ suc (count size q - (d + 1)) = ground (arith, off, h.few) in
      rw e refl

  pub slots_from-end : (d == count size q) ≡ true → slots_from size q (count size q - d) d ≡ []
  slots_from-end at = let e : count size q - d ≡ 0 = ground (arith, at) in rw e refl

  pub HasPopped-slot :
      (d == count size q) ≡ false → HasPopped size q (pop_slot l (place size q.head d)).1 (d + 1)
  HasPopped-slot off = record {
    few = ground (arith, off, h.few);
    gone = λ i lt. ground (arith, h.gone i, lt);
    left = λ i le lt. ground (
      arith,
      h.left i (omega (arith, le)) lt,
      place-ne size q.head d i v.head_in (omega (arith, le)) (omega (arith, lt, count-lt size q v)),
    );
  }
