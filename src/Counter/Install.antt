-- ===== src/Counter/Install.antt =====
-- A commit does to a counter what the calls of the transaction say, whatever value it finds then.
use sto_layout.Base.{
  ℕ, ◌+◌, ◌-◌, ◌^◌, ◌<◌, ◌≡◌, refl, ap, sym, ◌∙◌, Bool, true, false, ◌||◌, if◌then◌else◌, Option,
  none, some, List, [], ◌∷◌, All, arith, Bool-cases, Option-cases, inl, inr,
}
use sto_layout.Tid.{u64}
use sto_layout.IntRange.{TIntRange}
use sto_layout.Counter.{
  CounterItem, fresh, write_value, with_range, answered, read, assign, plus, minus, observe_eq,
  observe_lt, observe_le, installed, Op, reading, assigning, adding, subtracting, testing_eq,
  testing_lt, testing_le, Answer, number, truth, wrapped, call, then_answers, run,
}

-- The value of a counter after a call, as in a plain variable of 64 bits.
abbrev pub value_after : ℕ → Op → ℕ
value_after v reading = v
value_after v (assigning x) = x
value_after v (adding d) = u64 (v + d)
value_after v (subtracting d) = u64 (v + 2 ^ 64 - d)
value_after v (testing_eq x) = v
value_after v (testing_lt x) = v
value_after v (testing_le x) = v

abbrev pub value_after_all : ℕ → List (ℕ × Op) → ℕ
value_after_all v [] = v
value_after_all v ((u, op) ∷ ops) = value_after_all (value_after v op) ops

-- Operands are words.
abbrev pub IsWordOp : Op → Type 0
IsWordOp reading = Unit
IsWordOp (assigning x) = x < 2 ^ 64
IsWordOp (adding d) = d < 2 ^ 64
IsWordOp (subtracting d) = d < 2 ^ 64
IsWordOp (testing_eq x) = x < 2 ^ 64
IsWordOp (testing_lt x) = x < 2 ^ 64
IsWordOp (testing_le x) = x < 2 ^ 64

-- The flags and the write of an item.
pub record IsItem (it : CounterItem) : Type 0 where
  pub either : it.assigned ≡ true → it.delta_bit ≡ false
  pub unwritten : it.assigned ≡ false → it.delta_bit ≡ false → it.written ≡ none

-- The value of the counter as the transaction sees it, over a value `v`.
abbrev pub current : CounterItem → ℕ → ℕ
current it v =
    if it.delta_bit
    then u64 (write_value it.written + v)
    else (if it.assigned then write_value it.written else v)

-- An observation changes neither flags nor write.
record Same (it it' : CounterItem) : Type 0 where
  written : it'.written ≡ it.written
  assigned : it'.assigned ≡ it.assigned
  delta : it'.delta_bit ≡ it.delta_bit

item_of : Option (CounterItem × Answer) → CounterItem → CounterItem
item_of none d = d
item_of (some (it, a)) d = it

wrapped-Same :
    {A : Type 0} (f : A → Answer) (it it' : CounterItem) (o : Option CounterItem) (b : A)
    (a : Answer)
    → ((jt : CounterItem) → o ≡ some jt → Same it jt)
    → wrapped f (answered o b) ≡ some (it', a)
    → Same it it'
unfolding item_of
wrapped-Same f it it' none b a h e = absurd (ground (arith, e))
wrapped-Same f it it' (some jt) b a h e =
    let at : jt ≡ it' = ap (λ o. item_of o it) e in rw (← at) (h jt refl)

noted-Same :
    (it : CounterItem) (o : Option TIntRange) (b : Bool) (jt : CounterItem)
    → (if b then some it else with_range it o) ≡ some jt
    → Same it jt
noted-Same it none true jt e = record {
  written = ground (arith, e);
  assigned = ground (arith, e);
  delta = ground (arith, e);
}
noted-Same it (some r) true jt e = record {
  written = ground (arith, e);
  assigned = ground (arith, e);
  delta = ground (arith, e);
}
noted-Same it none false jt e = absurd (ground (arith, e))
noted-Same it (some r) false jt e = record {
  written = ground (arith, e);
  assigned = ground (arith, e);
  delta = ground (arith, e);
}

-- What a call does to the item, whatever it finds in the counter.
record Follows (it : CounterItem) (v : ℕ) (op : Op) (it' : CounterItem) : Type 0 where
  item : IsItem it'
  value : current it' v ≡ value_after (current it v) op

Same-Follows :
    {it it' : CounterItem}
    → Same it it'
    → IsItem it
    → (v : ℕ) → IsItem it' × (current it' v ≡ current it v)
Same-Follows {it} {it'} s h v = (
  record {
    either = λ a. s.delta ∙ h.either (sym s.assigned ∙ a);
    unwritten = λ a d. s.written ∙ h.unwritten (sym s.assigned ∙ a) (sym s.delta ∙ d);
  },
  rw (s.delta, s.assigned, s.written) refl,
)

assign-Follows : (it : CounterItem) (v x : ℕ) → Follows it v (assigning x) (assign it x)
unfolding assign
assign-Follows it v x = record {
  item = record { either = λ _. refl; unwritten = λ z. absurd (ground (arith, z)) };
  value = refl;
}

plus-Follows :
    (it : CounterItem) (v d : ℕ) → IsItem it → d < 2 ^ 64 → Follows it v (adding d) (plus it d)
unfolding plus
plus-Follows it v d h b = record {
  item = record {
    either = λ a. ground (arith, a, h.either a);
    unwritten = λ a z. absurd (ground (arith, a, z));
  };
  value = elim (Bool-cases it.assigned) [
    | inl a ↦ rw (a, h.either a) refl
    | inr a ↦ elim (Bool-cases it.delta_bit) [
      | inl z ↦ rw (a, z) (omega (arith, b))
      | inr z ↦ rw (a, z, h.unwritten a z) (omega (arith, b))
    ]
  ];
}

minus-Follows :
    (it : CounterItem) (v d : ℕ)
    → IsItem it
    → d < 2 ^ 64
    → Follows it v (subtracting d) (minus it d)
unfolding minus
minus-Follows it v d h b = record {
  item = record {
    either = λ a. ground (arith, a, h.either a);
    unwritten = λ a z. absurd (ground (arith, a, z));
  };
  value = elim (Bool-cases it.assigned) [
    | inl a ↦ rw (a, h.either a) refl
    | inr a ↦ elim (Bool-cases it.delta_bit) [
      | inl z ↦ rw (a, z) (omega (arith, b))
      | inr z ↦ rw (a, z, h.unwritten a z) (omega (arith, b))
    ]
  ];
}

call-Follows :
    (it it' : CounterItem) (u v : ℕ) (op : Op) (a : Answer)
    → IsItem it
    → IsWordOp op
    → call it u op ≡ some (it', a)
    → Follows it v op it'
unfolding call read observe_eq observe_lt observe_le item_of
call-Follows it it' u v reading a h b e =
    let s =
      Same-Follows (wrapped-Same number it it' _ _ a (λ jt. noted-Same it _ it.assigned jt) e) h
        v in
    record { item = s.0; value = s.1 }
call-Follows it it' u v (assigning x) a h b e =
    let at : assign it x ≡ it' = ap (λ o. item_of o it) e in rw (← at) (assign-Follows it v x)
call-Follows it it' u v (adding d) a h b e =
    let at : plus it d ≡ it' = ap (λ o. item_of o it) e in rw (← at) (plus-Follows it v d h b)
call-Follows it it' u v (subtracting d) a h b e =
    let at : minus it d ≡ it' = ap (λ o. item_of o it) e in rw (← at) (minus-Follows it v d h b)
call-Follows it it' u v (testing_eq x) a h b e =
    let s =
      Same-Follows (wrapped-Same truth it it' _ _ a (λ jt. noted-Same it _ it.assigned jt) e) h v in
    record { item = s.0; value = s.1 }
call-Follows it it' u v (testing_lt x) a h b e =
    let s =
      Same-Follows (wrapped-Same truth it it' _ _ a (λ jt. noted-Same it _ it.assigned jt) e) h v in
    record { item = s.0; value = s.1 }
call-Follows it it' u v (testing_le x) a h b e =
    let s =
      Same-Follows (wrapped-Same truth it it' _ _ a (λ jt. noted-Same it _ it.assigned jt) e) h v in
    record { item = s.0; value = s.1 }

then_answers-inv :
    {a : Answer} (o : Option (CounterItem × List Answer)) {r : CounterItem × List Answer}
    → then_answers a o ≡ some r
    → (rest : List Answer) × (o ≡ some (r.0, rest)) × (r.1 ≡ a ∷ rest)
then_answers-inv none e = absurd (ground (arith, e))
then_answers-inv (some (it, rest)) {r} e = (rest, ground (arith, e), ground (arith, e))

pub run-step :
    (it : CounterItem) {it' : CounterItem} (v : ℕ) (op : Op) (ops : List (ℕ × Op))
    {answers : List Answer}
    → run it ((v, op) ∷ ops) ≡ some (it', answers)
    → (jt : CounterItem) × (a : Answer) × (rest : List Answer) × (call it v op ≡ some (jt, a))
      × (run jt ops ≡ some (it', rest))
      × (answers ≡ a ∷ rest)
unfolding run
run-step it {it'} v op ops {answers} e = elim (Option-cases (call it v op)) [
  | inl out ↦ absurd (ground (arith, rw (out, run) at e))
  | inr (r, got) ↦
      let (rest, on, all) = then_answers-inv (run r.0 ops) (rw (got, run) at e) in
      (r.0, r.1, rest, got, on, all)
]

run-current :
    (it it' : CounterItem) (ops : List (ℕ × Op)) (answers : List Answer)
    → IsItem it
    → All (λ p. IsWordOp p.1) ops
    → run it ops ≡ some (it', answers)
    → IsItem it' × ((v : ℕ) → current it' v ≡ value_after_all (current it v) ops)
unfolding run
run-current it it' [] answers h b e =
    let at : it ≡ it' = ground (arith, e) in rw (← at) (h, λ v. refl)
run-current it it' ((u, op) ∷ ops) answers h b e =
    let (jt, a, rest, got, on, all) = run-step it u op ops e in
    let r = run-current jt it' ops rest (call-Follows it jt u u op a h b.0 got).item b.1 on in
    (
      r.0,
      λ v. r.1 v ∙ ap (λ c. value_after_all c ops) (call-Follows it jt u v op a h b.0 got).value,
    )

fresh-IsItem : IsItem fresh
fresh-IsItem = record { either = λ z. refl; unwritten = λ a d. refl }

-- What a commit installs is what the calls make of the value that it finds. After any calls on a new item
-- that did not abort, each on whatever value the counter then had, with operands of 64 bits, and with an
-- assignment, an addition or a subtraction among them, `install` on a value `v` writes what the
-- same calls, one after the other, make of a plain variable with the value `v`.
pub installed_lem :
    (it : CounterItem) (ops : List (ℕ × Op)) (answers : List Answer) (v : ℕ)
    → All (λ p. IsWordOp p.1) ops
    → run fresh ops ≡ some (it, answers)
    → (it.assigned || it.delta_bit) ≡ true
    → installed it v ≡ value_after_all v ops
unfolding installed
installed_lem it ops answers v b e wrote =
    let r = run-current fresh it ops answers fresh-IsItem b e in
    ground (arith, r.1 v, r.0.either, wrote)
