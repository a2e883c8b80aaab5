-- ===== src/Counter/Replay.antt =====
-- A predicate that holds at commit time makes the calls replayable on the value of that time.
use sto_layout.Base.{
  ℕ, ◌+◌, ◌-◌, ◌%◌, ◌^◌, ◌<◌, ◌≡◌, refl, ap, subst, sym, ◌∙◌, true, false, ◌&&◌, ◌==◌, ltb, leb,
  Option, none, some, List, [], ◌∷◌, All, arith, Bool-cases, Option-cases, inl, inr,
}
use sto_layout.Tid.{u64}
use sto_layout.IntRange
use sto_layout.IntRange.{TIntRange, unconstrained, verify, nonempty}
use sto_layout.IntRange.Replay.{observe_lt-Narrows, observe_le-Narrows, observe_test_eq-Narrows}
use sto_layout.Counter.{
  CounterItem, fresh, write_value, range_of, with_range, answered, read, assign, plus, minus, delta,
  less_delta, observe_eq, observe_lt, observe_le, verified, Op, reading, assigning, adding,
  subtracting, testing_eq, testing_lt, testing_le, Answer, done, number, truth, wrapped, call, run,
}
use sto_layout.Counter.Install.{run-step}

-- What an observation at `s` tells of any value that the new range allows.
abbrev Keeps : {A : Type 0} → (ℕ → A) → TIntRange → ℕ → TIntRange → Type 0
Keeps test r s r' = (w : ℕ) → verify r' w ≡ true → (verify r w ≡ true) × (test w ≡ test s)

nonempty-inv : (r r' : TIntRange) → nonempty r ≡ some r' → r ≡ r'
nonempty-inv r r' e = elim (Bool-cases (ltb r.second r.first)) [
  | inl out ↦ absurd (ground (arith, rw out at e))
  | inr fine ↦ ground (arith, rw fine at e)
]

-- The ends of a range that an observation leaves.
ends : {r r' : TIntRange} → nonempty r ≡ some r' → (r'.first ≡ r.first) × (r'.second ≡ r.second)
ends {r} {r'} e =
    let n = nonempty-inv r r' e in
    (sym (ap (λ (x : TIntRange). x.first) n), sym (ap (λ (x : TIntRange). x.second) n))

observe_lt-Keeps :
    (r r' : TIntRange) (s c : ℕ)
    → s < 2 ^ 64
    → c < 2 ^ 64
    → IntRange.observe_lt r c (ltb s c) ≡ some r'
    → Keeps (λ w. ltb w c) r s r'
unfolding IntRange.observe_lt verify
observe_lt-Keeps r r' s c sb cb e w h = elim (Bool-cases (ltb s c)) [
  | inl low ↦
      let m : (c + 2 ^ 64 - 1) % 2 ^ 64 ≡ c - 1 = ground (arith, low, cb) in
      let n = ends (rw (low, m, IntRange.observe_lt) at e) in ground (arith, h, n.0, n.1, low)
  | inr high ↦
      let n = ends (rw (high, IntRange.observe_lt) at e) in ground (arith, h, n.0, n.1, high)
]

observe_le-Keeps :
    (r r' : TIntRange) (s c : ℕ)
    → s < 2 ^ 64
    → c < 2 ^ 64
    → IntRange.observe_le r c (leb s c) ≡ some r'
    → Keeps (λ w. leb w c) r s r'
unfolding IntRange.observe_le verify
observe_le-Keeps r r' s c sb cb e w h = elim (Bool-cases (leb s c)) [
  | inl low ↦ let n = ends (rw (low, IntRange.observe_le) at e) in ground (arith, h, n.0, n.1, low)
  | inr high ↦
      let m : (c + 1) % 2 ^ 64 ≡ c + 1 = ground (arith, high, sb) in
      let n = ends (rw (high, m, IntRange.observe_le) at e) in ground (arith, h, n.0, n.1, high)
]

observe_test_eq-Keeps :
    (r r' : TIntRange) (s c : ℕ)
    → s < 2 ^ 64
    → c < 2 ^ 64
    → IntRange.observe_test_eq r s c ≡ some r'
    → Keeps (λ w. w == c) r s r'
unfolding IntRange.observe_test_eq verify
observe_test_eq-Keeps r r' s c sb cb e w h = elim (Bool-cases (s == c)) [
  | inl same ↦
      let n = ends (rw (same, IntRange.observe_test_eq) at e) in ground (arith, h, n.0, n.1, same)
  | inr other ↦ elim (Bool-cases (ltb s c)) [
    | inl low ↦
        let m : (c + 2 ^ 64 - 1) % 2 ^ 64 ≡ c - 1 = ground (arith, low, cb) in
        let n = ends (rw (other, low, m, IntRange.observe_test_eq) at e) in
        ground (arith, h, n.0, n.1, low)
    | inr high ↦
        let m : (c + 1) % 2 ^ 64 ≡ c + 1 = ground (arith, high, other, sb) in
        let n = ends (rw (other, high, m, IntRange.observe_test_eq) at e) in
        ground (arith, h, n.0, n.1, high, other)
  ]
]

observe-Keeps :
    {A : Type 0} (test : ℕ → A) (r r' : TIntRange) (s : ℕ)
    → IntRange.observe r s ≡ some r'
    → Keeps test r s r'
unfolding IntRange.observe verify
observe-Keeps test r r' s e w h = elim (Bool-cases (leb r.first s && leb s r.second)) [
  | inl inside ↦
      let n = rw (inside, IntRange.observe) at e in
      let at : w ≡ s = ground (arith, h, n) in (rw at inside, ap test at)
  | inr outside ↦ absurd (ground (arith, rw (outside, IntRange.observe) at e))
]

-- The value `w` is in the range of the item.
abbrev InRange : Option TIntRange → ℕ → Type 0
InRange p w = verify (range_of p) w ≡ true

-- A call that has come out on some value would come out the same on `w`.
record Replays (it it' : CounterItem) (op : Op) (a : Answer) (w : ℕ) : Type 0 where
  before : InRange it.predicate w
  again :
      (p : Option TIntRange)
      → InRange p w
      → (p' : Option TIntRange) × (call (record it { predicate = p }) w op
          ≡ some (record it' { predicate = p' }, a))
        × InRange p' w

first_of : Option (CounterItem × Answer) → CounterItem → CounterItem
first_of none d = d
first_of (some (it, a)) d = it

answer_of : Option (CounterItem × Answer) → Answer → Answer
answer_of none d = d
answer_of (some (it, a)) d = a

module _ {A : Type 0} (f : A → Answer) (obs : TIntRange → ℕ → Option TIntRange) (test : ℕ → A)
    (base : ℕ)
    (keeps : (r r' : TIntRange) (s : ℕ) → s < 2 ^ 64 → obs r s ≡ some r' → Keeps test r s r')
    (narrows : (r : TIntRange) (w : ℕ)
      → w < 2 ^ 64
      → verify r w ≡ true
      → (r' : TIntRange) × (obs r w ≡ some r') × (verify r' w ≡ true))
    (it : CounterItem) (op : Op)
    (shape : (p : Option TIntRange) (v : ℕ)
      → let jt = record it { predicate = p } in
        (it.assigned ≡ true → call jt v op ≡ some (jt, f (test base)))
        × (it.assigned ≡ false
            → call jt v op
              ≡ wrapped f (answered (with_range jt (obs (range_of p) v)) (test v)))) where
  observation-Replays :
      (it' : CounterItem) (v w : ℕ) (a : Answer)
      → v < 2 ^ 64
      → w < 2 ^ 64
      → call it v op ≡ some (it', a)
      → InRange it'.predicate w
      → Replays it it' op a w
  unfolding first_of answer_of
  observation-Replays it' v w a vb wb e h = elim (Bool-cases it.assigned) [
    | inl asg ↦
        let e' = sym ((shape it.predicate v).0 asg) ∙ e in
        let at : it ≡ it' = ap (λ o. first_of o it) e' in
        let ta : f (test base) ≡ a = ap (λ o. answer_of o a) e' in
        record { before = rw at h; again = λ p k. (p, (shape p w).0 asg ∙ rw (← at, ← ta) refl, k) }
    | inr una ↦ elim (Option-cases (obs (range_of it.predicate) v)) [
      | inl out ↦ absurd (ground (arith, rw out at (sym ((shape it.predicate v).1 una) ∙ e)))
      | inr (r', got) ↦
          let e' = rw got at (sym ((shape it.predicate v).1 una) ∙ e) in
          let at : record it { predicate = some r' } ≡ it' = ap (λ o. first_of o it) e' in
          let ta : f (test v) ≡ a = ap (λ o. answer_of o a) e' in
          let k' =
            keeps (range_of it.predicate) r' v vb got w
              (subst (λ (x : CounterItem). InRange x.predicate w) (sym at) h) in
          record {
            before = k'.0;
            again = λ p k.
                let (q, on, in_q) = narrows (range_of p) w wb k in
                (some q, (shape p w).1 una ∙ rw (on, ← at, ← ta, k'.1) refl, in_q);
          }
    ]
  ]

word_less : (n : ℕ) → u64 n < 2 ^ 64
word_less n = omega arith

unconstrained-all : (w : ℕ) → w < 2 ^ 64 → verify unconstrained w ≡ true
unfolding unconstrained verify
unconstrained-all w h = ground arith

observe-narrows :
    (r : TIntRange) (w : ℕ)
    → verify r w ≡ true
    → (r' : TIntRange) × (IntRange.observe r w ≡ some r') × (verify r' w ≡ true)
unfolding IntRange.observe verify
observe-narrows r w k = (record { first = w; second = w }, rw k refl, ground arith)

call-Replays :
    (it it' : CounterItem) (op : Op) (v w : ℕ) (a : Answer)
    → v < 2 ^ 64
    → w < 2 ^ 64
    → call it v op ≡ some (it', a)
    → InRange it'.predicate w
    → Replays it it' op a w
unfolding call read assign plus minus observe_eq observe_lt observe_le first_of answer_of
call-Replays it it' reading v w a vb wb e h =
    observation-Replays number IntRange.observe (λ n. u64 (n + write_value it.written)) 0
      (λ r r' s sb. observe-Keeps (λ n. u64 (n + write_value it.written)) r r' s)
      (λ r x xb. observe-narrows r x) it reading (λ p u. (λ z. rw z refl, λ z. rw z refl)) it' v w a
      vb wb e h
call-Replays it it' (assigning x) v w a vb wb e h =
    let at : assign it x ≡ it' = ap (λ o. first_of o it) e in
    let ta : done ≡ a = ap (λ o. answer_of o a) e in
    record {
      before = subst (λ (y : CounterItem). InRange y.predicate w) (sym at) h;
      again = λ p k. (p, rw (← at, ← ta) refl, k);
    }
call-Replays it it' (adding d) v w a vb wb e h =
    let at : plus it d ≡ it' = ap (λ o. first_of o it) e in
    let ta : done ≡ a = ap (λ o. answer_of o a) e in
    record {
      before = subst (λ (y : CounterItem). InRange y.predicate w) (sym at) h;
      again = λ p k. (p, rw (← at, ← ta) refl, k);
    }
call-Replays it it' (subtracting d) v w a vb wb e h =
    let at : minus it d ≡ it' = ap (λ o. first_of o it) e in
    let ta : done ≡ a = ap (λ o. answer_of o a) e in
    record {
      before = subst (λ (y : CounterItem). InRange y.predicate w) (sym at) h;
      again = λ p k. (p, rw (← at, ← ta) refl, k);
    }
call-Replays it it' (testing_eq x) v w a vb wb e h =
    let c = less_delta it x in
    observation-Replays truth (λ r s. IntRange.observe_test_eq r s c) (λ s. s == c)
      (write_value it.written)
      (λ r r' s sb. observe_test_eq-Keeps r r' s c sb (word_less (x + 2 ^ 64 - delta it)))
      (λ r u ub k.
        let (r', o, n) = observe_test_eq-Narrows r u c k ub (word_less (x + 2 ^ 64 - delta it)) in
        (r', o, n.kept))
      it (testing_eq x) (λ p u. (λ z. rw z refl, λ z. rw z refl)) it' v w a vb wb e h
call-Replays it it' (testing_lt x) v w a vb wb e h =
    let c = less_delta it x in
    observation-Replays truth (λ r s. IntRange.observe_lt r c (ltb s c)) (λ s. ltb s c)
      (write_value it.written)
      (λ r r' s sb. observe_lt-Keeps r r' s c sb (word_less (x + 2 ^ 64 - delta it)))
      (λ r u ub k.
        let (r', o, n) = observe_lt-Narrows r u c k ub (word_less (x + 2 ^ 64 - delta it)) in
        (r', o, n.kept))
      it (testing_lt x) (λ p u. (λ z. rw z refl, λ z. rw z refl)) it' v w a vb wb e h
call-Replays it it' (testing_le x) v w a vb wb e h =
    let c = less_delta it x in
    observation-Replays truth (λ r s. IntRange.observe_le r c (leb s c)) (λ s. leb s c)
      (write_value it.written)
      (λ r r' s sb. observe_le-Keeps r r' s c sb (word_less (x + 2 ^ 64 - delta it)))
      (λ r u ub k.
        let (r', o, n) = observe_le-Narrows r u c k ub (word_less (x + 2 ^ 64 - delta it)) in
        (r', o, n.kept))
      it (testing_le x) (λ p u. (λ z. rw z refl, λ z. rw z refl)) it' v w a vb wb e h

-- The same calls, each on `w`.
abbrev pub all_on : ℕ → List (ℕ × Op) → List (ℕ × Op)
all_on w [] = []
all_on w ((v, op) ∷ ops) = (w, op) ∷ all_on w ops

run-all_on :
    (ops : List (ℕ × Op)) (it it' : CounterItem) (answers : List Answer) (w : ℕ)
    → All (λ q. q.0 < 2 ^ 64) ops
    → w < 2 ^ 64
    → run it ops ≡ some (it', answers)
    → InRange it'.predicate w
    → InRange it.predicate w
      × ((p : Option TIntRange)
          → InRange p w
          → (p' : Option TIntRange) × (run (record it { predicate = p }) (all_on w ops)
              ≡ some (record it' { predicate = p' }, answers))
            × InRange p' w)
unfolding run
run-all_on [] it it' answers w vb wb e h =
    let at : it ≡ it' = ground (arith, e) in
    let ta : answers ≡ [] = ground (arith, e) in
    (
      subst (λ (y : CounterItem). InRange y.predicate w) (sym at) h,
      λ p k. (p, rw (← at, ta) refl, k),
    )
run-all_on ((v, op) ∷ ops) it it' answers w vb wb e h =
    let (jt, a, rest, got, on, all) = run-step it v op ops e in
    let r = run-all_on ops jt it' rest w vb.1 wb on h in
    let c = call-Replays it jt op v w a vb.0 wb got r.0 in
    (
      c.before,
      λ p k.
          let (q, cq, kq) = c.again p k in
          let (q', rq, kq') = r.1 q kq in (q', rw (cq, run, rq, all) refl, kq'),
    )

verified-InRange :
    (it : CounterItem) (w : ℕ) → w < 2 ^ 64 → verified it w ≡ true → InRange it.predicate w
unfolding verified
verified-InRange it w wb h = elim (Option-cases it.predicate) [
  | inl out ↦ rw out (unconstrained-all w wb)
  | inr (r, got) ↦ rw got (rw got at h)
]

-- A transaction of calls on a counter is serializable at its commit. If calls on a new item, each on
-- whatever value of 64 bits the counter then had, did not abort, and if the predicate that they leave
-- holds for the value `w` that the counter has at commit time, then the same calls, all made on `w`, do
-- not abort either and give the same answers.
pub run_replays :
    (it : CounterItem) (ops : List (ℕ × Op)) (answers : List Answer) (w : ℕ)
    → All (λ q. q.0 < 2 ^ 64) ops
    → w < 2 ^ 64
    → run fresh ops ≡ some (it, answers)
    → verified it w ≡ true
    → (jt : CounterItem) × (run fresh (all_on w ops) ≡ some (jt, answers))
run_replays it ops answers w vb wb e h =
    let r = run-all_on ops fresh it answers w vb wb e (verified-InRange it w wb h) in
    let (p, on, k) = r.1 none (unconstrained-all w wb) in (record it { predicate = p }, on)
