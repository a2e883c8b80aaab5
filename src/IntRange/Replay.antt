-- ===== src/IntRange/Replay.antt =====
-- A comparison through a range would come out the same for every value that the range still allows.
use sto_layout.Base.{
  ℕ, ◌+◌, ◌-◌, ◌%◌, ◌^◌, ◌<◌, ◌≡◌, ap, ◌∙◌, Bool, true, not, ◌==◌, ltb, leb, Option, none, some,
  max, min, arith, Bool-cases, inl, inr,
}
use sto_layout.IntRange.{
  TIntRange, verify, observe_test_eq, observe_lt, observe_le, TIntRangeProxy, touch, answer,
  negated, eq, lt, le, gt, ne, less_delta,
}

-- What an observation of `value` by the test does to a range: it succeeds, the value stays in the range,
-- the range only narrows, and the test answers for every value that is left what it answered for this one.
pub record Narrows (test : ℕ → Bool) (r : TIntRange) (value : ℕ) (r' : TIntRange) : Type 0 where
  pub kept : verify r' value ≡ true
  pub within : (w : ℕ) → verify r' w ≡ true → verify r w ≡ true
  pub same : (w : ℕ) → verify r' w ≡ true → test w ≡ test value

-- The ends of a range moved to the value observed, or beyond it.
abbrev below : TIntRange → ℕ → TIntRange
below r b = record r { second = min r.second b }

abbrev above : TIntRange → ℕ → TIntRange
above r b = record r { first = max r.first b }

module _ (r : TIntRange) (value c : ℕ) (ok : verify r value ≡ true) (vb : value < 2 ^ 64)
    (cb : c < 2 ^ 64) where
  -- `c - 1` and `c + 1` on words, on the sides of `value` where they are used.
  less : value < c → (c + 2 ^ 64 - 1) % 2 ^ 64 ≡ c - 1
  less h = omega arith

  more : c < value → (c + 1) % 2 ^ 64 ≡ c + 1
  more h = omega arith

  pub observe_lt-Narrows :
      (r' : TIntRange) × (observe_lt r c (ltb value c) ≡ some r')
      × Narrows (λ w. ltb w c) r value r'
  unfolding observe_lt verify
  observe_lt-Narrows = elim (Bool-cases (ltb value c)) [
    | inl yes_lt ↦
        let m = less (ground (arith, yes_lt)) in
        rw (yes_lt, m)
          (
            below r (c - 1),
            ground (arith, ok, yes_lt),
            record {
              kept = ground (arith, ok, yes_lt);
              within = λ w h. ground (arith, h);
              same = λ w h. ground (arith, h, yes_lt);
            },
          )
    | inr not_lt ↦ rw not_lt (
      above r c,
      ground (arith, ok, not_lt),
      record {
        kept = ground (arith, ok, not_lt);
        within = λ w h. ground (arith, h);
        same = λ w h. ground (arith, h, not_lt);
      },
    )
  ]

  pub observe_le-Narrows :
      (r' : TIntRange) × (observe_le r c (leb value c) ≡ some r')
      × Narrows (λ w. leb w c) r value r'
  unfolding observe_le verify
  observe_le-Narrows = elim (Bool-cases (leb value c)) [
    | inl yes_le ↦ rw yes_le (
      below r c,
      ground (arith, ok, yes_le),
      record {
        kept = ground (arith, ok, yes_le);
        within = λ w h. ground (arith, h);
        same = λ w h. ground (arith, h, yes_le);
      },
    )
    | inr not_le ↦
        let m = more (ground (arith, not_le)) in
        rw (not_le, m)
          (
            above r (c + 1),
            ground (arith, ok, not_le),
            record {
              kept = ground (arith, ok, not_le);
              within = λ w h. ground (arith, h);
              same = λ w h. ground (arith, h, not_le);
            },
          )
  ]

  pub observe_test_eq-Narrows :
      (r' : TIntRange) × (observe_test_eq r value c ≡ some r') × Narrows (λ w. w == c) r value r'
  unfolding observe_test_eq verify
  observe_test_eq-Narrows = elim (Bool-cases (value == c)) [
    | inl same ↦ rw same (
      above (below r value) value,
      ground (arith, ok, same),
      record {
        kept = ground (arith, ok, same);
        within = λ w h. ground (arith, h);
        same = λ w h. ground (arith, h, same);
      },
    )
    | inr other ↦ elim (Bool-cases (ltb value c)) [
      | inl yes_lt ↦
          let m = less (ground (arith, yes_lt)) in
          rw (other, yes_lt, m)
            (
              below r (c - 1),
              ground (arith, ok, yes_lt),
              record {
                kept = ground (arith, ok, yes_lt);
                within = λ w h. ground (arith, h);
                same = λ w h. ground (arith, h, yes_lt);
              },
            )
      | inr not_lt ↦
          let m = more (ground (arith, other, not_lt)) in
          rw (other, not_lt, m)
            (
              above r (c + 1),
              ground (arith, ok, other, not_lt),
              record {
                kept = ground (arith, ok, other, not_lt);
                within = λ w h. ground (arith, h);
                same = λ w h. ground (arith, h, other, not_lt);
              },
            )
    ]
  ]

-- How a comparison through a proxy ends: with its answer and a narrower range, in which the test gives that
-- answer for every value.
abbrev pub Replays :
    TIntRange → TIntRangeProxy → (ℕ → Bool) → Option (Option TIntRange × Bool) → Type 0
Replays r p test result =
    (r' : TIntRange) × (result ≡ some (some r', test p.original)) × Narrows test r p.original r'

not-leb : (m n : ℕ) → not (leb m n) ≡ ltb n m
not-leb m n = ground arith

touch-some :
    (f : TIntRange → Option TIntRange) (r : TIntRange) {r' : TIntRange} (b : Bool)
    → f r ≡ some r'
    → answer (touch (some r) f) b ≡ some (some r', b)
unfolding touch
touch-some f r b e = ap (λ o. answer (elim o [ none ↦ none | some r' ↦ some (some r') ]) b) e

-- The comparisons of a proxy whose range holds the original value: `==`, `<`, `<=` and, by negation, `>` do
-- not abort, answer what the original value less the offset gives, and leave a narrower range that still
-- holds the original value and all of whose values would have given the same answer.
pub comparisons_replay :
    (p : TIntRangeProxy) (r : TIntRange) (x : ℕ)
    → p.range ≡ some r
    → verify r p.original ≡ true
    → p.original < 2 ^ 64
    → Replays r p (λ w. w == less_delta p x) (eq p x)
      × Replays r p (λ w. ltb w (less_delta p x)) (lt p x)
      × Replays r p (λ w. leb w (less_delta p x)) (le p x)
      × Replays r p (λ w. ltb (less_delta p x) w) (gt p x)
unfolding eq lt le gt touch
comparisons_replay p r x at ok vb =
    let y = less_delta p x in
    let cb : y < 2 ^ 64 = omega arith in
    let (re, ee, ne) = observe_test_eq-Narrows r p.original y ok vb cb in
    let (rl, el, nl) = observe_lt-Narrows r p.original y ok vb cb in
    let (rb, eb, nb) = observe_le-Narrows r p.original y ok vb cb in
    rw at (
      (re, touch-some (λ o. observe_test_eq o p.original y) r (p.original == y) ee, ne),
      (rl, touch-some (λ o. observe_lt o y (ltb p.original y)) r (ltb p.original y) el, nl),
      (rb, touch-some (λ o. observe_le o y (leb p.original y)) r (leb p.original y) eb, nb),
      (
        rb,
        ap negated (touch-some (λ o. observe_le o y (leb p.original y)) r (leb p.original y) eb)
            ∙ ap (λ b. some (some rb, b)) (not-leb p.original y),
        record { kept = nb.kept; within = nb.within; same = λ w h. ground (arith, nb.same w h) },
      ),
    )
