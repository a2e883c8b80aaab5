-- ===== src/Transaction/Version/Bounds.antt =====
-- The bounds of `try_lock`, and the ids that commits take.
use sto_layout.Base.{
  ℕ, zero, suc, ◌+◌, ◌<◌, ◌≤◌, ◌≡◌, refl, Bool, true, false, ◌==◌, ◌||◌, some, arith, Bool-cases,
  inl, inr,
}
use sto_layout.Tid
use sto_layout.Tid.{lock_field, u64, increment_value}
use sto_layout.Transaction.{Transaction}
use sto_layout.Transaction.Version.{try_lock, try_lock_from, commit_tid}

-- A commit has one id: asked twice, `commit_tid` answers the same, and takes from the global counter once.
pub commit_tid_once :
    (t u : Transaction) (id tid tid' other : ℕ)
    → 0 < tid
    → commit_tid t tid ≡ some ((id, u), tid')
    → commit_tid u other ≡ some ((id, u), other)
unfolding commit_tid
commit_tid_once t u id tid tid' other pos e = ground (arith, e, pos)

-- How a run of attempts from number `n` on ends, with `left` more after the first: the last one is within
-- the bound, its word is what `Tid.try_lock` makes of the word that it found, and if it failed with no read
-- in the way, all attempts did.
record Ends (words : ℕ → ℕ) (me : ℕ) (has_read : Bool) (left n : ℕ) (r : ℕ × ℕ × Bool)
    : Type 0 where
  pub early : n ≤ r.0
  pub late : r.0 ≤ n + left
  pub last : (r.1, r.2) ≡ Tid.try_lock (words r.0) me
  pub at_once : has_read ≡ true → r.0 ≡ n
  pub all_failed :
      r.2 ≡ false
      → has_read ≡ false
      → (j : ℕ) → n ≤ j
      → j ≤ n + left
      → (Tid.try_lock (words j) me).1 ≡ false

try_lock_from-Ends :
    (words : ℕ → ℕ) (me : ℕ) (has_read : Bool) (left n : ℕ)
    → Ends words me has_read left n (try_lock_from words me has_read left n)
unfolding try_lock_from
try_lock_from-Ends words me has_read zero n = record {
  early = omega arith;
  late = omega arith;
  last = refl;
  at_once = λ _. refl;
  all_failed = λ failed clear j lo hi. let e : j ≡ n = omega arith in rw e failed;
}
try_lock_from-Ends words me has_read (suc left) n =
    elim (Bool-cases ((Tid.try_lock (words n) me).1 || has_read)) [
      | inl stop ↦ rw stop (record {
        early = omega arith;
        late = omega arith;
        last = refl;
        at_once = λ _. refl;
        all_failed = λ failed clear j lo hi. absurd (ground (arith, stop, failed, clear));
      })
      | inr go ↦
          let rest = try_lock_from-Ends words me has_read left (n + 1) in
          rw go (record {
            early = omega (arith, rest.early);
            late = omega (arith, rest.late);
            last = rest.last;
            at_once = λ read. absurd (ground (arith, go, read));
            all_failed = λ failed clear j lo hi. elim (Bool-cases (j == n)) [
              | inl same ↦ let e : j ≡ n = ground (arith, same) in rw e (ground (arith, go))
              | inr other ↦ rest.all_failed failed clear j (ground (arith, other)) (omega arith)
            ];
          })
    ]

-- `try_lock` of a transaction ends after at most 8 attempts, and after one if the item has a read; it
-- answers what its last attempt did to the word; and if it fails on an item without a read, every one of its
-- 8 attempts failed.
pub try_lock_bounded :
    (words : ℕ → ℕ) (me : ℕ) (has_read : Bool)
    → let r = try_lock words me has_read in
      (r.0 < 8)
      × ((r.1, r.2) ≡ Tid.try_lock (words r.0) me)
      × (has_read ≡ true → r.0 ≡ 0)
      × (r.2 ≡ false → has_read ≡ false → (j : ℕ) → j < 8 → (Tid.try_lock (words j) me).1 ≡ false)
unfolding try_lock
try_lock_bounded words me has_read =
    let ends = try_lock_from-Ends words me has_read 7 0 in
    (
      omega (arith, ends.late),
      ends.last,
      ends.at_once,
      λ failed clear j lt. ends.all_failed failed clear j (omega arith) (omega arith),
    )
