-- ===== src/Rcu/Clean.antt =====
-- Cleaning calls exactly the callbacks that are due, in order, and keeps the others.
use sto_layout.Base.{
  ℕ, ◌≤◌, ◌≡◌, refl, ap, ◌∙◌, Bool, true, false, ◌==◌, if◌then◌else◌, some, List, [], ◌∷◌, ◌++◌,
  length, arith, Bool-cases, inl, inr,
}
use sto_layout.Rcu.{
  TRcuElement, epoch_mark, callback, TRcuGroup, is_before, clean_elements, clean_group,
}
use sto_layout.Rcu.View.{entries, last_epoch, Marked, Filled, IsGroup, group_entries}

-- The callbacks up to the first whose epoch is not before the one given.
unfoldable pub due : ℕ → List (ℕ × ℕ) → List ℕ
due max_epoch [] = []
due max_epoch ((epoch, f) ∷ xs) =
    let rest = due max_epoch xs in if is_before epoch max_epoch then f ∷ rest else []

-- The others.
unfoldable pub kept : ℕ → List (ℕ × ℕ) → List (ℕ × ℕ)
kept max_epoch [] = []
kept max_epoch ((epoch, f) ∷ xs) =
    let rest = kept max_epoch xs in if is_before epoch max_epoch then rest else (epoch, f) ∷ xs

-- What cleaning makes of some elements, from the epoch `now` on.
record Cleans (max_epoch now : ℕ) (es : List TRcuElement) (called : List ℕ)
    (rest : List TRcuElement) : Type 0 where
  calls : called ≡ due max_epoch (entries now es)
  keeps : entries 0 rest ≡ kept max_epoch (entries now es)
  marked : Marked rest
  filled : Filled rest
  last : (length rest == 0) ≡ false → (x : ℕ) → last_epoch x rest ≡ last_epoch now es
  shorter : length rest ≤ length es

-- An epoch and a first callback under it.
clean_elements-mark :
    (max_epoch now epoch f : ℕ) (es : List TRcuElement) (inner : Bool)
    → Filled es
    → (is_before epoch max_epoch ≡ true
        → (r : List ℕ × List TRcuElement) × (clean_elements max_epoch true es ≡ some r)
          × Cleans max_epoch epoch es r.0 r.1)
    → (r : List ℕ × List TRcuElement) × (clean_elements max_epoch inner
          (epoch_mark epoch ∷ callback f ∷ es)
        ≡ some r)
      × Cleans max_epoch now (epoch_mark epoch ∷ callback f ∷ es) r.0 r.1
unfolding clean_elements due kept
clean_elements-mark max_epoch now epoch f es inner h ih =
    elim (Bool-cases (is_before epoch max_epoch)) [
      | inl before ↦
          let (r, e, c) = ih before in
          rw (before, e)
            (
              _,
              refl,
              record {
                calls = rw before (ap (◌∷◌ f) c.calls);
                keeps = rw before c.keeps;
                marked = c.marked;
                filled = c.filled;
                last = c.last;
                shorter = omega (arith, c.shorter);
              },
            )
      | inr later ↦ rw later (
        _,
        refl,
        record {
          calls = rw later refl;
          keeps = rw later refl;
          marked = tt;
          filled = h;
          last = λ _ x. refl;
          shorter = omega arith;
        },
      )
    ]

clean_elements-Cleans :
    (max_epoch now : ℕ) (es : List TRcuElement)
    → Filled es
    → is_before now max_epoch ≡ true
    → (r : List ℕ × List TRcuElement) × (clean_elements max_epoch true es ≡ some r)
      × Cleans max_epoch now es r.0 r.1
unfolding clean_elements due kept
clean_elements-Cleans max_epoch now [] h old = (
  _,
  refl,
  record {
    calls = refl;
    keeps = refl;
    marked = tt;
    filled = tt;
    last = λ z. absurd (ground (arith, z));
    shorter = omega arith;
  },
)
clean_elements-Cleans max_epoch now (callback f ∷ es) h old =
    let (r, e, c) = clean_elements-Cleans max_epoch now es h old in
    rw e (
      _,
      refl,
      record {
        calls = rw old (ap (◌∷◌ f) c.calls);
        keeps = rw old c.keeps;
        marked = c.marked;
        filled = c.filled;
        last = c.last;
        shorter = omega (arith, c.shorter);
      },
    )
clean_elements-Cleans max_epoch now (epoch_mark epoch ∷ []) h old = absurd h
clean_elements-Cleans max_epoch now (epoch_mark epoch ∷ epoch_mark other ∷ es) h old = absurd h
clean_elements-Cleans max_epoch now (epoch_mark epoch ∷ callback f ∷ es) h old =
    clean_elements-mark max_epoch now epoch f es true h (clean_elements-Cleans max_epoch epoch es h)

-- From the start of a group.
clean_elements-start :
    (max_epoch : ℕ) (es : List TRcuElement)
    → Marked es
    → Filled es
    → (r : List ℕ × List TRcuElement) × (clean_elements max_epoch false es ≡ some r)
      × Cleans max_epoch 0 es r.0 r.1
unfolding clean_elements due kept
clean_elements-start max_epoch [] m h = (
  _,
  refl,
  record {
    calls = refl;
    keeps = refl;
    marked = tt;
    filled = tt;
    last = λ z. absurd (ground (arith, z));
    shorter = omega arith;
  },
)
clean_elements-start max_epoch (callback f ∷ es) m h = absurd m
clean_elements-start max_epoch (epoch_mark epoch ∷ []) m h = absurd h
clean_elements-start max_epoch (epoch_mark epoch ∷ epoch_mark other ∷ es) m h = absurd h
clean_elements-start max_epoch (epoch_mark epoch ∷ callback f ∷ es) m h =
    clean_elements-mark max_epoch 0 epoch f es false h (clean_elements-Cleans max_epoch epoch es h)

-- What cleaning makes of a group.
pub record CleansGroup (max_epoch : ℕ) (g : TRcuGroup) (called : List ℕ) (g' : TRcuGroup)
    : Type 0 where
  pub calls : called ≡ due max_epoch (group_entries g)
  pub keeps : group_entries g' ≡ kept max_epoch (group_entries g)
  pub group : IsGroup g'

pub clean_group-CleansGroup :
    (max_epoch : ℕ) (g : TRcuGroup)
    → IsGroup g
    → (r : List ℕ × TRcuGroup) × (clean_group max_epoch g ≡ some r)
      × CleansGroup max_epoch g r.0 r.1
unfolding clean_group
clean_group-CleansGroup max_epoch g v =
    let (r, e, c) = clean_elements-start max_epoch g.e v.marked v.filled in
    rw (e, clean_group)
      (
        _,
        refl,
        record {
          calls = c.calls;
          keeps = c.keeps;
          group = record {
            marked = c.marked;
            filled = c.filled;
            last = λ z now. c.last z now ∙ v.last (ground (arith, z, c.shorter)) 0;
            fits = ground (arith, v.fits, c.shorter);
            room = v.room;
            at_start = λ z. ground (arith, z);
          };
        },
      )

-- Lists of entries one after the other: while all of the first is due, cleaning goes on to the second.
pub due-append :
    (max_epoch : ℕ) (xs ys : List (ℕ × ℕ))
    → kept max_epoch xs ≡ []
    → (due max_epoch (xs ++ ys) ≡ due max_epoch xs ++ due max_epoch ys)
      × (kept max_epoch (xs ++ ys) ≡ kept max_epoch ys)
unfolding due kept
due-append max_epoch [] ys h = (refl, refl)
due-append max_epoch ((epoch, f) ∷ xs) ys h = elim (Bool-cases (is_before epoch max_epoch)) [
  | inl before ↦
      let rest = due-append max_epoch xs ys (ground (arith, h, before)) in
      rw before (ap (◌∷◌ f) rest.0, rest.1)
  | inr later ↦ absurd (ground (arith, h, later))
]

pub due-append_kept :
    (max_epoch : ℕ) (xs ys : List (ℕ × ℕ))
    → (length (kept max_epoch xs) == 0) ≡ false
    → (due max_epoch (xs ++ ys) ≡ due max_epoch xs)
      × (kept max_epoch (xs ++ ys) ≡ kept max_epoch xs ++ ys)
unfolding due kept
due-append_kept max_epoch [] ys h = absurd (ground (arith, h))
due-append_kept max_epoch ((epoch, f) ∷ xs) ys h = elim (Bool-cases (is_before epoch max_epoch)) [
  | inl before ↦
      let rest = due-append_kept max_epoch xs ys (ground (arith, h, before)) in
      rw before (ap (◌∷◌ f) rest.0, rest.1)
  | inr later ↦ rw later (refl, refl)
]

-- A group is empty exactly if nothing is pending in it.
pub entries-ne-empty :
    (es : List TRcuElement)
    → Marked es
    → Filled es
    → (length es == 0) ≡ false
    → (length (entries 0 es) == 0) ≡ false
entries-ne-empty [] m h n = n
entries-ne-empty (callback f ∷ es) m h n = absurd m
entries-ne-empty (epoch_mark epoch ∷ []) m h n = absurd h
entries-ne-empty (epoch_mark epoch ∷ epoch_mark other ∷ es) m h n = absurd h
entries-ne-empty (epoch_mark epoch ∷ callback f ∷ es) m h n = ground arith
