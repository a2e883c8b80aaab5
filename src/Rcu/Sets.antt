-- ===== src/Rcu/Sets.antt =====
-- A whole set: cleaning goes through the groups in order, and the groups that it empties are used again.
use sto_layout.Base.{
  ℕ, ◌≡◌, refl, ◌∙◌, sym, true, false, some, List, [], ◌∷◌, ◌++◌, append_assoc, All, All-append,
  Bool-cases, inl, inr,
}
use sto_layout.Rcu.{TRcuGroup, is_empty, TRcuSet, restart, clean_groups, hard_clean_until}
use sto_layout.Rcu.View.{IsGroup, IsRcuSet, group_entries, all_entries, pending, entries-empty}
use sto_layout.Rcu.Clean.{
  CleansGroup, due, kept, due-append, due-append_kept, entries-ne-empty, clean_group-CleansGroup,
}

-- What cleaning makes of a set: it calls what is due, in order, and keeps the rest and the invariant.
pub record CleansSet (max_epoch : ℕ) (before : List (ℕ × ℕ)) (called : List ℕ) (u : TRcuSet)
    : Type 0 where
  pub calls : called ≡ due max_epoch before
  pub keeps : pending u ≡ kept max_epoch before
  pub set : IsRcuSet u

abbrev Empties : List TRcuGroup → Type 0
Empties = All (λ g. IsGroup g × (is_empty g ≡ true))

restart-CleansSet :
    (max_epoch : ℕ) (s : TRcuSet) (empties : List TRcuGroup) (g : TRcuGroup)
    → Empties empties
    → Empties s.spare
    → IsGroup g
    → is_empty g ≡ true
    → IsRcuSet (restart s empties g) × (pending (restart s empties g) ≡ [])
unfolding restart
restart-CleansSet max_epoch s [] g es ss v z =
    (record { full_groups = tt; current_group = v; spare_groups = ss }, entries-empty 0 g.e z)
restart-CleansSet max_epoch s (x ∷ xs) g es ss v z = (
  record {
    full_groups = tt;
    current_group = es.0.0;
    spare_groups =
        All-append (λ x. IsGroup x × (is_empty x ≡ true)) xs (g ∷ s.spare) es.1 ((v, z), ss);
  },
  entries-empty 0 x.e es.0.1,
)

-- What is pending from a group on.
abbrev after : List TRcuGroup → TRcuGroup → List (ℕ × ℕ)
after full g = all_entries full ++ group_entries g

-- A group that is cleaned to the end: the groups after it are cleaned as well.
emptied-CleansSet :
    (max_epoch : ℕ) (g first current : TRcuGroup) (full : List TRcuGroup) (called more : List ℕ)
    (u : TRcuSet)
    → CleansGroup max_epoch first called g
    → is_empty g ≡ true
    → CleansSet max_epoch (after full current) more u
    → CleansSet max_epoch (after (first ∷ full) current) (called ++ more) u
emptied-CleansSet max_epoch g first current full called more u c z d =
    let all = append_assoc (group_entries first) (all_entries full) (group_entries current) in
    let rest =
      due-append max_epoch (group_entries first) (after full current)
        (sym c.keeps ∙ entries-empty 0 g.e z) in
    record {
      calls = rw (all, c.calls, d.calls) (sym rest.0);
      keeps = rw all (d.keeps ∙ sym rest.1);
      set = d.set;
    }

-- A group in which something stays: nothing after it changes.
left-CleansSet :
    (max_epoch : ℕ) (s : TRcuSet) (g first : TRcuGroup) (full empties : List TRcuGroup)
    (called : List ℕ)
    → CleansGroup max_epoch first called g
    → is_empty g ≡ false
    → Empties empties
    → Empties s.spare
    → IsGroup s.current
    → All (λ x. IsGroup x × (is_empty x ≡ false)) full
    → CleansSet max_epoch
        (after (first ∷ full) s.current)
        called
        (record s { full = g ∷ full; spare = empties ++ s.spare })
left-CleansSet max_epoch s g first full empties called c z es ss v w =
    let all = append_assoc (group_entries first) (all_entries full) (group_entries s.current) in
    let some_left = entries-ne-empty g.e c.group.marked c.group.filled z in
    let rest =
      due-append_kept max_epoch (group_entries first) (after full s.current)
        (rw (← c.keeps) some_left) in
    record {
      calls = rw all (c.calls ∙ sym rest.0);
      keeps = rw (all, append_assoc, c.keeps) (sym rest.1);
      set = record {
        full_groups = ((c.group, z), w);
        current_group = v;
        spare_groups = All-append (λ x. IsGroup x × (is_empty x ≡ true)) empties s.spare es ss;
      };
    }

clean_groups-CleansSet :
    (max_epoch : ℕ) (s : TRcuSet) (empties full : List TRcuGroup)
    → Empties empties
    → Empties s.spare
    → IsGroup s.current
    → All (λ x. IsGroup x × (is_empty x ≡ false)) full
    → (r : List ℕ × TRcuSet) × (clean_groups max_epoch s empties full ≡ some r)
      × CleansSet max_epoch (after full s.current) r.0 r.1
unfolding clean_groups
clean_groups-CleansSet max_epoch s empties [] es ss v w =
    let (r, e, c) = clean_group-CleansGroup max_epoch s.current v in
    elim (Bool-cases (is_empty r.1)) [
      | inl z ↦
          let again = restart-CleansSet max_epoch s empties r.1 es ss c.group z in
          rw (e, clean_groups, z)
            (
              _,
              refl,
              record {
                calls = c.calls;
                keeps = again.1 ∙ sym (entries-empty 0 r.1.e z) ∙ c.keeps;
                set = again.0;
              },
            )
      | inr z ↦
          rw (e, clean_groups, z)
            (
              _,
              refl,
              record {
                calls = c.calls;
                keeps = c.keeps;
                set = record {
                  full_groups = tt;
                  current_group = c.group;
                  spare_groups =
                      All-append (λ x. IsGroup x × (is_empty x ≡ true)) empties s.spare es ss;
                };
              },
            )
    ]
clean_groups-CleansSet max_epoch s empties (first ∷ full) es ss v w =
    let (r, e, c) = clean_group-CleansGroup max_epoch first w.0.0 in
    elim (Bool-cases (is_empty r.1)) [
      | inl z ↦
          let more =
            All-append (λ x. IsGroup x × (is_empty x ≡ true)) empties (r.1 ∷ []) es
              ((c.group, z), tt) in
          let (q, d, p) =
            clean_groups-CleansSet max_epoch s (empties ++ (r.1 ∷ [])) full more ss v w.1 in
          rw (e, clean_groups, z, d)
            (_, refl, emptied-CleansSet max_epoch r.1 first s.current full r.0 q.0 q.1 c z p)
      | inr z ↦
          rw (e, clean_groups, z)
            (_, refl, left-CleansSet max_epoch s r.1 first full empties r.0 c z es ss v w.1)
    ]

-- In a set whose invariant holds, `hard_clean_until` fails no assertion: it calls the pending callbacks
-- up to the first whose epoch is not before `max_epoch`, each once and in the order of their adding; the
-- others stay pending in their order, and the invariant of `TRcuSet::check` holds again.
pub hard_clean_until-CleansSet :
    (max_epoch : ℕ) (s : TRcuSet)
    → IsRcuSet s
    → (r : List ℕ × TRcuSet) × (hard_clean_until s max_epoch ≡ some r)
      × CleansSet max_epoch (pending s) r.0 r.1
unfolding hard_clean_until
hard_clean_until-CleansSet max_epoch s v =
    clean_groups-CleansSet max_epoch s [] s.full tt v.spare_groups v.current_group v.full_groups
