-- ===== src/Rcu/View.antt =====
-- What a set still has to call, as one list of epochs and callbacks, and the invariant of `TRcuSet::check`.
use sto_layout.Base.{
  ℕ, ◌+◌, ◌≤◌, ◌<◌, ◌≡◌, refl, ap, ◌∙◌, sym, true, false, not, ◌&&◌, ◌||◌, ◌==◌, ltb, leb,
  if◌then◌else◌, some, List, [], ◌∷◌, ◌++◌, append_assoc, append-nil, length, length-append, All,
  All-append, arith, Bool-cases, inl, inr,
}
use sto_layout.Rcu.{
  TRcuElement, epoch_mark, callback, TRcuGroup, tail, is_empty, make, add_to_group, TRcuSet,
  grow_to, add_to_current, add, new,
}

-- The callbacks of some elements with their epochs, the first of them under the epoch `now`.
abbrev pub entries : ℕ → List TRcuElement → List (ℕ × ℕ)
entries now [] = []
entries now (epoch_mark epoch ∷ es) = entries epoch es
entries now (callback f ∷ es) = (now, f) ∷ entries now es

-- The epoch at the end of some elements.
abbrev pub last_epoch : ℕ → List TRcuElement → ℕ
last_epoch now [] = now
last_epoch now (epoch_mark epoch ∷ es) = last_epoch epoch es
last_epoch now (callback f ∷ es) = last_epoch now es

-- The elements begin with an epoch.
abbrev pub Marked : List TRcuElement → Type 0
Marked [] = Unit
Marked (epoch_mark epoch ∷ es) = Unit
Marked (callback f ∷ es) = ⊥

-- Every epoch is followed by a callback.
abbrev pub Filled : List TRcuElement → Type 0
Filled [] = Unit
Filled (callback f ∷ es) = Filled es
Filled (epoch_mark epoch ∷ []) = ⊥
Filled (epoch_mark epoch ∷ epoch_mark other ∷ es) = ⊥
Filled (epoch_mark epoch ∷ callback f ∷ es) = Filled es

Filled-append : (es fs : List TRcuElement) → Filled es → Filled fs → Filled (es ++ fs)
Filled-append [] fs h k = k
Filled-append (callback f ∷ es) fs h k = Filled-append es fs h k
Filled-append (epoch_mark epoch ∷ []) fs h k = absurd h
Filled-append (epoch_mark epoch ∷ epoch_mark other ∷ es) fs h k = absurd h
Filled-append (epoch_mark epoch ∷ callback f ∷ es) fs h k = Filled-append es fs h k

pub record IsGroup (g : TRcuGroup) : Type 0 where
  pub marked : Marked g.e
  pub filled : Filled g.e
  pub last : is_empty g ≡ false → (now : ℕ) → last_epoch now g.e ≡ g.epoch
  pub fits : tail g ≤ g.capacity
  pub room : 2 ≤ g.capacity
  pub at_start : is_empty g ≡ true → g.head ≡ 0

-- `TRcuSet::check`: the groups before the current one are not empty, those after it are.
pub record IsRcuSet (s : TRcuSet) : Type 0 where
  pub full_groups : All (λ g. IsGroup g × (is_empty g ≡ false)) s.full
  pub current_group : IsGroup s.current
  pub spare_groups : All (λ g. IsGroup g × (is_empty g ≡ true)) s.spare

abbrev pub group_entries : TRcuGroup → List (ℕ × ℕ)
group_entries g = entries 0 g.e

abbrev pub all_entries : List TRcuGroup → List (ℕ × ℕ)
all_entries [] = []
all_entries (g ∷ gs) = group_entries g ++ all_entries gs

abbrev pub pending : TRcuSet → List (ℕ × ℕ)
pending s = all_entries s.full ++ group_entries s.current

pub all_entries-append :
    (gs hs : List TRcuGroup) → all_entries (gs ++ hs) ≡ all_entries gs ++ all_entries hs
all_entries-append [] hs = refl
all_entries-append (g ∷ gs) hs =
    ap (◌++◌ (group_entries g)) (all_entries-append gs hs)
    ∙ sym (append_assoc (group_entries g) (all_entries gs) (all_entries hs))

entries-append :
    (now : ℕ) (es fs : List TRcuElement)
    → entries now (es ++ fs) ≡ entries now es ++ entries (last_epoch now es) fs
entries-append now [] fs = refl
entries-append now (epoch_mark epoch ∷ es) fs = entries-append epoch es fs
entries-append now (callback f ∷ es) fs = ap (◌∷◌ (now, f)) (entries-append now es fs)

last_epoch-append :
    (now : ℕ) (es fs : List TRcuElement)
    → last_epoch now (es ++ fs) ≡ last_epoch (last_epoch now es) fs
last_epoch-append now [] fs = refl
last_epoch-append now (epoch_mark epoch ∷ es) fs = last_epoch-append epoch es fs
last_epoch-append now (callback f ∷ es) fs = last_epoch-append now es fs

Marked-append :
    (es fs : List TRcuElement) → Marked es → (length es == 0) ≡ false → Marked (es ++ fs)
Marked-append [] fs m n = absurd (ground (arith, n))
Marked-append (epoch_mark epoch ∷ es) fs m n = tt
Marked-append (callback f ∷ es) fs m n = m

Marked-append_mark :
    (es : List TRcuElement) (epoch : ℕ) → Marked es → Marked (es ++ (epoch_mark epoch ∷ []))
Marked-append_mark [] epoch m = tt
Marked-append_mark (epoch_mark x ∷ es) epoch m = tt
Marked-append_mark (callback f ∷ es) epoch m = m

-- The elements that `add` puts at the end of a group.
abbrev added : TRcuGroup → ℕ → ℕ → List TRcuElement
added g epoch f =
    if is_empty g || not (g.epoch == epoch)
    then epoch_mark epoch ∷ callback f ∷ []
    else callback f ∷ []

-- What adding to a group with room for two elements does.
record Adds (g : TRcuGroup) (epoch f : ℕ) (g' : TRcuGroup) : Type 0 where
  group : IsGroup g'
  filled : is_empty g' ≡ false
  joined : group_entries g' ≡ group_entries g ++ ((epoch, f) ∷ [])

add_to_group-Adds :
    (g : TRcuGroup) (epoch f : ℕ)
    → IsGroup g
    → tail g + 2 ≤ g.capacity
    → (g' : TRcuGroup) × (add_to_group g epoch f ≡ some g') × Adds g epoch f g'
unfolding add_to_group
add_to_group-Adds g epoch f v room = elim (Bool-cases (is_empty g || not (g.epoch == epoch))) [
  | inl fresh ↦
      let ok : leb (tail g + 2) g.capacity ≡ true = ground (arith, room) in
      let len = length-append g.e (epoch_mark epoch ∷ []) in
      let len' = length-append (g.e ++ (epoch_mark epoch ∷ [])) (callback f ∷ []) in
      rw (fresh, ok)
        (
          _,
          refl,
          record {
            group = record {
              marked =
                  Marked-append (g.e ++ (epoch_mark epoch ∷ [])) (callback f ∷ [])
                    (Marked-append_mark g.e epoch v.marked) (ground (arith, len));
              filled =
                  rw append_assoc
                    (Filled-append g.e (epoch_mark epoch ∷ callback f ∷ []) v.filled tt);
              last = λ _ now.
                  last_epoch-append now (g.e ++ (epoch_mark epoch ∷ [])) (callback f ∷ [])
                  ∙ last_epoch-append now g.e (epoch_mark epoch ∷ []);
              fits = omega (arith, len, len', room);
              room = v.room;
              at_start = λ z. absurd (ground (arith, len', z));
            };
            filled = ground (arith, len');
            joined =
                entries-append 0 (g.e ++ (epoch_mark epoch ∷ [])) (callback f ∷ [])
                ∙ rw (
                  entries-append 0 g.e (epoch_mark epoch ∷ []),
                  last_epoch-append 0 g.e (epoch_mark epoch ∷ []),
                  append-nil,
                );
          },
        )
  | inr same ↦
      let ok : leb (tail g + 2) g.capacity ≡ true = ground (arith, room) in
      let len = length-append g.e (callback f ∷ []) in
      let full : is_empty g ≡ false = ground (arith, same) in
      let at : g.epoch ≡ epoch = ground (arith, same) in
      rw (same, ok)
        (
          _,
          refl,
          record {
            group = record {
              marked = Marked-append g.e (callback f ∷ []) v.marked full;
              filled = Filled-append g.e (callback f ∷ []) v.filled tt;
              last = λ _ now. last_epoch-append now g.e (callback f ∷ []) ∙ v.last full now;
              fits = omega (arith, len, room);
              room = v.room;
              at_start = λ z. absurd (ground (arith, len, z));
            };
            filled = ground (arith, len);
            joined = rw (entries-append 0 g.e (callback f ∷ []), v.last full 0, at);
          },
        )
]

-- What adding to a set does: the callback joins the end of what is pending, and the invariant holds.
pub record Queues (s : TRcuSet) (epoch f : ℕ) (u : TRcuSet) : Type 0 where
  pub set : IsRcuSet u
  pub joined : pending u ≡ pending s ++ ((epoch, f) ∷ [])

add_to_current-Queues :
    (s : TRcuSet) (epoch f : ℕ)
    → IsRcuSet s
    → tail s.current + 2 ≤ s.current.capacity
    → (u : TRcuSet) × (add_to_current (some s) epoch f ≡ some u) × Queues s epoch f u
unfolding add_to_group
add_to_current-Queues s epoch f v room =
    let (g, e, a) = add_to_group-Adds s.current epoch f v.current_group room in
    rw (e, add_to_current)
      (
        _,
        refl,
        record {
          set = record {
            full_groups = v.full_groups;
            current_group = a.group;
            spare_groups = v.spare_groups;
          };
          joined =
              ap (◌++◌ (all_entries s.full)) a.joined
              ∙ sym (append_assoc (all_entries s.full) (group_entries s.current) ((epoch, f) ∷ []));
        },
      )

make-IsGroup : (n : ℕ) → 2 ≤ n → IsGroup (make n)
make-IsGroup n h = record {
  marked = tt;
  filled = tt;
  last = λ z. absurd (ground (arith, z));
  fits = omega arith;
  room = h;
  at_start = λ _. refl;
}

pub entries-empty :
    (now : ℕ) (es : List TRcuElement) → (length es == 0) ≡ true → entries now es ≡ []
entries-empty now [] h = refl
entries-empty now (e ∷ es) h = absurd (ground (arith, h))

-- `grow` in a set whose current group is full: nothing that is pending changes.
grow_to-IsRcuSet :
    (s : TRcuSet) (gs : List TRcuGroup)
    → IsRcuSet s
    → All (λ g. IsGroup g × (is_empty g ≡ true)) gs
    → s.current.capacity < tail s.current + 2
    → (u : TRcuSet) × (grow_to s gs ≡ some u)
      × IsRcuSet u
      × (pending u ≡ pending s)
      × (tail u.current + 2 ≤ u.current.capacity)
unfolding grow_to
grow_to-IsRcuSet s gs v all tight = by_spare gs all
  where
    used : is_empty s.current ≡ false
    used = ground (arith, v.current_group.at_start, v.current_group.room, tight)

    more :
        (g : TRcuGroup)
        → is_empty g ≡ true
        → all_entries (s.full ++ (s.current ∷ [])) ++ group_entries g ≡ pending s
    more g n =
        rw (
          entries-empty 0 g.e n,
          append-nil,
          all_entries-append s.full (s.current ∷ []),
          append-nil,
        )

    by_spare :
        (gs : List TRcuGroup)
        → All (λ g. IsGroup g × (is_empty g ≡ true)) gs
        → (u : TRcuSet) × (grow_to s gs ≡ some u)
          × IsRcuSet u
          × (pending u ≡ pending s)
          × (tail u.current + 2 ≤ u.current.capacity)
    by_spare [] a = (
      _,
      refl,
      record {
        full_groups =
            All-append (λ g. IsGroup g × (is_empty g ≡ false)) s.full (s.current ∷ []) v.full_groups
              ((v.current_group, used), tt);
        current_group = make-IsGroup 1020 (omega arith);
        spare_groups = v.spare_groups;
      },
      more (make 1020) refl,
      omega arith,
    )
    by_spare (g ∷ gs) a =
        let start : g.head ≡ 0 = a.0.0.at_start a.0.1 in
        let none_in : length g.e ≡ 0 = ground (arith, a.0.1) in
        let ok : ((g.head == 0) && (tail g == 0)) ≡ true = ground (arith, start, none_in) in
        rw ok (
          _,
          refl,
          record {
            full_groups =
                All-append (λ g. IsGroup g × (is_empty g ≡ false)) s.full (s.current ∷ [])
                  v.full_groups ((v.current_group, used), tt);
            current_group = a.0.0;
            spare_groups = a.1;
          },
          more g a.0.1,
          omega (arith, start, none_in, a.0.0.room),
        )

-- `add` never fails its assertions in a set that meets the invariant; it puts the callback with its epoch
-- behind all that are pending, and keeps the invariant.
pub add-Queues :
    (s : TRcuSet) (epoch f : ℕ)
    → IsRcuSet s
    → (u : TRcuSet) × (add s epoch f ≡ some u) × Queues s epoch f u
unfolding add
add-Queues s epoch f v = elim (Bool-cases (ltb s.current.capacity (tail s.current + 2))) [
  | inl tight ↦
      let (w, e, i, p, room) =
        grow_to-IsRcuSet s s.spare v v.spare_groups (ground (arith, tight)) in
      let (u, a, q) = add_to_current-Queues w epoch f i room in
      rw (tight, e) (u, a, record { set = q.set; joined = rw (← p) q.joined })
  | inr roomy ↦ rw roomy (add_to_current-Queues s epoch f v (ground (arith, roomy)))
]

pub new-IsRcuSet : IsRcuSet new × (pending new ≡ [])
unfolding new
new-IsRcuSet = (
  record { full_groups = tt; current_group = make-IsGroup 252 (omega arith); spare_groups = tt },
  refl,
)
