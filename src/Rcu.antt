-- ===== src/Rcu.antt =====
-- TRcu.hh and TRcu.cc: callbacks that wait until no thread can still see what they free.
--
-- A callback is the number of its function and argument, and cleaning returns the callbacks that it calls,
-- in order; a callback does not add to the set that calls it. An answer of none is a failed assertion, or
-- an element with a function that is read as an epoch. Groups are linked in a list that the set owns.
pub mod View
pub mod Clean
pub mod Sets
use sto_layout.Base.{
  ℕ, ◌+◌, ◌-◌, ◌^◌, Bool, true, false, not, ◌&&◌, ◌||◌, ◌==◌, ltb, leb, if◌then◌else◌, Option, none,
  some, List, [], ◌∷◌, ◌++◌, length,
}
use sto_layout.Tid.{u64}

-- `TRcuElement`: with a null function it is the epoch of the elements that follow.
pub data TRcuElement : Type 0 where
  epoch_mark : ℕ → TRcuElement
  callback : ℕ → TRcuElement

-- `e` holds the elements from `head_` on, so that `tail_` is `head_` and its length.
pub record TRcuGroup : Type 0 where
  pub head : ℕ
  pub capacity : ℕ
  pub epoch : ℕ
  pub e : List TRcuElement

abbrev pub tail : TRcuGroup → ℕ
tail g = g.head + length g.e

abbrev pub make : ℕ → TRcuGroup
make capacity = record { head = 0; capacity = capacity; epoch = 0; e = [] }

-- `head_ == tail_`
abbrev pub is_empty : TRcuGroup → Bool
is_empty g = length g.e == 0

unfoldable pub add_to_group : TRcuGroup → ℕ → ℕ → Option TRcuGroup
add_to_group g epoch f =
    let marked =
      if is_empty g || not (g.epoch == epoch)
      then record g { e = g.e ++ (epoch_mark epoch ∷ []); epoch = epoch }
      else g in
    if leb (tail g + 2) g.capacity
    then some (record marked { e = marked.e ++ (callback f ∷ []) })
    else none

-- `signed_epoch_type(max_epoch - epoch) > 0`
unfoldable pub is_before : ℕ → ℕ → Bool
is_before epoch max_epoch =
    let d = u64 (max_epoch + 2 ^ 64 - epoch) in not (d == 0) && ltb d (2 ^ 63)

abbrev pub calling : ℕ → Option (List ℕ × List TRcuElement) → Option (List ℕ × List TRcuElement)
calling f none = none
calling f (some (called, rest)) = some (f ∷ called, rest)

-- The two loops of `TRcuGroup::clean_until`: the callbacks that it calls and the elements that stay. The
-- test says whether the inner loop is running.
unfoldable pub clean_elements : ℕ → Bool → List TRcuElement → Option (List ℕ × List TRcuElement)
unfolding is_before
clean_elements max_epoch inner [] = some ([], [])
clean_elements max_epoch inner (epoch_mark epoch ∷ es) =
    let rest = clean_elements max_epoch true es in
    if is_before epoch max_epoch then rest else some ([], epoch_mark epoch ∷ es)
clean_elements max_epoch true (callback f ∷ es) = calling f (clean_elements max_epoch true es)
clean_elements max_epoch false (callback f ∷ es) = none

-- The group afterwards: an empty one starts again at index 0.
unfoldable pub clean_group : ℕ → TRcuGroup → Option (List ℕ × TRcuGroup)
unfolding clean_elements
clean_group max_epoch g = elim (clean_elements max_epoch false g.e) [
  | none ↦ none
  | some (called, rest) ↦
      let left = length rest in
      some (called, record g { e = rest; head = if left == 0 then 0 else tail g - left })
]

-- `first_ … current_` and what is linked after it.
pub record TRcuSet : Type 0 where
  pub full : List TRcuGroup  -- from `first_` to before `current_`
  pub current : TRcuGroup
  pub spare : List TRcuGroup  -- after `current_`
  pub clean_epoch : ℕ

-- The capacities that the constructor and `grow` compute, for pointers of 64 bits.
abbrev pub first_capacity : ℕ
first_capacity = 252

abbrev pub grown_capacity : ℕ
grown_capacity = 1020

unfoldable pub new : TRcuSet
new = record { full = []; current = make first_capacity; spare = []; clean_epoch = 0 }

-- `grow`, with its assertion that the next group is empty.
unfoldable pub grow_to : TRcuSet → List TRcuGroup → Option TRcuSet
grow_to s [] = some (record s { full = s.full ++ (s.current ∷ []); current = make grown_capacity })
grow_to s (g ∷ gs) =
    if (g.head == 0) && (tail g == 0)
    then some (record s { full = s.full ++ (s.current ∷ []); current = g; spare = gs })
    else none

abbrev pub add_to_current : Option TRcuSet → ℕ → ℕ → Option TRcuSet
unfolding add_to_group
add_to_current none epoch f = none
add_to_current (some s) epoch f = elim (add_to_group s.current epoch f) [
  | none ↦ none
  | some g ↦ some (record s { current = g })
]

unfoldable pub add : TRcuSet → ℕ → ℕ → Option TRcuSet
unfolding grow_to
add s epoch f =
    add_to_current
      (if ltb s.current.capacity (tail s.current + 2) then grow_to s s.spare else some s) epoch f

-- All groups empty: the first of them becomes the only one in use.
unfoldable pub restart : TRcuSet → List TRcuGroup → TRcuGroup → TRcuSet
restart s [] g = record s { full = []; current = g }
restart s (x ∷ xs) g = record s { full = []; current = x; spare = xs ++ (g ∷ s.spare) }

abbrev pub also_called : List ℕ → Option (List ℕ × TRcuSet) → Option (List ℕ × TRcuSet)
also_called fs none = none
also_called fs (some (called, s)) = some (fs ++ called, s)

-- The loop of `hard_clean_until` over the groups from `first_` to `current_`, with those emptied so far.
unfoldable pub clean_groups :
    ℕ → TRcuSet → List TRcuGroup → List TRcuGroup → Option (List ℕ × TRcuSet)
unfolding clean_group restart
clean_groups max_epoch s empties [] = elim (clean_group max_epoch s.current) [
  | none ↦ none
  | some (called, g) ↦ some (
    called,
    if is_empty g
        then restart s empties g
        else record s { full = []; current = g; spare = empties ++ s.spare },
  )
]
clean_groups max_epoch s empties (first ∷ full) =
    let rest = λ (g : TRcuGroup). clean_groups max_epoch s (empties ++ (g ∷ [])) full in
    elim (clean_group max_epoch first) [
      | none ↦ none
      | some (called, g) ↦
          if is_empty g
          then also_called called (rest g)
          else some (called, record s { full = g ∷ full; spare = empties ++ s.spare })
    ]

unfoldable pub hard_clean_until : TRcuSet → ℕ → Option (List ℕ × TRcuSet)
unfolding clean_groups
hard_clean_until s max_epoch = clean_groups max_epoch s [] s.full

unfoldable pub clean_until : TRcuSet → ℕ → Option (List ℕ × TRcuSet)
unfolding hard_clean_until
clean_until s max_epoch =
    elim (if s.clean_epoch == max_epoch then some ([], s) else hard_clean_until s max_epoch) [
      | none ↦ none
      | some (called, u) ↦ some (called, record u { clean_epoch = max_epoch })
    ]
