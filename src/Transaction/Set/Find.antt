-- ===== src/Transaction/Set/Find.antt =====
-- The hash table of the item set never hides an item, and `item` keeps one item for each owner and key.
use sto_layout.Base.{
  ℕ, suc, ◌+◌, ◌-◌, ◌%◌, ◌<◌, ◌≤◌, ◌≡◌, refl, subst, true, false, ◌&&◌, ◌==◌, leb, if◌then◌else◌,
  none, some, List, [], ◌∷◌, ◌++◌, length, get_elem?, update, All, All-append, length-append, arith,
  Bool-cases, Option-cases, inl, inr,
}
use sto_layout.Transaction.{TransItem, new_item, Transaction}
use sto_layout.Transaction.Set.{
  hash, start, allocate_item, matches, search_from, matches_at, find_item, allocated, item, u16,
}

-- The slot of every item points into the set, at this item or an earlier one.
abbrev pub Slotted : Transaction → List TransItem → Type 0
Slotted t its = All (λ it. t.hash_base < t.hashtable (hash it.owner it.key)) its

-- No slot points beyond the set, and the numbers fit their 16 bits.
pub record IsIndexed (t : Transaction) : Type 0 where
  pub slots : Slotted t t.tset
  pub inside : (h : ℕ) → t.hashtable h ≤ t.hash_base + length t.tset
  pub base : t.hash_base < 32768
  pub size : length t.tset ≤ 32767

start-IsIndexed : (t : Transaction) → IsIndexed t → IsIndexed (start t)
unfolding start
start-IsIndexed t v = record {
  slots = tt;
  inside = λ h. ground (arith, v.inside h, v.base, v.size);
  base = ground (arith, v.base, v.size);
  size = omega arith;
}

Slotted-allocate_item :
    (t u : Transaction) (obj key : ℕ) (its : List TransItem)
    → IsIndexed t
    → allocate_item t obj key ≡ some u
    → Slotted t its
    → Slotted u its
unfolding allocate_item
Slotted-allocate_item t u obj key [] v e s = tt
Slotted-allocate_item t u obj key (it ∷ its) v e s =
    (ground (arith, e, s.0, v.base, v.size), Slotted-allocate_item t u obj key its v e s.1)

search_from-none :
    (obj key : ℕ) (its : List TransItem) (i : ℕ)
    → search_from obj key its i ≡ none
    → All (λ it. matches obj key it ≡ false) its
unfolding search_from
search_from-none obj key [] i e = tt
search_from-none obj key (it ∷ its) i e =
    (ground (arith, e), search_from-none obj key its (i + 1) (ground (arith, e)))

search_from-some :
    (obj key : ℕ) (its : List TransItem) (i j : ℕ)
    → search_from obj key its i ≡ some j
    → (i ≤ j) × (matches_at obj key its (j - i) ≡ true)
unfolding search_from matches_at
search_from-some obj key [] i j e = ground (arith, e)
search_from-some obj key (it ∷ its) i j e = elim (Bool-cases (matches obj key it)) [
  | inl hit ↦
      let same : j ≡ i = ground (arith, e, hit) in
      let z : j - i ≡ 0 = omega (arith, same) in rw z (omega (arith, same), hit)
  | inr miss ↦
      let rest = search_from-some obj key its (i + 1) j (ground (arith, e, miss)) in
      let z : j - i ≡ suc (j - (i + 1)) = omega (arith, rest.0) in
      rw z (omega (arith, rest.0), rest.1)
]

unslotted :
    (t : Transaction) (obj key : ℕ) (its : List TransItem)
    → Slotted t its
    → t.hashtable (hash obj key) ≤ t.hash_base
    → All (λ it. matches obj key it ≡ false) its
unslotted t obj key [] s h = tt
unslotted t obj key (it ∷ its) s h = (ground (arith, s.0, h), unslotted t obj key its s.1 h)

get_elem?-length :
    (its : List TransItem) (it : TransItem) → get_elem? (its ++ (it ∷ [])) (length its) ≡ some it
get_elem?-length [] it = refl
get_elem?-length (x ∷ its) it = get_elem?-length its it

-- With room in the set, an allocation succeeds and keeps the table in order.
allocate_item-IsIndexed :
    (t : Transaction) (obj key : ℕ)
    → IsIndexed t
    → length t.tset < 32767
    → (u : Transaction) × (allocate_item t obj key ≡ some u)
      × IsIndexed u
      × (u.tset ≡ t.tset ++ (new_item obj key ∷ []))
unfolding allocate_item
allocate_item-IsIndexed t obj key v room =
    let ok : ((length t.tset % 512 == 0) && leb 32768 (length t.tset)) ≡ false =
      ground (arith, room) in
    rw ok (
      _,
      refl,
      record {
        slots =
            All-append
              (λ it.
                t.hash_base
                < (if leb (t.hashtable (hash obj key)) t.hash_base
                      then update t.hashtable (hash obj key)
                          (u16 (t.hash_base + (length t.tset + 1)))
                      else t.hashtable)
                    (hash it.owner it.key))
              t.tset (new_item obj key ∷ []) (kept t.tset v.slots)
              (ground (arith, v.base, v.size), tt);
        inside = λ h.
            ground
              (arith, v.inside h, length-append t.tset (new_item obj key ∷ []), v.base, v.size);
        base = v.base;
        size = ground (arith, length-append t.tset (new_item obj key ∷ []), room);
      },
      refl,
    )
  where
    kept :
        (its : List TransItem)
        → Slotted t its
        → All
            (λ it.
              t.hash_base
              < (if leb (t.hashtable (hash obj key)) t.hash_base
                    then update t.hashtable (hash obj key) (u16 (t.hash_base + (length t.tset + 1)))
                    else t.hashtable)
                  (hash it.owner it.key))
            its
    kept [] s = tt
    kept (it ∷ its) s = (ground (arith, s.0, v.base, v.size), kept its s.1)

-- What a search of the item set answers, whatever the hash table has in its slot: an index that it returns
-- is the index of an item with that owner and key, and if it returns none there is no such item. It holds
-- for a set that the table indexes.
pub find_item_lem :
    (t : Transaction) (obj key : ℕ)
    → IsIndexed t
    → ((i : ℕ) → find_item t obj key ≡ some i → matches_at obj key t.tset i ≡ true)
      × (find_item t obj key ≡ none → All (λ it. matches obj key it ≡ false) t.tset)
unfolding find_item
find_item_lem t obj key v = elim (Bool-cases (leb (t.hashtable (hash obj key)) t.hash_base)) [
  | inl empty ↦
      rw empty
        (λ i e. ground (arith, e), λ _. unslotted t obj key t.tset v.slots (ground (arith, empty)))
  | inr used ↦
      rw used
        (elim (Bool-cases
          (matches_at obj key t.tset (t.hashtable (hash obj key) - t.hash_base - 1))) [
            | inl hit ↦ rw hit (λ i e. ground (arith, e, hit), λ e. absurd (ground (arith, e)))
            | inr miss ↦ rw miss (
              λ i e.
                  let z : i - 0 ≡ i = omega arith in
                  subst (λ x. matches_at obj key t.tset x ≡ true) z
                    (search_from-some obj key t.tset 0 i e).1,
              search_from-none obj key t.tset 0,
            )
          ])
]

-- No two items have the same owner and key.
unfoldable pub Unique : List TransItem → Type 0
Unique [] = Unit
Unique (it ∷ its) = All (λ x. matches it.owner it.key x ≡ false) its × Unique its

Unique-append :
    (its : List TransItem) (obj key : ℕ)
    → Unique its
    → All (λ it. matches obj key it ≡ false) its
    → Unique (its ++ (new_item obj key ∷ []))
unfolding Unique
Unique-append [] obj key u h = (tt, tt)
Unique-append (it ∷ its) obj key u h = (
  All-append (λ x. matches it.owner it.key x ≡ false) its (new_item obj key ∷ []) u.0
      (ground (arith, h.0), tt),
  Unique-append its obj key u.1 h.1,
)

-- What `item` promises.
pub record Tracks (obj key : ℕ) (r : Transaction × ℕ) : Type 0 where
  pub indexed : IsIndexed r.0
  pub unique : Unique r.0.tset
  pub found : matches_at obj key r.0.tset r.1 ≡ true

-- With room in the set, `item` returns an item with the owner and the key asked for, whether it finds or
-- allocates it, and keeps the set indexed and without duplicates.
pub item-Tracks :
    (t : Transaction) (obj key : ℕ)
    → IsIndexed t
    → Unique t.tset
    → length t.tset < 32767
    → (r : Transaction × ℕ) × (item t obj key ≡ some r) × Tracks obj key r
unfolding item allocated matches_at
item-Tracks t obj key v u room = elim (Option-cases (find_item t obj key)) [
  | inl missing ↦
      let (w, e, i, l) = allocate_item-IsIndexed t obj key v room in
      rw (missing, item, allocated, e)
        (
          _,
          refl,
          record {
            indexed = i;
            unique = rw l (Unique-append t.tset obj key u ((find_item_lem t obj key v).1 missing));
            found = rw (l, matches_at, get_elem?-length t.tset (new_item obj key)) (ground arith);
          },
        )
  | inr present ↦
      rw (present.1, item)
        (
          _,
          refl,
          record {
            indexed = v;
            unique = u;
            found = (find_item_lem t obj key v).0 present.0 present.1;
          },
        )
]
