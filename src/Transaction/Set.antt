-- ===== src/Transaction/Set.antt =====
-- Transaction.hh: `start`, and the item set with its hash table (`TRANSACTION_HASHTABLE` is 1). A proxy is
-- the index of its item. Assigning to the 16-bit fields wraps around.
pub mod Find
use sto_layout.Base.{
  ℕ, zero, suc, ◌+◌, ◌-◌, ◌*◌, ◌/◌, ◌%◌, ◌^◌, Bool, true, false, ◌&&◌, ◌||◌, ◌==◌, ltb, leb,
  if◌then◌else◌, Option, none, some, List, [], ◌∷◌, ◌++◌, length, get_elem?, update,
}
use sto_layout.Tid.{u64}
use sto_layout.Transaction.{TransItem, new_item, State, in_progress, Transaction}

abbrev pub hash_size : ℕ
hash_size = 1024

abbrev pub tset_chunk : ℕ
tset_chunk = 512

abbrev pub tset_max_capacity : ℕ
tset_max_capacity = 32768

-- uint16_t
abbrev pub u16 : ℕ → ℕ
u16 n = n % 65536

unfoldable pub hash : ℕ → ℕ → ℕ
hash obj key =
    let n = u64 (key + 0x4000000) in
    let m = if ltb n 0x8000000 then u64 (n + obj / 16) else n in u64 (m + m / 65536 * 9) % hash_size

unfoldable pub start : Transaction → Transaction
start t =
    let base = u16 (t.hash_base + length t.tset + 1) in
    let wrapped = leb 32768 base in
    record t {
      tset = [];
      hashtable = if wrapped then (λ _. 0) else t.hashtable;
      hash_base = if wrapped then 0 else base;
      any_writes = false;
      any_nonopaque = false;
      may_duplicate_items = false;
      first_write = 0;
      start_tid = 0;
      commit_tid = 0;
      state = in_progress;
    }

-- The transaction with the new item at the end; none is the failed assertion of `refresh_tset_chunk`.
unfoldable pub allocate_item : Transaction → ℕ → ℕ → Option Transaction
unfolding hash
allocate_item t obj key =
    let size = length t.tset in
    let hi = hash obj key in
    if (size % tset_chunk == 0) && leb tset_max_capacity size
    then none
    else some (record t {
      tset = t.tset ++ (new_item obj key ∷ []);
      hashtable =
          if leb (t.hashtable hi) t.hash_base
          then update t.hashtable hi (u16 (t.hash_base + (size + 1)))
          else t.hashtable;
    })

abbrev pub matches : ℕ → ℕ → TransItem → Bool
matches obj key it = (it.owner == obj) && (it.key == key)

-- The linear search, from index `i` on.
unfoldable pub search_from : ℕ → ℕ → List TransItem → ℕ → Option ℕ
search_from obj key [] i = none
search_from obj key (it ∷ its) i =
    let rest = search_from obj key its (i + 1) in if matches obj key it then some i else rest

-- Whether the item at an index matches; an index out of range has no item.
unfoldable pub matches_at : ℕ → ℕ → List TransItem → ℕ → Bool
matches_at obj key its i = elim (get_elem? its i) [ none ↦ false | some it ↦ matches obj key it ]

unfoldable pub find_item : Transaction → ℕ → ℕ → Option ℕ
unfolding hash matches_at search_from
find_item t obj key =
    let slot = t.hashtable (hash obj key) in
    let tidx = slot - t.hash_base - 1 in
    if leb slot t.hash_base
    then none
    else (if matches_at obj key t.tset tidx then some tidx else search_from obj key t.tset 0)

-- The item of a fresh index, behind an allocation.
unfoldable pub allocated : Transaction → ℕ → ℕ → Option (Transaction × ℕ)
unfolding allocate_item
allocated t obj key = elim (allocate_item t obj key) [
  | none ↦ none
  | some u ↦ some (u, length t.tset)
]

unfoldable pub fresh_item : Transaction → ℕ → ℕ → Option (Transaction × ℕ)
unfolding allocated
fresh_item t obj key = allocated (record t { may_duplicate_items = ltb 0 (length t.tset) }) obj key

unfoldable pub item : Transaction → ℕ → ℕ → Option (Transaction × ℕ)
unfolding find_item allocated
item t obj key = elim (find_item t obj key) [ none ↦ allocated t obj key | some i ↦ some (t, i) ]

unfoldable pub read_item : Transaction → ℕ → ℕ → Option (Transaction × ℕ)
unfolding item fresh_item
read_item t obj key = if t.any_writes then item t obj key else fresh_item t obj key
