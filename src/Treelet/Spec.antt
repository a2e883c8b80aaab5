-- ===== src/Treelet/Spec.antt =====
-- What a treelet stands for: a set of keys other than 0, and the list of them in order.
use sto_layout.Base.{
  ℕ, ◌<◌, ◌≡◌, refl, Bool, List, [], ◌∷◌, ◌++◌, ◌==◌, if◌then◌else◌, arith, length, length-append,
  append_assoc, append-nil, ap, Bool-cases, inl, inr,
}
use sto_layout.Tree
use sto_layout.Tree.{Tree, nil, node}
use sto_layout.Tree.Spec.{
  keys, member, IsAbove, IsSearchTree, search-member, add_items_lem, size-keys, IsBelow-member,
  IsAbove-member,
}
use sto_layout.Treelet.{Treelet, invalid_key, unlocked, search, add_items, size, new}

-- The whole treelet as one tree.
abbrev pub as_tree : Treelet → Tree
as_tree t = if t.key == invalid_key then nil else node t.key t.obj t.left t.right

pub record IsValid (t : Treelet) : Type 0 where
  pub ordered : IsSearchTree (node t.key t.obj t.left t.right)
  pub positive : IsAbove 0 t.left
  pub empty_left : t.key ≡ 0 → t.left ≡ nil
  pub empty_right : t.key ≡ 0 → t.right ≡ nil

abbrev pub items : Treelet → List ℕ
items t = keys (as_tree t)

-- A new treelet is valid and empty.
pub new-IsValid : IsValid new × (items new ≡ [])
unfolding new Tree.build_level
new-IsValid = (
  record {
    ordered = (tt, tt, tt, tt);
    positive = tt;
    empty_left = λ _. refl;
    empty_right = λ _. refl;
  },
  refl,
)

-- `search` for a key other than 0 decides membership, releases the lock and changes nothing else.
pub search-member_treelet :
    (x : ℕ) (t : Treelet)
    → 0 < x
    → IsValid t
    → search x t ≡ (record t { lock = unlocked }, member x (as_tree t))
unfolding search member
search-member_treelet x t pos v =
    ap (λ (b : Bool). (record t { lock = unlocked }, b))
      (ground (
        arith,
        search-member x t.left v.ordered.2,
        search-member x t.right v.ordered.3,
        IsBelow-member x t.key t.left v.ordered.0,
        IsAbove-member x t.key t.right v.ordered.1,
        v.empty_right,
      ))

-- `addItems` appends the keys in order and returns their number, which is also the treelet's `size`.
pub add_items-size :
    (t : Treelet) (v : List ℕ)
    → (add_items t v ≡ (v ++ items t, size t)) × (size t ≡ length (items t))
unfolding add_items size
add_items-size t v = elim (Bool-cases (t.key == invalid_key)) [
  | inl empty ↦ rw (empty, append-nil) (refl, refl)
  | inr full ↦
      rw
        (
          full,
          add_items_lem t.left v,
          add_items_lem t.right,
          append_assoc,
          append_assoc,
          size-keys t.left,
          size-keys t.right,
        )
        (
          ap (λ n. (v ++ (keys t.left ++ t.key ∷ keys t.right), n)) (omega arith),
          omega (arith, length-append {0} (keys t.left) (t.key ∷ keys t.right)),
        )
]
