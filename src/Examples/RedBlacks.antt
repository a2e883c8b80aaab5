-- ===== src/Examples/RedBlacks.antt =====
-- A red-black tree that grows and shrinks.
use sto_layout.Base.Sorted.{insert_sorted, contains, remove}
use sto_layout.Base.{
  ℕ, ◌≡◌, ◌≢◌, refl, true, false, Option, some, List, [], ◌∷◌, All, ◌>>=◌, ◌+◌, ◌*◌, ◌^◌, ◌≤◌, ◌==◌,
  ◌||◌, arith,
}
use sto_layout.RedBlack.{
  Color, red, black, RbTree, null, node, frame, RbRep, new, insert, find_any, find_insert, check,
  make_black, unwind, plug, is_red, rotate_up, reverse_color, rotate, size,
}
use sto_layout.RedBlack.Delete.{erase, fix_red_sibling, step_down, make_red}
use sto_layout.RedBlack.Order.{inorder}
use sto_layout.RedBlack.Limits.{head, last_of, IsRbRep, insert-IsRbRep}
use sto_layout.RedBlack.Find.{Searched, find_insert-IsRbRep, find_any_lem}
use sto_layout.RedBlack.Erase.{erase-IsRbRep}
use sto_layout.RedBlack.Check.{height_of, check-IsRbRep}
use sto_layout.RedBlack.Height.{height, height-log}
use sto_layout.RedBlack.Calls.{inserting, erasing, run, holds, run-shallow}
use sto_layout.RedBlack.Step.{next_node, prev_node, step_node_lem}

abbrev leaf : Color → ℕ → RbTree
leaf c k = node c k null null

-- Six elements, with a red node over two black ones.
abbrev six : RbRep
six = record {
  root =
      node black 20 (leaf black 10)
        (node red 40 (leaf black 30) (node black 50 null (leaf red 60)));
  first = some 10;
  last = some 60;
}

abbrev insert_all : List ℕ → RbRep → Option RbRep
insert_all [] t = some t
insert_all (x ∷ xs) t = insert x t >>= insert_all xs

inserted : insert_all (10 ∷ 20 ∷ 30 ∷ 40 ∷ 50 ∷ 60 ∷ []) new ≡ some six
unfolding insert make_black unwind plug is_red rotate_up reverse_color
inserted = refl

checked : check six ≡ some (some 2)
unfolding check is_red
checked = refl

-- Without 10 the sibling's red color goes up.
erased :
    erase 10 six
    ≡ some (record {
      root = node black 40 (node black 20 null (leaf red 30)) (node black 50 null (leaf red 60));
      first = some 20;
      last = some 60;
    })
unfolding erase is_red fix_red_sibling rotate plug step_down make_black unwind make_red
erased = refl

-- The neighbours of the missing key 35.
found :
    find_any 35 six
    ≡ record { retnode = some 30; found = false; boundary_left = some 30; boundary_right = some 40 }
unfolding find_any
found = refl

six-IsRbRep : IsRbRep six
unfolding is_red head last_of
six-IsRbRep = record {
  tree = record {
    rules = (
      (tt, tt, refl),
      ((tt, tt, refl), (tt, (tt, tt, refl, refl, refl), refl), refl, refl, refl),
      refl,
    );
    root_black = refl;
  };
  ordered = (
    (omega arith, (omega arith, (omega arith, (omega arith, (omega arith, tt))))),
    (
      (omega arith, (omega arith, (omega arith, (omega arith, tt)))),
      (
        (omega arith, (omega arith, (omega arith, tt))),
        ((omega arith, (omega arith, tt)), ((omega arith, tt), (tt, tt))),
      ),
    ),
  );
  first_head = refl;
  last_end = refl;
}

absent_35 : All (λ k. k ≢ 35) (inorder six.root)
absent_35 = (
  λ e. omega (arith, e),
  (
    λ e. omega (arith, e),
    (
      λ e. omega (arith, e),
      (λ e. omega (arith, e), (λ e. omega (arith, e), (λ e. omega (arith, e), tt))),
    ),
  ),
)

insert-IsRbRep_example :
    (t' : RbRep) × (insert 35 six ≡ some t')
    × IsRbRep t'
    × (inorder t'.root ≡ insert_sorted 35 (inorder six.root))
insert-IsRbRep_example = insert-IsRbRep 35 six six-IsRbRep absent_35

has_40 : contains 40 (inorder six.root) ≡ true
unfolding contains
has_40 = refl

erase-IsRbRep_example :
    (t' : RbRep) × (erase 40 six ≡ some t')
    × IsRbRep t'
    × (inorder t'.root ≡ remove 40 (inorder six.root))
erase-IsRbRep_example = erase-IsRbRep 40 six six-IsRbRep has_40

find_any_lem_example :
    Searched 35
      (inorder six.root)
      (head (inorder six.root))
      (last_of (inorder six.root))
      (find_any 35 six)
find_any_lem_example = find_any_lem 35 six six-IsRbRep

find_insert-IsRbRep_example :
    (t' : RbRep) × (find_insert 35 six ≡ some (t', record (find_any 35 six) { retnode = some 35 }))
    × IsRbRep t'
    × ((find_any 35 six).found ≡ contains 35 (inorder six.root))
    × ((other : ℕ)
        → contains other (inorder t'.root) ≡ (other == 35 || contains other (inorder six.root)))
find_insert-IsRbRep_example = find_insert-IsRbRep 35 six six-IsRbRep

check-IsRbRep_example : check six ≡ some (height_of six.root)
check-IsRbRep_example = check-IsRbRep six six-IsRbRep

height-log_case : (b : ℕ) × (height six.root ≤ 2 * b) × (2 ^ b ≤ size six.root + 1)
height-log_case = height-log six.root six-IsRbRep.tree

-- At 40, whose parent is 20: the next element is 50, the last one before it 30.
step_node_lem_example :
    (inorder (
        unwind
          (frame true black 20 (leaf black 10) ∷ [])
          (node red 40 (leaf black 30) (leaf black 50)))
      ≡ 10 ∷ 20 ∷ 30 ∷ 40 ∷ 50 ∷ [])
    × (next_node
          (frame true black 20 (leaf black 10) ∷ [], node red 40 (leaf black 30) (leaf black 50))
        ≡ some 50)
    × (prev_node
          (frame true black 20 (leaf black 10) ∷ [], node red 40 (leaf black 30) (leaf black 50))
        ≡ some 30)
unfolding head last_of
step_node_lem_example =
    step_node_lem (frame true black 20 (leaf black 10) ∷ []) red 40 (leaf black 30) (leaf black 50)

run-shallow_example :
    (t : RbRep) × (run (inserting 5 ∷ inserting 3 ∷ erasing 5 ∷ inserting 8 ∷ []) new ≡ some t)
    × ((x : ℕ)
        → contains x (inorder t.root)
          ≡ holds (inserting 5 ∷ inserting 3 ∷ erasing 5 ∷ inserting 8 ∷ []) x false)
    × ((b : ℕ) × (height t.root ≤ 2 * b) × (2 ^ b ≤ size t.root + 1))
run-shallow_example = run-shallow (inserting 5 ∷ inserting 3 ∷ erasing 5 ∷ inserting 8 ∷ [])
