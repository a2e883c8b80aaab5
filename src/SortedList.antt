-- ===== src/SortedList.antt =====
-- List.hh: the list in sorted order without duplicates, and the calls of a transaction on it.
-- A value is a number, which stands for its place in the order of the list. A node is named by its value;
-- the versions of nodes and of the list are left out, as are the locks that one thread holds for itself.
pub mod Split
pub mod View
pub mod Change
pub mod Answering
pub mod Calls
pub mod Installing
pub mod Install
pub mod Cleanup
use sto_layout.Base.{
  ℕ, zero, suc, ◌+◌, ◌-◌, Bool, true, false, not, ◌&&◌, ◌||◌, if◌then◌else◌, ltb, ◌==◌, ◌>>=◌,
  update, Option, none, some, List, [], ◌∷◌,
}

pub record ListNode : Type 0 where
  pub val : ℕ
  pub is_valid : Bool

-- The item of a node: whether it has a read and a write, and the bits `insert`, `delete` and `doupdate`.
pub data NodeItem : Type 0 where
  node_item : Bool → Bool → Bool → Bool → Bool → NodeItem

-- An offset of the size, of either sign.
pub data ℤ : Type 0 where
  pos : ℕ → ℤ
  negsuc : ℕ → ℤ

unfoldable pub inc : ℤ → ℤ
inc (pos n) = pos (suc n)
inc (negsuc zero) = pos 0
inc (negsuc (suc n)) = negsuc n

unfoldable pub dec : ℤ → ℤ
dec (pos zero) = negsuc 0
dec (pos (suc n)) = pos n
dec (negsuc n) = negsuc (suc n)

-- The size with an offset of either sign.
unfoldable pub offset : ℕ → ℤ → ℤ
offset n (pos m) = pos (n + m)
offset n (negsuc m) = if ltb m n then pos (n - suc m) else negsuc (m - n)

-- The list with the items of one transaction: of its nodes, of the list itself, and of the size.
pub record SortedList : Type 0 where
  pub nodes : List ListNode
  pub listsize : ℕ
  pub items : ℕ → NodeItem
  pub list_read : Bool
  pub list_write : Bool
  pub size_offs : ℤ

unfoldable pub has_insert : NodeItem → Bool
has_insert (node_item read write insert delete doupdate) = write && not delete && not doupdate

-- `_find`.
unfoldable pub find_node : ℕ → List ListNode → Option ListNode
find_node elem [] = none
find_node elem (n ∷ ns) =
    if n.val == elem then some n else if ltb elem n.val then none else find_node elem ns

-- `_insert` of an element that the walk does not meet.
unfoldable pub insert_node : ListNode → List ListNode → List ListNode
insert_node new [] = new ∷ []
insert_node new (n ∷ ns) = if ltb new.val n.val then new ∷ n ∷ ns else n ∷ insert_node new ns

-- `_remove`.
unfoldable pub remove_node : ℕ → List ListNode → List ListNode
remove_node elem [] = []
remove_node elem (n ∷ ns) = if n.val == elem then ns else n ∷ remove_node elem ns

-- `validityCheck`.
unfoldable pub validity_check : Bool → NodeItem → Bool
validity_check valid (node_item read write insert delete doupdate) = valid || insert

-- What a call does with a node that it finds: its answer, the node's item, and what else changes.
-- `shrinks true` also locks the list at the commit.
pub data Effect : Type 0 where
  nothing : Effect
  grows : Effect
  shrinks : Bool → Effect
  takes_back : Effect

-- `transFind`, `transInsert` and `transDelete` at a node that is valid or the transaction's own.
unfoldable pub find_at : NodeItem → Bool × NodeItem × Effect
find_at (node_item read write insert true doupdate) =
    (false, node_item read write insert true doupdate, nothing)
find_at (node_item read write insert false doupdate) =
    (true, node_item true write insert false doupdate, nothing)

unfoldable pub insert_at : NodeItem → Bool × NodeItem × Effect
unfolding has_insert
insert_at (node_item read write insert delete doupdate) =
    if has_insert (node_item read write insert delete doupdate)
    then (false, node_item read write insert delete doupdate, nothing)
    else if doupdate
    then (false, node_item read write insert delete doupdate, nothing)
    else if delete
    then (true, node_item read true false false true, grows)
    else (false, node_item true write insert delete doupdate, nothing)

unfoldable pub delete_at : NodeItem → Bool × NodeItem × Effect
unfolding has_insert
delete_at (node_item read write insert delete doupdate) =
    if delete
    then (false, node_item read write insert delete doupdate, nothing)
    else if doupdate
    then (true, node_item read write false true false, shrinks false)
    else if has_insert (node_item read write insert delete doupdate)
    then (true, node_item false false false delete doupdate, takes_back)
    else (true, node_item true true false true false, shrinks true)

-- The rest of a call after its decision on the node.
unfoldable pub take_effect : ℕ → NodeItem → Effect → SortedList → SortedList
take_effect elem item nothing s = record s { items = update s.items elem item }
take_effect elem item grows s = record s {
  items = update s.items elem item;
  size_offs = inc s.size_offs;
}
take_effect elem item (shrinks locks) s = record s {
  items = update s.items elem item;
  size_offs = dec s.size_offs;
  list_write = locks || s.list_write;
}
take_effect elem item takes_back s = record s {
  nodes = remove_node elem s.nodes;
  items = update s.items elem item;
  size_offs = dec s.size_offs;
  list_read = true;
}

-- A call on the node that it has found; none is `Sto::abort`.
unfoldable pub on_node :
    (NodeItem → Bool × NodeItem × Effect) → ListNode → SortedList → Option (Bool × SortedList)
unfolding validity_check take_effect
on_node decide n s =
    if validity_check n.is_valid (s.items n.val)
    then (let r = decide (s.items n.val) in some (r.0, take_effect n.val r.1 r.2 s))
    else none

-- `verify_list`.
unfoldable pub verify_list : SortedList → SortedList
verify_list s = record s { list_read = true }

-- `size`.
unfoldable pub trans_size : SortedList → ℤ × SortedList
unfolding verify_list offset
trans_size s = (offset s.listsize s.size_offs, verify_list s)

-- The calls, each from what `_find` or the walk of `_insert` has found.
unfoldable pub find_found : Option ListNode → SortedList → Option (Bool × SortedList)
find_found none s = some (false, verify_list s)
find_found (some n) s = on_node find_at n s

unfoldable pub trans_find : ℕ → SortedList → Option (Bool × SortedList)
unfolding find_found find_at on_node verify_list
trans_find elem s = find_found (find_node elem s.nodes) s

unfoldable pub delete_found : Option ListNode → SortedList → Option (Bool × SortedList)
delete_found none s = some (false, verify_list s)
delete_found (some n) s = on_node delete_at n s

unfoldable pub trans_delete : ℕ → SortedList → Option (Bool × SortedList)
unfolding delete_found delete_at on_node verify_list
trans_delete elem s = delete_found (find_node elem s.nodes) s

-- The item of a new node: `add_write` and `add_flags(insert_bit)`.
abbrev pub add_insert : NodeItem → NodeItem
add_insert (node_item read write insert delete doupdate) = node_item read true true delete doupdate

unfoldable pub insert_found : ℕ → Option ListNode → SortedList → Option (Bool × SortedList)
unfolding insert_node
insert_found elem none s = some (
  true,
  record s {
    nodes = insert_node (record { val = elem; is_valid = false }) s.nodes;
    items = update s.items elem (add_insert (s.items elem));
    size_offs = inc s.size_offs;
    list_write = true;
  },
)
insert_found elem (some n) s = on_node insert_at n s

unfoldable pub trans_insert : ℕ → SortedList → Option (Bool × SortedList)
unfolding insert_found insert_at on_node
trans_insert elem s = insert_found elem (find_node elem s.nodes) s

-- `install` at a node with a write: it deletes, updates the value in place, or makes a new node valid.
unfoldable pub make_valid : ℕ → List ListNode → List ListNode
make_valid elem [] = []
make_valid elem (n ∷ ns) =
    if n.val == elem then record n { is_valid = true } ∷ ns else n ∷ make_valid elem ns

unfoldable pub install_nodes : ℕ → NodeItem → List ListNode → List ListNode
unfolding make_valid remove_node
install_nodes elem (node_item read write insert true doupdate) nodes = remove_node elem nodes
install_nodes elem (node_item read write insert false true) nodes = nodes
install_nodes elem (node_item read write insert false false) nodes = make_valid elem nodes

abbrev pub new_size : NodeItem → ℕ → ℕ
new_size (node_item read write insert true doupdate) size = size - 1
new_size (node_item read write insert false true) size = size
new_size (node_item read write insert false false) size = suc size

unfoldable pub install : ℕ → SortedList → SortedList
unfolding install_nodes
install elem s = record s {
  nodes = install_nodes elem (s.items elem) s.nodes;
  listsize = new_size (s.items elem) s.listsize;
}

-- A commit installs the items with a write one after the other.
unfoldable pub install_all : List ℕ → SortedList → SortedList
unfolding install
install_all [] s = s
install_all (elem ∷ elems) s = install_all elems (install elem s)

-- `cleanup` of a transaction that aborts.
abbrev pub cleanup_as : ℕ → NodeItem → SortedList → SortedList
cleanup_as elem (node_item read write true delete doupdate) s = record s {
  nodes = remove_node elem s.nodes;
}
cleanup_as elem (node_item read write false delete doupdate) s = s

unfoldable pub cleanup : ℕ → SortedList → SortedList
unfolding remove_node
cleanup elem s = cleanup_as elem (s.items elem) s

-- The loop of an abort over the items of the transaction, in any order.
unfoldable pub cleanup_all : List ℕ → SortedList → SortedList
unfolding cleanup
cleanup_all [] s = s
cleanup_all (elem ∷ elems) s = cleanup_all elems (cleanup elem s)
