-- ===== src/Lib.antt =====
-- STO, a software transactional memory, and the layout lock that a search structure beside it uses.
-- This library models the parts below; each definition follows the function that its comment names.
--
-- Tid.antt          Interface.hh, TransactionTid: version words with a lock field
-- Tid/Rw.antt       Interface.hh, the same words as reader-writer locks
-- Tid/Commutative   Interface.hh, TCommutativeVersion
-- LayoutLock.antt   layoutLock/llock.hh, ScalableRWLock and LayoutLock_DefaultImpl_
-- Tree.antt         layoutLock/NoLockTree.hh, NoLockHelper
-- Treelet.antt      layoutLock/GlobalLockTree.hh, GlobalLockTree
-- Backbone.antt     layoutLock/LayoutTree.hh, LayoutTree
-- Transaction.antt   Transaction.hh, TransItem.hh: items, states, TObject
-- Transaction/Set    Transaction.hh: start, allocate_item, find_item, item, read_item
-- Transaction/Commit Transaction.cc: try_commit, stop
-- Transaction/Opacity Transaction.cc: check_opacity, hard_check_opacity
-- Transaction/Proxy  Transaction.hh: TransProxy
-- Transaction/Version Transaction.hh: try_lock, commit_tid, set_version_unlock
-- IntRange.antt      TIntRange.hh: ranges and their proxies
-- Rwlock.antt        rwlock.hh
-- Rcu.antt           TRcu.hh, TRcu.cc: TRcuGroup, TRcuSet
-- Array.antt         TArray.hh, TBox.hh: elements with a version and a value
-- Array/Owners       TArray.hh: arrays as the objects of a commit, by the laws of Transaction/Commit
-- Array/Contents     TArray.hh: what the values in arrays are under a commit
-- Queue.antt         Queue.hh: the circular buffer and its transactional calls
-- Counter.antt       TCounter.hh: the calls of a transaction on a counter
-- RedBlack.antt      RBTreeInternal.hh: the red-black tree, insertion, searches, check
-- RedBlack/Delete    RBTreeInternal.hh: erase and its fixup
-- RedBlack/Step      RBTreeInternal.hh: next_node, prev_node
-- SortedList.antt    List.hh: the calls of a transaction on a sorted list
-- Examples           concrete runs
--
-- A transaction keeps a list of items, each for one key of one object. Reading an item observes a
-- version word; a commit locks the items with writes, checks the versions of the items with reads,
-- installs the writes and unlocks. The objects are a parameter: a record of the functions that
-- TObject declares, over a store, with what a commit relies on as named laws
-- (Transaction/Commit/Laws), which the elements of arrays meet (Array/Owners, Array/Contents). The
-- calls lock, check, unlock and cleanup do not change the flags of their item. A commit is modelled
-- as one thread runs it; the other threads' steps between its calls are not in the model, and what
-- they do to the store is not either. Packed values are numbers. The build options are the
-- defaults: no sorted write set, no consistency check, one probe of the hash table, no exponential
-- backoff.
--
-- A layout tree is a backbone of nodes with 15 keys and 16 children over treelets. A search runs
-- through the backbone without a lock, takes the lock of the treelet that it ends in, and asks the
-- layout lock whether the backbone may have changed meanwhile; a rebuilding of the backbone takes
-- the layout lock exclusively, gathers the items of all treelets into a sorted vector, and cuts
-- that vector into new treelets.
--
-- Machine words are natural numbers with their wrap-around written out; an assertion is a result
-- none. Signed indices and products of the layout tree are taken not to overflow int, which holds
-- below 2 ^ 27 items. A pointer to a node has one owner, so a tree of nodes is a value. A spinning
-- loop is given by one round of it, with what another thread may do between the read and the swap.
-- The layout lock is a step relation in which each access of shared memory is one step of one
-- thread, in sequentially consistent order.
--
-- Fuel stands where a range is halved (Tree.build_range), and the length of the range is enough;
-- try_lock counts its 8 attempts; the loops of the queue run at most as often as the buffer has
-- slots.
--
-- The queue, the sorted list and the counter are modelled as one transaction sees them: the
-- theorems on the queue and the list take them as unchanged between the calls, those on the counter
-- let it change before every call.
--
-- Not modelled: printing, memory reclamation by the allocator, the assembly form of the search, and
-- the parts of STO that are not listed above.
pub mod Base
pub mod Tid
pub mod LayoutLock
pub mod Tree
pub mod Treelet
pub mod Backbone
pub mod Transaction
pub mod IntRange
pub mod Rwlock
pub mod Rcu
pub mod RedBlack
pub mod SortedList
pub mod Array
pub mod Queue
pub mod Counter
mod Examples
