-- ===== src/Examples.antt =====
-- Tests on concrete inputs, and the theorems applied at inputs that meet their hypotheses.
mod Words
mod Trees
mod Backbones
mod Locks
mod Commits
mod Ranges
mod Histories
mod Queues
mod Counters
mod RedBlacks
mod SortedLists
