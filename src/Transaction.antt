-- ===== src/Transaction.antt =====
-- Transaction.hh, TransItem.hh, and `TObject` of Interface.hh: the data of one transaction.
--
-- The flag bits of an item's first word are Boolean fields, its owner and key numbers. The chunks of the
-- item array are one list. Calls of the objects that own the items go through the record `Objects`.
pub mod Set
pub mod Commit
pub mod Opacity
pub mod Proxy
pub mod Version
use sto_layout.Base.{
  ℕ, ◌<◌, ◌≡◌, Bool, true, false, ◌&&◌, ◌||◌, ◌==◌, ltb, if◌then◌else◌, Option, none, some, List,
  [], ◌∷◌, length, set,
}

pub record TransItem : Type 0 where
  pub owner : ℕ
  pub key : ℕ
  pub has_write : Bool
  pub has_read : Bool
  pub needs_unlock : Bool  -- `lock_bit`
  pub has_predicate : Bool
  pub has_stash : Bool
  pub rdata : ℕ
  pub wdata : ℕ

-- The constructor of an item: no flag is set.
abbrev pub new_item : ℕ → ℕ → TransItem
new_item owner key = record {
  owner = owner;
  key = key;
  has_write = false;
  has_read = false;
  needs_unlock = false;
  has_predicate = false;
  has_stash = false;
  rdata = 0;
  wdata = 0;
}

abbrev pub same_item : TransItem → TransItem → Bool
same_item x y = (x.owner == y.owner) && (x.key == y.key)

-- `operator<`: by key, then by owner.
unfoldable pub item_lt : TransItem → TransItem → Bool
item_lt x y = ltb x.key y.key || ((x.key == y.key) && ltb x.owner y.owner)

abbrev pub clear_needs_unlock : TransItem → TransItem
clear_needs_unlock it = record it { needs_unlock = false }

pub data State : Type 0 where
  in_progress : State
  opacity_check : State
  committing : State
  committing_locked : State
  aborted : State
  committed : State

-- `state_ < s_aborted`
abbrev pub is_in_progress : State → Bool
is_in_progress aborted = false
is_in_progress committed = false
is_in_progress _ = true

-- `state_ == s_committing || state_ == s_committing_locked`
abbrev pub is_committing : State → Bool
is_committing committing = true
is_committing committing_locked = true
is_committing _ = false

pub record Transaction : Type 0 where
  pub threadid : ℕ
  pub hash_base : ℕ
  pub first_write : ℕ
  pub state : State
  pub any_writes : Bool
  pub any_nonopaque : Bool
  pub may_duplicate_items : Bool
  pub start_tid : ℕ
  pub commit_tid : ℕ
  pub tset : List TransItem
  pub hashtable : ℕ → ℕ

-- The virtual functions of `TObject`, over a store of type `S` that holds all shared objects. `owner()` of
-- the item selects the object.
pub record Objects (S : Type 0) : Type 0 where
  pub lock : TransItem → S → S × Bool
  pub check_predicate : TransItem → S → Bool → TransItem × Bool
  pub check : TransItem → S → Bool
  pub install : TransItem → S → TransItem × S
  pub unlock : TransItem → S → S
  pub cleanup : TransItem → S → Bool → S

-- `preceding_duplicate_read`: one of the items before has the owner and the key of `needle`, and a read.
unfoldable pub preceding_duplicate_read : List TransItem → TransItem → Bool
preceding_duplicate_read [] needle = false
preceding_duplicate_read (it ∷ before) needle =
    (same_item it needle && it.has_read) || preceding_duplicate_read before needle
