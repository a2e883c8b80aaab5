-- ===== src/Transaction/Commit/Laws.antt =====
-- What a commit relies on in the objects that own its items.
use sto_layout.Base.{ℕ, ◌+◌, ◌≤◌, ◌≡◌, Bool, true, false, ◌&&◌, ◌==◌, if◌then◌else◌, All}
use sto_layout.Transaction.{TransItem, Transaction, Objects}

-- Whether the item is the one of object `a` with key `k`, as a number.
unfoldable pub here : TransItem → ℕ → ℕ → ℕ
here it a k = if (it.owner == a) && (it.key == k) then 1 else 0

module _ (weight : TransItem → ℕ → ℕ → ℕ) where
  -- The locks that the item still has to give back.
  unfoldable pub mine : TransItem → ℕ → ℕ → ℕ
  mine it a k = if it.needs_unlock then weight it a k else 0

-- `weight it a k` counts the locks that `lock` takes for an item, at the place `k` of object `a`: one for an
-- element of an array, none for an item whose `lock` returns true without a lock, as those of the nodes
-- of a list or the slots of a queue. `held s a k` counts those that this thread holds in `s`. A lock that is
-- granted adds the weight and `unlock` takes it away. `install` of an item that is marked as locked may give
-- its locks back if it clears the mark, as `set_version_unlock` does. A predicate check keeps the weight
-- and the mark.
pub record LockLaws {S : Type 0} (o : Objects S) (weight : TransItem → ℕ → ℕ → ℕ)
    (held : S → ℕ → ℕ → ℕ) : Type 0 where
  pub mark :
      (it : TransItem) (b : Bool) (a k : ℕ)
      → weight (record it { needs_unlock = b }) a k ≡ weight it a k
  pub taken :
      (it : TransItem) (s : S) (a k : ℕ)
      → (o.lock it s).1 ≡ true
      → held (o.lock it s).0 a k ≡ held s a k + weight it a k
  pub refused :
      (it : TransItem) (s : S) (a k : ℕ)
      → (o.lock it s).1 ≡ false
      → held (o.lock it s).0 a k ≡ held s a k
  pub predicate :
      (it : TransItem) (s : S) (a k : ℕ)
      → weight (o.check_predicate it s true).0 a k ≡ weight it a k
  pub predicate_mark :
      (it : TransItem) (s : S) → (o.check_predicate it s true).0.needs_unlock ≡ it.needs_unlock
  pub installed :
      (it : TransItem) (s : S) (a k : ℕ)
      → it.needs_unlock ≡ true
      → weight it a k ≤ held s a k
      → held (o.install it s).1 a k + weight it a k
        ≡ held s a k + mine weight (o.install it s).0 a k
  pub unlocked :
      (it : TransItem) (s : S) (a k : ℕ)
      → weight it a k ≤ held s a k
      → held (o.unlock it s) a k + weight it a k ≡ held s a k
  pub cleaned :
      (it : TransItem) (s : S) (c : Bool) (a k : ℕ) → held (o.cleanup it s c) a k ≡ held s a k

-- `data s` is what the objects contain, and `apply` what the write of an item does to it: locks and the
-- cleanup do not change it, and neither the lock bit nor a predicate check changes the write.
pub record DataLaws {S D : Type 0} (o : Objects S) (data_of : S → D) (apply : TransItem → D → D)
    : Type 0 where
  pub lock_data : (it : TransItem) (s : S) → data_of (o.lock it s).0 ≡ data_of s
  pub unlock_data : (it : TransItem) (s : S) → data_of (o.unlock it s) ≡ data_of s
  pub cleanup_data : (it : TransItem) (s : S) (c : Bool) → data_of (o.cleanup it s c) ≡ data_of s
  pub install_data : (it : TransItem) (s : S) → data_of (o.install it s).1 ≡ apply it (data_of s)
  pub apply_predicate :
      (it : TransItem) (s : S) (d : D) → apply (o.check_predicate it s true).0 d ≡ apply it d
  pub apply_lock :
      (it : TransItem) (b : Bool) (d : D) → apply (record it { needs_unlock = b }) d ≡ apply it d

-- A transaction before its commit: no item is locked yet, and `any_writes` is set once an item has a write.
pub record IsReady (t : Transaction) : Type 0 where
  pub unlocked : All (λ it. it.needs_unlock ≡ false) t.tset
  pub writes : t.any_writes ≡ false → All (λ it. it.has_write ≡ false) t.tset
