-- ===== src/Array/Owners.antt =====
-- TArray.hh, TBox.hh: arrays as the objects that own the items of a transaction.
--
-- The store has the element of every array and index. A word in it is free, or has the lock bit, which every
-- operation keeps. An assertion that fails, in `install` after the value is written, leaves the word alone.
use sto_layout.Base.{
  ℕ, ◌+◌, ◌%◌, ◌<◌, ◌≤◌, ◌≡◌, refl, ◌∙◌, ap, Bool, true, false, ◌&&◌, ◌==◌, if◌then◌else◌, inl, inr,
  Option, none, some, arith, Bool-cases,
}
use sto_layout.Tid
use sto_layout.Tid.{is_locked, is_locked_here}
use sto_layout.Tid.Laws.{owner_mark}
use sto_layout.Transaction.{TransItem, clear_needs_unlock, Objects}
use sto_layout.Transaction.Commit.Laws.{mine, LockLaws}
use sto_layout.Array.{Elem, lock_elem, check_elem, install_elem, unlock_elem}
use sto_layout.Array.Words.{
  field, Tidy, lock_elem-Locks, lock_elem-refused, install_elem-Installs, unlock_elem-Unlocks,
}

abbrev pub Store : Type 0
Store = ℕ → ℕ → (e : Elem) × Tidy e

abbrev pub is_at : TransItem → ℕ → ℕ → Bool
is_at it a k = (it.owner == a) && (it.key == k)

-- The element of an item replaced.
abbrev pub put : Store → TransItem → (e : Elem) × Tidy e → Store
put s it e a k = if is_at it a k then e else s a k

-- An item of an array takes the lock of its element.
abbrev pub weight : TransItem → ℕ → ℕ → ℕ
weight it a k = if is_at it a k then 1 else 0

abbrev pub or_else : Elem → Option Elem → Elem
or_else e none = e
or_else e (some e') = e'

abbrev pub passes : Option Bool → Bool
passes none = false
passes (some b) = b

abbrev pub cleared : TransItem → Option Elem → TransItem
cleared it none = it
cleared it (some e) = clear_needs_unlock it

mine-Tidy : (e : Elem) (t : ℕ) → t < 32 → field e ≡ 32 + t → Tidy e
unfolding is_locked
mine-Tidy e t lt h = inr (ground (arith, h, lt))

-- One thread, and the id of its commit, which has a clear lock field.
module _ (here : ℕ) (lt : here < 32) (id : ℕ) (free : id % 64 ≡ 0) where
  unfoldable pub held_at : Elem → ℕ
  unfolding is_locked_here
  held_at e = if is_locked_here e.vers here then 1 else 0

  held_at-free : (e : Elem) → field e ≡ 0 → held_at e ≡ 0
  unfolding held_at is_locked_here
  held_at-free e h = ground (arith, h, owner_mark here lt)

  held_at-mine : (e : Elem) → field e ≡ 32 + here → held_at e ≡ 1
  unfolding held_at is_locked_here
  held_at-mine e h = ground (arith, h, owner_mark here lt)

  pub lock-Tidy : (e : Elem) (r : Bool) → Tidy e → Tidy (lock_elem e here r).0
  lock-Tidy e r tidy = elim (Bool-cases (lock_elem e here r).1) [
    | inl on ↦ mine-Tidy (lock_elem e here r).0 here lt (lock_elem-Locks e here r lt tidy on).mine
    | inr off ↦ rw (lock_elem-refused e here r off) tidy
  ]

  pub unlock-Tidy :
      (e : Elem) (o : Option Elem) → unlock_elem e here ≡ o → Tidy e → Tidy (or_else e o)
  unlock-Tidy e none h tidy = tidy
  unlock-Tidy e (some e') h tidy = inl (unlock_elem-Unlocks e here lt h).free

  pub install-Tidy :
      (e : Elem) (x : ℕ) (o : Option Elem)
      → install_elem e id x here ≡ o
      → Tidy e
      → Tidy (or_else (record e { value = x }) o)
  install-Tidy e x none h tidy = tidy
  install-Tidy e x (some e') h tidy =
      let w = (install_elem-Installs e id x here lt free h).word in inl (omega (arith, w, free))

  abbrev pub locked : (e : Elem) × Tidy e → Bool → (e : Elem) × Tidy e
  locked e r = ((lock_elem e.0 here r).0, lock-Tidy e.0 r e.1)

  abbrev pub unlocked : (e : Elem) × Tidy e → (e : Elem) × Tidy e
  unlocked e = (or_else e.0 (unlock_elem e.0 here), unlock-Tidy e.0 (unlock_elem e.0 here) refl e.1)

  abbrev pub installed : (e : Elem) × Tidy e → ℕ → (e : Elem) × Tidy e
  installed e x = (
    or_else (record e.0 { value = x }) (install_elem e.0 id x here),
    install-Tidy e.0 x (install_elem e.0 id x here) refl e.1,
  )

  abbrev pub arrays : Objects Store
  arrays = record {
    lock = λ it s.
        let e = s it.owner it.key in
        (put s it (locked e it.has_read), (lock_elem e.0 here it.has_read).1);
    check_predicate = λ it s c. (it, true);
    check = λ it s. passes (check_elem (s it.owner it.key).0 it.rdata here);
    install = λ it s.
        let e = s it.owner it.key in
        (cleared it (install_elem e.0 id it.wdata here), put s it (installed e it.wdata));
    unlock = λ it s. put s it (unlocked (s it.owner it.key));
    cleanup = λ it s c. s;
  }

  abbrev pub held : Store → ℕ → ℕ → ℕ
  held s a k = held_at (s a k).0

  -- A new element at the place of an item, where only that place is counted.
  put-held :
      (s : Store) (it : TransItem) (e : (x : Elem) × Tidy x) (n m a k : ℕ)
      → (is_at it a k ≡ true → held_at e.0 + n ≡ held_at (s it.owner it.key).0 + m)
      → held (put s it e) a k + (if is_at it a k then n else 0)
        ≡ held s a k + (if is_at it a k then m else 0)
  put-held s it e n m a k h = elim (Bool-cases (is_at it a k)) [
    | inl on ↦
        let own : it.owner ≡ a = ground (arith, on) in
        let key : it.key ≡ k = ground (arith, on) in
        let h' : held_at e.0 + n ≡ held_at (s a k).0 + m =
          h on ∙ ap (λ o. held_at (s o it.key).0 + m) own ∙ ap (λ j. held_at (s a j).0 + m) key in
        rw on h'
    | inr off ↦ rw off refl
  ]

  held_owner :
      (s : Store) (it : TransItem) (a k : ℕ)
      → weight it a k ≤ held s a k
      → is_at it a k ≡ true
      → 1 ≤ held_at (s it.owner it.key).0
  held_owner s it a k le on =
      let own : it.owner ≡ a = ground (arith, on) in
      let key : it.key ≡ k = ground (arith, on) in rw (own, key) (rw on at le)

  lock_one :
      (e : Elem) (r : Bool)
      → Tidy e
      → (lock_elem e here r).1 ≡ true
      → held_at (lock_elem e here r).0 + 0 ≡ held_at e + 1
  lock_one e r tidy got =
      let l = lock_elem-Locks e here r lt tidy got in
      omega (arith, held_at-free e l.free, held_at-mine (lock_elem e here r).0 l.mine)

  lock_none :
      (e : Elem) (r : Bool)
      → (lock_elem e here r).1 ≡ false
      → held_at (lock_elem e here r).0 + 0 ≡ held_at e + 0
  unfolding held_at
  lock_none e r off = rw (lock_elem-refused e here r off) refl

  unlock_one :
      (e : Elem) (o : Option Elem)
      → unlock_elem e here ≡ o
      → 1 ≤ held_at e
      → held_at (or_else e o) + 1 ≡ held_at e + 0
  unfolding held_at unlock_elem Tid.unlock
  unlock_one e none h le = absurd (ground (arith, h, le))
  unlock_one e (some e') h le =
      let u = unlock_elem-Unlocks e here lt h in
      omega (arith, held_at-free e' u.free, held_at-mine e u.mine)

  install_one :
      (e : Elem) (it : TransItem) (o : Option Elem)
      → install_elem e id it.wdata here ≡ o
      → it.needs_unlock ≡ true
      → 1 ≤ held_at e
      → held_at (or_else (record e { value = it.wdata }) o) + 1
        ≡ held_at e + (if (cleared it o).needs_unlock then 1 else 0)
  unfolding held_at
  install_one e it none h marked le = rw marked refl
  install_one e it (some e') h marked le =
      let i = install_elem-Installs e id it.wdata here lt free h in
      let w : field e' ≡ 0 = omega (arith, i.word, free) in
      omega (arith, held_at-free e' w, held_at-mine e i.mine)

  mine-cleared :
      (it : TransItem) (o : Option Elem) (a k : ℕ)
      → mine weight (cleared it o) a k
        ≡ (if is_at it a k then (if (cleared it o).needs_unlock then 1 else 0) else 0)
  unfolding mine
  mine-cleared it none a k = ground arith
  mine-cleared it (some e) a k = ground arith

  -- Arrays meet the laws of locks.
  pub arrays-LockLaws : LockLaws arrays weight held
  arrays-LockLaws = record {
    mark = λ it b a k. refl;
    taken = λ it s a k got.
        let e = s it.owner it.key in
        let r =
          put-held s it (locked e it.has_read) 0 1 a k (λ on. lock_one e.0 it.has_read e.1 got) in
        ground (arith, r);
    refused = λ it s a k off.
        let e = s it.owner it.key in
        let r =
          put-held s it (locked e it.has_read) 0 0 a k (λ on. lock_none e.0 it.has_read off) in
        ground (arith, r);
    predicate = λ it s a k. refl;
    predicate_mark = λ it s. refl;
    installed = λ it s a k marked le.
        let e = s it.owner it.key in
        let o = install_elem e.0 id it.wdata here in
        let r =
          put-held s it (installed e it.wdata) 1 (if (cleared it o).needs_unlock then 1 else 0) a k
            (λ on. install_one e.0 it o refl marked (held_owner s it a k le on)) in
        rw (mine-cleared it o a k) r;
    unlocked = λ it s a k le.
        let e = s it.owner it.key in
        let r =
          put-held s it (unlocked e) 1 0 a k
            (λ on. unlock_one e.0 (unlock_elem e.0 here) refl (held_owner s it a k le on)) in
        ground (arith, r);
    cleaned = λ it s c a k. refl;
  }
