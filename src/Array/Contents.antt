-- ===== src/Array/Contents.antt =====
-- TArray.hh, TBox.hh: what a commit does to the values in arrays.
use mathlib.Core.Path.{fun_ext}
use sto_layout.Base.{
  ℕ, ◌%◌, ◌<◌, ◌≡◌, refl, ◌∙◌, ap, Bool, true, false, if◌then◌else◌, inl, inr, Option, none, some,
  arith, Bool-cases,
}
use sto_layout.Transaction.{TransItem}
use sto_layout.Transaction.Commit.Laws.{DataLaws}
use sto_layout.Array.{Elem, install_elem, unlock_elem}
use sto_layout.Array.Words.{Tidy, lock_elem_lem, install_elem-Installs, unlock_elem-Unlocks}
use sto_layout.Array.Owners.{Store, is_at, put, or_else, arrays, locked, unlocked, installed}

-- One thread, and the id of its commit, which has a clear lock field.
module _ (here : ℕ) (lt : here < 32) (id : ℕ) (free : id % 64 ≡ 0) where
  -- The values, and the value that an item with a write puts into them.
  abbrev pub values : Store → ℕ → ℕ → ℕ
  values s a k = (s a k).0.value

  abbrev pub write_value : TransItem → (ℕ → ℕ → ℕ) → ℕ → ℕ → ℕ
  write_value it vs a k = if is_at it a k then it.wdata else vs a k

  choice-value :
      (b : Bool) (x y : (e : Elem) × Tidy e)
      → (if b then x else y).0.value ≡ (if b then x.0.value else y.0.value)
  choice-value true x y = refl
  choice-value false x y = refl

  put-values :
      (s : Store) (it : TransItem) (e : (x : Elem) × Tidy x)
      → e.0.value ≡ (s it.owner it.key).0.value
      → (a k : ℕ) → values (put s it e) a k ≡ values s a k
  put-values s it e h a k =
      choice-value (is_at it a k) e (s a k) ∙ elim (Bool-cases (is_at it a k)) [
        | inl on ↦
            let own : it.owner ≡ a = ground (arith, on) in
            let key : it.key ≡ k = ground (arith, on) in
            let h' : e.0.value ≡ (s a k).0.value =
              h ∙ ap (λ o. (s o it.key).0.value) own ∙ ap (λ j. (s a j).0.value) key in
            rw on h'
        | inr off ↦ rw off refl
      ]

  put-write_value :
      (s : Store) (it : TransItem) (e : (x : Elem) × Tidy x)
      → e.0.value ≡ it.wdata
      → (a k : ℕ) → values (put s it e) a k ≡ write_value it (values s) a k
  put-write_value s it e h a k =
      choice-value (is_at it a k) e (s a k)
      ∙ elim (Bool-cases (is_at it a k)) [ inl on ↦ rw on h | inr off ↦ rw off refl ]

  unlock-value :
      (e : Elem) (o : Option Elem) → unlock_elem e here ≡ o → (or_else e o).value ≡ e.value
  unlock-value e none h = refl
  unlock-value e (some e') h = (unlock_elem-Unlocks e here lt h).same_value

  install-value :
      (e : Elem) (x : ℕ) (o : Option Elem)
      → install_elem e id x here ≡ o
      → (or_else (record e { value = x }) o).value ≡ x
  install-value e x none h = refl
  install-value e x (some e') h = (install_elem-Installs e id x here lt free h).val

  -- And the laws of contents.
  pub arrays-DataLaws : DataLaws (arrays here lt id free) values write_value
  arrays-DataLaws = record {
    lock_data = λ it s.
        let e = s it.owner it.key in
        fun_ext (λ a. fun_ext (
          put-values s it (locked here lt id free e it.has_read)
            (lock_elem_lem e.0 here it.has_read).1 a));
    unlock_data = λ it s.
        let e = s it.owner it.key in
        let v = unlock-value e.0 (unlock_elem e.0 here) refl in
        fun_ext (λ a. fun_ext (put-values s it (unlocked here lt id free e) v a));
    cleanup_data = λ it s c. refl;
    install_data = λ it s.
        let e = s it.owner it.key in
        let v = install-value e.0 it.wdata (install_elem e.0 id it.wdata here) refl in
        fun_ext (λ a. fun_ext (put-write_value s it (installed here lt id free e it.wdata) v a));
    apply_predicate = λ it s d. refl;
    apply_lock = λ it b d. refl;
  }
