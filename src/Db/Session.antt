-- ===== src/Db/Session.antt =====
-- A session with one database.
use alphadb.Prelude.{
  ℕ, ◌≡◌, refl, ap, sym, ◌∙◌, Bool, true, false, [], ◌∷◌, ◌==◌, fun_ext, arith, Bool-cases, inl,
  inr, ==_iff,
}
use alphadb.Db.{System, AlphaDb, mark, open_db, close_db}

mark-mark :
    (name : ℕ) (opened : ℕ → Bool)
    → opened name ≡ false
    → mark name false (mark name true opened) ≡ opened
unfolding mark
mark-mark name opened shut = fun_ext λ n. elim (Bool-cases (n == name)) [
  | inl same ↦ let e : n ≡ name = (==_iff n name).0 same in rw same (sym (ap opened e ∙ shut))
  | inr other ↦ rw other refl
]

mark-same : (name : ℕ) (b : Bool) (opened : ℕ → Bool) → mark name b opened name ≡ b
unfolding mark
mark-same name b opened = let same : (name == name) ≡ true = ground arith in rw same refl

module _ {W : Type 0} (os : System W) (name : ℕ) (opened : ℕ → Bool) (w : W) where
  -- in DB_BASE_DIR, and in the directory of the database
  abbrev pub outside : AlphaDb W
  outside = record { current_dir = []; db_opened = opened; world = w }

  abbrev pub inside : AlphaDb W
  inside = record {
    current_dir = name ∷ [];
    db_opened = mark name true opened;
    world = (os.chdir (name ∷ []) w).1;
  }

  abbrev pub back : AlphaDb W
  back = record {
    current_dir = [];
    db_opened = opened;
    world = (os.chdir [] (os.chdir (name ∷ []) w).1).1;
  }

  -- With no other database entered, opening a closed database and closing it again answer true, if its
  -- directory and DB_BASE_DIR can be entered, and leave the state as it was but for the system.
  pub close_db-open_db :
      opened name ≡ false
      → (os.chdir (name ∷ []) w).0 ≡ true
      → (os.chdir [] (os.chdir (name ∷ []) w).1).0 ≡ true
      → (open_db os name outside ≡ (true, inside)) × (close_db os name inside ≡ (true, back))
  unfolding open_db close_db
  close_db-open_db shut enters leaves = (
    rw (open_db, shut, enters) refl,
    rw (close_db, mark-same name true opened, leaves, mark-mark name opened shut) refl,
  )
