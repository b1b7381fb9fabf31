-- ===== src/Db.antt =====
-- db/alphadb.cc: the databases as directories, opened and closed one at a time or one inside the
-- other. A path is the list of the names below DB_BASE_DIR, and a name is a number. The calls of the
-- system are a parameter.
pub mod Session
use alphadb.Prelude.{ℕ, Bool, true, false, not, List, [], ◌∷◌, ◌++◌, ◌==◌, if◌then◌else◌}

-- chdir, mkdir below DB_BASE_DIR, and `rm -r`: whether they succeed, and the new state.
pub record System (W : Type 0) : Type 0 where
  pub chdir : List ℕ → W → Bool × W
  pub mkdir : ℕ → W → Bool × W
  pub remove : ℕ → W → Bool × W

pub record AlphaDb (W : Type 0) : Type 0 where
  pub current_dir : List ℕ
  pub db_opened : ℕ → Bool
  pub world : W

-- db_opened_[name] = b
unfoldable pub mark : ℕ → Bool → (ℕ → Bool) → ℕ → Bool
mark name b opened n = if n == name then b else opened n

module _ {W : Type 0} (os : System W) where
  -- alphadb::create_db
  unfoldable pub create_db : ℕ → AlphaDb W → Bool × AlphaDb W
  create_db name s =
      let at : Bool × W = os.chdir [] s.world in
      let made : Bool × W = os.mkdir name at.1 in
      if not at.0 then (false, record s { world = at.1 }) else (made.0, record s { world = made.1 })

  -- alphadb::open_db
  unfoldable pub open_db : ℕ → AlphaDb W → Bool × AlphaDb W
  open_db name s =
      let dir : List ℕ = s.current_dir ++ name ∷ [] in
      let at : Bool × W = os.chdir dir s.world in
      if s.db_opened name
      then (true, s)
      else if not at.0
      then (false, record s { current_dir = dir; world = at.1 })
      else (
        true,
        record s { current_dir = dir; db_opened = mark name true s.db_opened; world = at.1 },
      )

  -- alphadb::close_db
  unfoldable pub close_db : ℕ → AlphaDb W → Bool × AlphaDb W
  close_db name s =
      let at : Bool × W = os.chdir [] s.world in
      if not (s.db_opened name)
      then (true, s)
      else if not at.0
      then (false, record s { current_dir = []; world = at.1 })
      else (
        true,
        record s { current_dir = []; db_opened = mark name false s.db_opened; world = at.1 },
      )

  -- alphadb::drop_db, which does not look at the answer of close_db
  unfoldable pub drop_db : ℕ → AlphaDb W → Bool × AlphaDb W
  drop_db name s =
      let t : AlphaDb W = if s.db_opened name then (close_db name s).1 else s in
      let gone : Bool × W = os.remove name t.world in (gone.0, record t { world = gone.1 })
