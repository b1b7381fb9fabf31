-- ===== src/Io/IoManager.antt =====
-- io/io_manager.cc: creating, opening and removing the file of a page file. The calls of the system are
-- a parameter; those that succeed in opening, and those that close and remove, are recorded.
pub mod Descriptors
use alphadb.Prelude.{ℕ, zero, suc, ◌+◌, Bool, true, false, not, List, [], ◌∷◌, if◌then◌else◌}
use alphadb.Prelude.Int.{ℤ, pos, negsuc, int_eq, int_lt}
use alphadb.Io.Result.{Out, ok, exception, M}
use alphadb.Io.FileHandle.{FileHeader}

-- The two calls of open, write of a page that starts with a header, read of a header, close and
-- unlink.
pub record Files (W : Type 0) : Type 0 where
  pub create : ℕ → W → ℤ × W
  pub open_rw : ℕ → W → ℤ × W
  pub write : ℕ → FileHeader → W → ℤ × W
  pub read : ℕ → W → ℤ × (FileHeader × W)
  pub close : ℕ → W → ℤ × W
  pub unlink : ℕ → W → ℤ × W

pub data Call : Type 0 where
  opened closed : ℕ → Call
  unlinked : ℕ → Call

pub record System (W : Type 0) : Type 0 where
  pub world : W
  pub calls : List Call

-- BUFFER_SIZE and sizeof(file_header)
abbrev pub buffer_size : ℕ
buffer_size = 4096

abbrev pub header_size : ℕ
header_size = 8

abbrev pub blank_header : FileHeader
blank_header = record { first_free = negsuc 0; page_num = 0 }

-- What open_file sets of a handle besides its flags and its pool.
pub record Opened : Type 0 where
  pub fd : ℕ
  pub header : FileHeader

module _ {W : Type 0} (os : Files W) where
  -- A call that is recorded.
  unfoldable pub recorded : Call → W → System W → System W
  recorded c w s = record { world = w; calls = c ∷ s.calls }

  -- close(fd), recorded whatever it answers
  unfoldable pub close_fd : ℕ → System W → ℤ × System W
  close_fd fd s = ((os.close fd s.world).0, recorded (closed fd) (os.close fd s.world).1 s)

  unfoldable pub unlink_file : ℕ → System W → ℤ × System W
  unlink_file name s =
      ((os.unlink name s.world).0, recorded (unlinked name) (os.unlink name s.world).1 s)

  -- create_file behind its call of open
  unfoldable pub write_header_page : ℕ → ℕ → M (System W) (Unit {0})
  write_header_page name fd s =
      let wrote : ℤ × W = os.write fd blank_header s.world in
      let t : System W = record s { world = wrote.1 } in
      if not (int_eq wrote.0 (pos buffer_size))
      then exception (unlink_file name (close_fd fd t).1).1
      else if int_lt (close_fd fd t).0 (pos 0)
      then exception (close_fd fd t).1
      else ok tt (close_fd fd t).1

  -- io_manager::create_file
  unfoldable pub create_file : ℕ → M (System W) (Unit {0})
  create_file name s = elim (os.create name s.world).0 [
    | negsuc _ ↦ exception (record s { world = (os.create name s.world).1 })
    | pos fd ↦ write_header_page name fd (recorded (opened fd) (os.create name s.world).1 s)
  ]

  -- open_file behind its call of open
  unfoldable pub read_header : ℕ → M (System W) Opened
  read_header fd s =
      let got : ℤ × (FileHeader × W) = os.read fd s.world in
      let t : System W = record s { world = got.1.1 } in
      if not (int_eq got.0 (pos header_size))
      then exception t
      else ok (record { fd = fd; header = got.1.0 }) t

  -- io_manager::open_file
  unfoldable pub open_file : ℕ → M (System W) Opened
  open_file name s = elim (os.open_rw name s.world).0 [
    | negsuc _ ↦ exception (record s { world = (os.open_rw name s.world).1 })
    | pos fd ↦ read_header fd (recorded (opened fd) (os.open_rw name s.world).1 s)
  ]

  -- io_manager::destroy_file
  unfoldable pub destroy_file : ℕ → M (System W) (Unit {0})
  destroy_file name s =
      if int_lt (unlink_file name s).0 (pos 0)
      then exception (unlink_file name s).1
      else ok tt (unlink_file name s).1
