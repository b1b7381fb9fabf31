-- ===== src/Tests/System.antt =====
-- A system whose writes are short, and creating a file there.
use alphadb.Prelude.{ℕ, ◌+◌, []}
use alphadb.Prelude.Int.{pos}
use alphadb.Io.IoManager.{Files, System, create_file, blank_header}
use alphadb.Io.IoManager.Descriptors.{Leaves, still_open, create_file-Leaves}

-- The state of the system is the next descriptor.
abbrev short_writes : Files ℕ
short_writes = record {
  create = λ _ w. (pos w, w + 1);
  open_rw = λ _ w. (pos w, w + 1);
  write = λ _ _ w. (pos 100, w);
  read = λ _ w. (pos 8, (blank_header, w));
  close = λ _ w. (pos 0, w);
  unlink = λ _ w. (pos 0, w);
}

abbrev fresh : System ℕ
fresh = record { world = 3; calls = [] }

create_file-Leaves_example :
    Leaves (create_file short_writes 5 fresh) (λ _. still_open []) (still_open [])
create_file-Leaves_example = create_file-Leaves short_writes 5 fresh
