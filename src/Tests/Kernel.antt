-- ===== src/Tests/Kernel.antt =====
-- A kernel that keeps files in memory and never fails, and one whose seeks fail.
use alphadb.Prelude.{ℕ, ◌≤◌, ◌≡◌, refl, ◌&&◌, arith, ◌==◌, if◌then◌else◌}
use alphadb.Prelude.Int.{ℤ, pos, negsuc}
use alphadb.Io.Unix.{Unix, IsUnix}

-- The position of the last seek, and the block at each place of each file.
pub record Kernel (D : Type 0) : Type 0 where
  pub cursor : ℕ
  pub files : ℕ → ℕ → D

abbrev pub block : {D : Type 0} → Kernel D → ℕ → ℕ → D
block w fd offset = w.files fd offset

abbrev pub seek : {D : Type 0} → ℤ → Kernel D → ℤ × Kernel D
seek (pos offset) w = (pos offset, record w { cursor = offset })
seek (negsuc k) w = (negsuc 0, w)

abbrev pub write_at : {D : Type 0} → ℕ → D → Kernel D → Kernel D
write_at fd d w = record w { files = λ f o. if fd == f && w.cursor == o then d else w.files f o }

abbrev pub memory : {D : Type 0} → Unix D (Kernel D)
memory = record {
  lseek = λ fd offset w. seek offset w;
  read = λ fd n d w. (pos n, w.files fd w.cursor, w);
  write = λ fd d n w. (pos n, write_at fd d w);
}

abbrev pub broken : {D : Type 0} → Unix D (Kernel D)
broken = record {
  lseek = λ fd offset w. (negsuc 0, w);
  read = λ fd n d w. (negsuc 0, d, w);
  write = λ fd d n w. (negsuc 0, w);
}

seek-files : {D : Type 0} (offset : ℤ) (w : Kernel D) → (seek offset w).1.files ≡ w.files
seek-files (pos o) w = refl
seek-files (negsuc k) w = refl

pub memory-IsUnix : {D : Type 0} (size : ℕ) → 1 ≤ size → IsUnix (memory {D = D}) size block
memory-IsUnix size some_bytes = record {
  seek_keeps = λ fd off w g q. ground (arith, seek-files off w);
  read_keeps = λ fd n d w g q. refl;
  read_gets = λ fd off r d w a b. refl;
  write_sets = λ fd off r d w a b. ground arith;
  write_apart = λ fd off r d w g q a ap. ground arith;
}
