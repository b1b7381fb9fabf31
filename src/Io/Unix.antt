-- ===== src/Io/Unix.antt =====
-- The system calls that io/ makes on an open file. They are not code of the repository: the model
-- takes them as a record of functions on the kernel's state, and what it relies on as laws.
use alphadb.Prelude.{ℕ, ◌+◌, ◌≤◌, ◌≡◌, ◌≢◌, ◌⊎◌}
use alphadb.Prelude.Int.{ℤ, pos}

-- `D` is what one page buffer holds, `W` the state of the kernel and the disk.
pub record Unix (D W : Type 0) : Type 0 where
  -- lseek(fd, offset, SEEK_SET)
  pub lseek : ℕ → ℤ → W → ℤ × W
  -- read(fd, dest, count): the result, what `dest` then holds, and the new state
  pub read : ℕ → ℕ → D → W → ℤ × D × W
  -- write(fd, src, count)
  pub write : ℕ → D → ℕ → W → ℤ × W

-- Two blocks of `n` bytes that have no byte in common. Descriptors name different files.
abbrev pub Apart : ℕ → ℕ → ℕ → ℕ → ℕ → Type 0
Apart n f o g q = (f ≢ g) ⊎ ((o + n ≤ q) ⊎ (q + n ≤ o))

-- The documented behaviour of the calls, for blocks of `size` bytes: `block w fd offset` is what
-- the file holds there. A call may fail or transfer less, and then promises nothing of its block.
pub record IsUnix {D W : Type 0} (os : Unix D W) (size : ℕ) (block : W → ℕ → ℕ → D) : Type 0 where
  pub seek_keeps :
      (fd : ℕ) (off : ℤ) (w : W) (g q : ℕ) → block (os.lseek fd off w).1 g q ≡ block w g q
  pub read_keeps :
      (fd n : ℕ) (d : D) (w : W) (g q : ℕ) → block (os.read fd n d w).2 g q ≡ block w g q
  pub read_gets :
      (fd off r : ℕ) (d : D) (w : W)
      → (os.lseek fd (pos off) w).0 ≡ pos r
      → (os.read fd size d (os.lseek fd (pos off) w).1).0 ≡ pos size
      → (os.read fd size d (os.lseek fd (pos off) w).1).1 ≡ block w fd off
  pub write_sets :
      (fd off r : ℕ) (d : D) (w : W)
      → (os.lseek fd (pos off) w).0 ≡ pos r
      → (os.write fd d size (os.lseek fd (pos off) w).1).0 ≡ pos size
      → block (os.write fd d size (os.lseek fd (pos off) w).1).1 fd off ≡ d
  pub write_apart :
      (fd off r : ℕ) (d : D) (w : W) (g q : ℕ)
      → (os.lseek fd (pos off) w).0 ≡ pos r
      → Apart size fd off g q
      → block (os.write fd d size (os.lseek fd (pos off) w).1).1 g q ≡ block w g q
