-- ===== src/Raft/Outcome.antt =====
-- What a handler of the server comes to.
use alphadb.Prelude.{Option, none, some}

pub data Outcome (S A : Type 0) : Type 0 where
  done : A → S → Outcome S A
  -- the thread locks a mutex that it holds: undefined, and in practice it waits for ever
  relock : Outcome S A
  -- an access outside a vector, or a read of a variable that was never set
  wild : Outcome S A

abbrev pub H : Type 0 → Type 0 → Type 0
H S A = S → Outcome S A

module _ {S : Type 0} where
  abbrev pub pure : {A : Type 0} → A → H S A
  pure a s = done a s

  infixl 5 ◌>>=◌ ◌>>◌
  abbrev pub ◌>>=◌ : {A B : Type 0} → H S A → (A → H S B) → H S B
  ◌>>=◌ m f s = elim (m s) [ done a s' ↦ f a s' | relock ↦ relock | wild ↦ wild ]

  abbrev pub ◌>>◌ : {B : Type 0} → H S (Unit {0}) → H S B → H S B
  m >> k = m >>= λ _. k

  abbrev pub modify : (S → S) → H S (Unit {0})
  modify f s = done tt (f s)

  -- An access to a vector.
  abbrev pub have : {A : Type 0} → Option A → H S A
  have none s = wild
  have (some a) s = done a s
