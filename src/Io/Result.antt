-- ===== src/Io/Result.antt =====
-- What a call of the storage layer comes to: the layer reports every failure by `throw
-- std::exception{}`, which leaves the state as it is at that point.
use alphadb.Prelude.{Bool, true, false}

pub data Out (S A : Type 0) : Type 0 where
  ok : A → S → Out S A
  exception : S → Out S A
  -- undefined behaviour, such as a write through a null pointer
  crash : Out S A

abbrev pub M : Type 0 → Type 0 → Type 0
M S A = S → Out S A

module _ {S : Type 0} where
  abbrev pub pure : {A : Type 0} → A → M S A
  pure a s = ok a s

  abbrev pub throw : {A : Type 0} → M S A
  throw s = exception s

  infixl 5 ◌>>=◌ ◌>>◌
  abbrev pub ◌>>=◌ : {A B : Type 0} → M S A → (A → M S B) → M S B
  ◌>>=◌ m f s = elim (m s) [ ok a s' ↦ f a s' | exception s' ↦ exception s' | crash ↦ crash ]

  abbrev pub ◌>>◌ : {B : Type 0} → M S (Unit {0}) → M S B → M S B
  m >> k = m >>= λ _. k

  abbrev pub modify : (S → S) → M S (Unit {0})
  modify f s = ok tt (f s)

  abbrev pub gets : {A : Type 0} → (S → A) → M S A
  gets f s = ok (f s) s

  -- `if (b) throw`
  abbrev pub refuse : Bool → M S (Unit {0})
  refuse true s = exception s
  refuse false s = ok tt s
