-- ===== src/Raft/Store/Read.antt =====
-- What read_state_from_disk makes of what persist_state_to_disk wrote.
use alphadb.Prelude.{
  ℕ, zero, suc, ◌+◌, ◌-◌, ◌%◌, ◌/◌, ◌≡◌, refl, sym, subst, ap, ◌∙◌, inl, inr, true, Option, none,
  some, List, [], ◌∷◌, ◌++◌, ltb, Bool-cases, length,
}
use alphadb.Prelude.Int.{ℤ}
use alphadb.Raft.State.{LogEntry, RaftServer}
use alphadb.Raft.Store.{
  digits, put_number, put_vote, read_int, put_entries, persist_state, read_state,
}
use alphadb.Raft.Store.Digits.{
  Digits, Digits-append, digits-Digits, take_digits-all, take_digits-minus, Leaves, read_int-digit,
  read_int-minus, read_int-nothing,
}

read_int-all : (cs : List ℕ) → Digits cs → Leaves [] (read_int cs)
read_int-all [] d = rw read_int-nothing tt
read_int-all (c ∷ cs) d = read_int-digit c cs [] d.0 (take_digits-all 0 (c ∷ cs) d)

-- Behind the first digit of a number.
digits-first : (fuel n : ℕ) → (c : ℕ) × (cs : List ℕ) × (digits fuel n ≡ c ∷ cs)
unfolding digits
digits-first zero n = (_, _, refl)
digits-first (suc fuel) n = elim (Bool-cases (ltb n 10)) [
  | inl small ↦ (48 + n, [], rw (digits, small) refl)
  | inr large ↦
      let (c, cs, e) = digits-first fuel (n / 10) in
      (c, cs ++ (48 + n % 10) ∷ [], rw (digits, large) (ap (λ l. l ++ (48 + n % 10) ∷ []) e))
]

read_int-before : (n : ℕ) (ds : List ℕ) → Leaves (45 ∷ ds) (read_int (put_number n ++ 45 ∷ ds))
unfolding put_number
read_int-before n ds =
    let (c, cs, e) = digits-first n n in
    let d : Digits (c ∷ cs) = subst Digits e (digits-Digits n n) in
    rw e (read_int-digit c (cs ++ 45 ∷ ds) (45 ∷ ds) d.0 (take_digits-minus 0 (c ∷ cs) ds d))

module _ (put_entry : LogEntry → List ℕ) (read_entry : List ℕ → Option (LogEntry × List ℕ)) where
  -- The first number is the whole text, so that there is no second one.
  read_state-first :
      (cs : List ℕ) (o : Option (ℤ × List ℕ))
      → read_int cs ≡ o
      → Leaves [] o
      → read_state read_entry cs ≡ none
  unfolding read_state
  read_state-first cs none e l = rw (read_state, e) refl
  read_state-first cs (some (z, r)) e l = rw (read_state, e, l, read_int-nothing) refl

  -- The second number is all behind the first, so that there is no third one.
  read_state-second :
      (cs ds : List ℕ) (z : ℤ) (o : Option (ℤ × List ℕ))
      → read_int cs ≡ some (z, ds)
      → read_int ds ≡ o
      → Leaves [] o
      → read_state read_entry cs ≡ none
  unfolding read_state
  read_state-second cs ds z none e f l = rw (read_state, e, f) refl
  read_state-second cs ds z (some (y, r)) e f l = rw (read_state, e, f, l, read_int-nothing) refl

  read_state-minus :
      (cs ds : List ℕ) (o : Option (ℤ × List ℕ))
      → Digits ds
      → read_int cs ≡ o
      → Leaves (45 ∷ ds) o
      → read_state read_entry cs ≡ none
  unfolding read_state
  read_state-minus cs ds none d e l = rw (read_state, e) refl
  read_state-minus cs ds (some (z, r)) d e l =
      read_state-second cs (45 ∷ ds) z (read_int (45 ∷ ds)) (rw e (rw l refl)) refl
        (read_int-minus ds d)

  -- The text of a server whose log is empty.
  text : ℕ → Option ℕ → List ℕ
  text term vote = put_number term ++ (put_vote vote ++ (put_number 0 ++ []))

  persist_state-text :
      (s : RaftServer) (vote : Option ℕ)
      → s.log_entries ≡ []
      → s.voted_for ≡ vote
      → persist_state put_entry s ≡ text s.current_term vote
  unfolding persist_state put_entries text
  persist_state-text s vote e f =
      ap
        (λ l.
          put_number s.current_term
          ++ (put_vote s.voted_for ++ (put_number (length l) ++ put_entries put_entry l)))
        e
      ∙ ap (λ v. text s.current_term v) f

  text-voted : (term w : ℕ) → ltb w 2147483648 ≡ true → Digits (text term (some w))
  unfolding text put_vote put_number
  text-voted term w low =
      let vote : put_vote (some w) ≡ put_number w = rw low refl in
      subst (λ v. Digits (put_number term ++ (v ++ (put_number 0 ++ [])))) (sym vote)
        (Digits-append (put_number term) (put_number w ++ (put_number 0 ++ []))
          (digits-Digits term term)
          (Digits-append (put_number w) (put_number 0 ++ []) (digits-Digits w w)
            (Digits-append (put_number 0) [] (digits-Digits 0 0) tt)))

  -- The vote is printed with a minus.
  text-minus :
      (term k : ℕ) (vote : Option ℕ)
      → put_vote vote ≡ 45 ∷ put_number k
      → read_state read_entry (text term vote) ≡ none
  unfolding text put_number
  text-minus term k vote e =
      subst (λ v. read_state read_entry (put_number term ++ (v ++ (put_number 0 ++ []))) ≡ none)
        (sym e)
        (read_state-minus (put_number term ++ 45 ∷ (put_number k ++ (put_number 0 ++ [])))
          (put_number k ++ (put_number 0 ++ []))
          (read_int (put_number term ++ 45 ∷ (put_number k ++ (put_number 0 ++ []))))
          (Digits-append (put_number k) (put_number 0 ++ []) (digits-Digits k k)
            (Digits-append (put_number 0) [] (digits-Digits 0 0) tt))
          refl (read_int-before term (put_number k ++ (put_number 0 ++ []))))

  text-none : (term : ℕ) (vote : Option ℕ) → read_state read_entry (text term vote) ≡ none
  unfolding put_vote
  text-none term none = text-minus term 1 none refl
  text-none term (some w) = elim (Bool-cases (ltb w 2147483648)) [
    | inl low ↦
        read_state-first (text term (some w)) (read_int (text term (some w))) refl
          (read_int-all (text term (some w)) (text-voted term w low))
    | inr high ↦ text-minus term (4294967296 - w) (some w) (rw high refl)
  ]

  -- A server with an empty log, whatever its term and its vote, cannot be read back: however log
  -- entries are printed and read, the stream fails in read_state_from_disk on the text that
  -- persist_state_to_disk wrote.
  pub read_state-persist_state :
      (s : RaftServer)
      → s.log_entries ≡ []
      → read_state read_entry (persist_state put_entry s) ≡ none
  read_state-persist_state s e =
      ap (read_state read_entry) (persist_state-text s s.voted_for e refl)
      ∙ text-none s.current_term s.voted_for
