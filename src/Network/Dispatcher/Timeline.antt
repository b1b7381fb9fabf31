-- ===== src/Network/Dispatcher/Timeline.antt =====
-- The timers in the order of their time.
use alphadb.Prelude.{
  ℕ, ◌+◌, ◌≡◌, refl, inl, inr, Bool, true, List, [], ◌∷◌, none, some, arith, if◌then◌else◌,
  Bool-cases, ◌∙◌,
}
use alphadb.Network.Dispatcher.{
  Key, Task, once, Dispatcher, max_timeouts, same_key, key_lt, lookup, assign, erase_key,
  update_next_timeout, run_at, cancel,
}

module _ {V : Type 0} where
  -- Every key is behind `k`.
  abbrev pub Behind : Key → List (Key × V) → Type 0
  Behind k [] = Unit {0}
  Behind k ((l, v) ∷ rest) = (key_lt k l ≡ true) × Behind k rest

  abbrev pub Ordered : List (Key × V) → Type 0
  Ordered [] = Unit {0}
  Ordered ((k, v) ∷ rest) = Behind k rest × Ordered rest

  Behind-assign :
      (j k : Key) (v : V) (m : List (Key × V))
      → key_lt j k ≡ true
      → Behind j m
      → Behind j (assign k v m)
  unfolding assign
  Behind-assign j k v [] below b = (below, tt)
  Behind-assign j k v ((l, w) ∷ rest) below b = elim (Bool-cases (same_key l k)) [
    | inl same ↦ rw same (below, b.1)
    | inr other ↦ elim (Bool-cases (key_lt k l)) [
      | inl before ↦ rw (other, before) (below, b)
      | inr later ↦ rw (other, later) (b.0, Behind-assign j k v rest below b.1)
    ]
  ]

  Behind-trans : (j k : Key) (m : List (Key × V)) → key_lt j k ≡ true → Behind k m → Behind j m
  Behind-trans j k [] below b = tt
  Behind-trans j k ((l, w) ∷ rest) below b = (ground (arith, b.0), Behind-trans j k rest below b.1)

  Behind-same : (j k : Key) (m : List (Key × V)) → same_key j k ≡ true → Behind j m → Behind k m
  Behind-same j k [] same b = tt
  Behind-same j k ((l, w) ∷ rest) same b = (ground (arith, b.0), Behind-same j k rest same b.1)

  assign-Ordered : (k : Key) (v : V) (m : List (Key × V)) → Ordered m → Ordered (assign k v m)
  unfolding assign
  assign-Ordered k v [] o = (tt, tt)
  assign-Ordered k v ((l, w) ∷ rest) o = elim (Bool-cases (same_key l k)) [
    | inl same ↦ rw same (Behind-same l k rest same o.0, o.1)
    | inr other ↦ elim (Bool-cases (key_lt k l)) [
      | inl before ↦ rw (other, before) ((before, Behind-trans k l rest before o.0), o)
      | inr later ↦
          rw (other, later)
            (Behind-assign l k v rest (ground arith) o.0, assign-Ordered k v rest o.1)
    ]
  ]

  lookup-assign :
      (j k : Key) (v : V) (m : List (Key × V))
      → lookup j (assign k v m) ≡ (if same_key k j then some v else lookup j m)
  unfolding lookup assign
  lookup-assign j k v [] = refl
  lookup-assign j k v ((l, w) ∷ rest) = ground (arith, lookup-assign j k v rest)

  lookup-Behind : (j : Key) (m : List (Key × V)) → Behind j m → lookup j m ≡ none
  unfolding lookup
  lookup-Behind j [] b = refl
  lookup-Behind j ((l, w) ∷ rest) b = ground (arith, b.0, lookup-Behind j rest b.1)

  lookup-erase_key :
      (j k : Key) (m : List (Key × V))
      → Ordered m
      → lookup j (erase_key k m) ≡ (if same_key k j then none else lookup j m)
  unfolding lookup erase_key
  lookup-erase_key j k [] o = ground arith
  lookup-erase_key j k ((l, w) ∷ rest) o = elim (Bool-cases (same_key l k)) [
    | inl here ↦ elim (Bool-cases (same_key k j)) [
      | inl same ↦ ground (arith, lookup-Behind j rest (Behind-same l j rest (ground arith) o.0))
      | inr other ↦ ground arith
    ]
    | inr there ↦ ground (arith, lookup-erase_key j k rest o.1)
  ]

abbrev due : ℕ → Key → Bool
due now k = key_lt k (record { time = now; seq = max_timeouts })

-- The tasks whose time has come, and the timers whose time has not.
abbrev pub due_tasks : ℕ → List (Key × Task) → List Task
due_tasks now [] = []
due_tasks now ((k, t) ∷ rest) = if due now k then t ∷ due_tasks now rest else due_tasks now rest

abbrev pub not_due : ℕ → List (Key × Task) → List (Key × Task)
not_due now [] = []
not_due now ((k, t) ∷ rest) = if due now k then not_due now rest else (k, t) ∷ not_due now rest

-- At a working dispatcher whose timers are in the order of their keys, run_at without an interval
-- keeps that order and adds a timer with the task under a key of the given time and the next
-- sequence number; cancelling the id it returns answers true and leaves no timer under that key and
-- every other timer as it was before.
pub cancel-run_at :
    (now tp callback : ℕ) (d : Dispatcher)
    → d.working ≡ true
    → Ordered d.timers
    → Ordered (run_at now tp callback 0 d).1.timers
      × (lookup (record { time = tp; seq = d.time_seq + 1 }) (run_at now tp callback 0 d).1.timers
          ≡ some (once callback))
      × ((d' : Dispatcher) × (cancel (run_at now tp callback 0 d).0 (run_at now tp callback 0 d).1
            ≡ some (true, d'))
          × ((j : Key)
              → lookup j d'.timers ≡ (
                  if same_key (record { time = tp; seq = d.time_seq + 1 }) j
                  then none
                  else lookup j d.timers)))
unfolding run_at cancel update_next_timeout
cancel-run_at now tp callback d on o =
    let key : Key = record { time = tp; seq = d.time_seq + 1 } in
    let timers = assign key (once callback) d.timers in
    let ordered : Ordered timers = assign-Ordered key (once callback) d.timers o in
    let at : lookup key timers ≡ some (once callback) =
      lookup-assign key key (once callback) d.timers ∙ ground arith in
    let d₁ : Dispatcher =
      update_next_timeout now
        (record d { working = true; time_seq = d.time_seq + 1; timers = timers }) in
    rw on (
      ordered,
      at,
      (
        record d₁ { timers = erase_key key timers },
        rw (at, cancel) refl,
        λ j.
            lookup-erase_key j key timers ordered
            ∙ ground (arith, lookup-assign j key (once callback) d.timers),
      ),
    )
