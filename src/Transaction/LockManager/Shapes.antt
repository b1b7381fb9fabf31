-- ===== src/Transaction/LockManager/Shapes.antt =====
-- The lists of requests in which no two locks exclude each other.
use alphadb.Prelude.{
  ℕ, ◌≡◌, ◌⊎◌, inl, inr, true, false, ◌&&◌, List, [], ◌∷◌, ◌++◌, arith, ◌==◌, Bool-cases,
}
use alphadb.Transaction.LockManager.{
  LockMode, shared, exclusive, Request, is_mode, is_granted, drop_granted,
}

abbrev pub AllWaiting : List Request → Type 0
AllWaiting [] = Unit {0}
AllWaiting (r ∷ rs) = (is_granted r.status ≡ false) × AllWaiting rs

-- Granted shared requests, and behind them requests that wait.
abbrev pub Shares : List Request → Type 0
Shares [] = Unit {0}
Shares (r ∷ rs) =
    ((is_granted r.status ≡ true) × (is_mode r.mode shared ≡ true) × Shares rs)
    ⊎ ((is_granted r.status ≡ false) × AllWaiting rs)

-- Either one exclusive lock is held and all others wait, or only shared locks are held.
abbrev pub Excludes : List Request → Type 0
Excludes [] = Unit {0}
Excludes (r ∷ rs) =
    ((is_granted r.status ≡ true) × (is_mode r.mode exclusive ≡ true) × AllWaiting rs)
    ⊎ Shares (r ∷ rs)

pub AllWaiting-snoc :
    (rs : List Request) (q : Request)
    → is_granted q.status ≡ false
    → AllWaiting rs
    → AllWaiting (rs ++ q ∷ [])
AllWaiting-snoc [] q w v = (w, tt)
AllWaiting-snoc (r ∷ rs) q w v = (v.0, AllWaiting-snoc rs q w v.1)

pub Shares-snoc :
    (rs : List Request) (q : Request)
    → is_granted q.status ≡ false
    → Shares rs
    → Shares (rs ++ q ∷ [])
Shares-snoc [] q w v = inr (w, tt)
Shares-snoc (r ∷ rs) q w (inl v) = inl (v.0, v.1, Shares-snoc rs q w v.2)
Shares-snoc (r ∷ rs) q w (inr v) = inr (v.0, AllWaiting-snoc rs q w v.1)

pub Excludes-snoc :
    (rs : List Request) (q : Request)
    → is_granted q.status ≡ false
    → Excludes rs
    → Excludes (rs ++ q ∷ [])
Excludes-snoc [] q w v = inr (inr (w, tt))
Excludes-snoc (r ∷ rs) q w (inl v) = inl (v.0, v.1, AllWaiting-snoc rs q w v.2)
Excludes-snoc (r ∷ rs) q w (inr v) = inr (Shares-snoc (r ∷ rs) q w v)

pub AllWaiting-Shares : (rs : List Request) → AllWaiting rs → Shares rs
AllWaiting-Shares [] v = tt
AllWaiting-Shares (r ∷ rs) v = inr v

pub Shares-Excludes : (rs : List Request) → Shares rs → Excludes rs
Shares-Excludes [] v = tt
Shares-Excludes (r ∷ rs) v = inr v

pub AllWaiting-drop :
    (txn : ℕ) (mode : LockMode) (rs : List Request)
    → AllWaiting rs
    → AllWaiting (drop_granted txn mode rs)
unfolding drop_granted
AllWaiting-drop txn mode [] v = tt
AllWaiting-drop txn mode (r ∷ rs) v =
    let kept : (r.txn == txn && is_mode r.mode mode && is_granted r.status) ≡ false =
      ground (arith, v.0) in
    rw (kept) (v.0, AllWaiting-drop txn mode rs v.1)

pub Shares-drop :
    (txn : ℕ) (mode : LockMode) (rs : List Request) → Shares rs → Shares (drop_granted txn mode rs)
unfolding drop_granted
Shares-drop txn mode [] v = tt
Shares-drop txn mode (r ∷ rs) (inr v) =
    let kept : (r.txn == txn && is_mode r.mode mode && is_granted r.status) ≡ false =
      ground (arith, v.0) in
    rw (kept) (inr (v.0, AllWaiting-drop txn mode rs v.1))
Shares-drop txn mode (r ∷ rs) (inl v) =
    elim (Bool-cases (r.txn == txn && is_mode r.mode mode && is_granted r.status)) [
      | inl dropped ↦ rw dropped (Shares-drop txn mode rs v.2)
      | inr kept ↦ rw kept (inl (v.0, v.1, Shares-drop txn mode rs v.2))
    ]

pub Excludes-drop :
    (txn : ℕ) (mode : LockMode) (rs : List Request)
    → Excludes rs
    → Excludes (drop_granted txn mode rs)
unfolding drop_granted
Excludes-drop txn mode [] v = tt
Excludes-drop txn mode (r ∷ rs) (inr v) =
    Shares-Excludes (drop_granted txn mode (r ∷ rs)) (Shares-drop txn mode (r ∷ rs) v)
Excludes-drop txn mode (r ∷ rs) (inl v) =
    elim (Bool-cases (r.txn == txn && is_mode r.mode mode && is_granted r.status)) [
      | inl dropped ↦ rw dropped (
          Shares-Excludes (drop_granted txn mode rs)
            (AllWaiting-Shares (drop_granted txn mode rs) (AllWaiting-drop txn mode rs v.2)))
      | inr kept ↦ rw kept (inl (v.0, v.1, AllWaiting-drop txn mode rs v.2))
    ]
