-- ===== src/Transaction/LockManager/Exclusion.antt =====
-- The requests of an item that can be granted together.
use alphadb.Prelude.{
  ℕ, ◌≡◌, refl, inl, inr, Bool, true, false, ◌&&◌, List, [], ◌∷◌, some, arith, ◌==◌, Bool-cases,
  Option-cases,
}
use alphadb.Transaction.LockManager.{
  LockMode, unlocked, shared, exclusive, granted, waiting, Request, LockEntry, is_mode, is_granted,
  request, scan, try_grant, drop_granted, release, mode_of, Step, asks, wakes, leaves, Steps, stay,
  then_step,
}
use alphadb.Transaction.LockManager.Shapes.{
  Shares, Excludes, Excludes-snoc, AllWaiting-Shares, Shares-Excludes, Excludes-drop,
}

-- Behind an exclusive or a waiting request the test grants nothing.
scan-same :
    (txn : ℕ) (mode : LockMode) (sh gr b : Bool) (rs qs : List Request)
    → (sh && gr) ≡ false
    → scan txn mode sh gr rs ≡ some (b, qs)
    → qs ≡ rs
unfolding scan
scan-same txn mode sh gr b [] qs off run = absurd (ground arith)
scan-same txn mode sh gr b (r ∷ rs) qs off run = elim (Bool-cases (r.txn == txn)) [
  | inl mine ↦ ground arith
  | inr other ↦
      elim (Option-cases
        (scan txn mode (sh && is_mode r.mode shared) (gr && is_granted r.status) rs)) [
          | inl past ↦ absurd (ground arith)
          | inr ((c, ps), e) ↦
              let same =
                scan-same txn mode (sh && is_mode r.mode shared) (gr && is_granted r.status) c rs ps
                  (ground arith) e in
              ground (arith, same)
        ]
]

scan-Shares :
    (txn : ℕ) (b : Bool) (rs qs : List Request)
    → Shares rs
    → scan txn shared true true rs ≡ some (b, qs)
    → Shares qs
unfolding scan
scan-Shares txn b [] qs v run = absurd (ground arith)
scan-Shares txn b (r ∷ rs) qs v run = elim (Bool-cases (r.txn == txn)) [
  | inl mine ↦
      let e : qs ≡ record { txn = txn; mode = shared; status = granted } ∷ rs = ground arith in
      rw e (inl (refl, refl, elim v [ inl w ↦ w.2 | inr w ↦ AllWaiting-Shares rs w.1 ]))
  | inr other ↦
      elim (Option-cases (scan txn shared (is_mode r.mode shared) (is_granted r.status) rs)) [
        | inl past ↦ absurd (ground arith)
        | inr ((c, ps), e) ↦
            let out : qs ≡ r ∷ ps = ground arith in
            elim v [
              | inl w ↦
                  let later : scan txn shared true true rs ≡ some (c, ps) = ground arith in
                  rw out (inl (w.0, w.1, scan-Shares txn c rs ps w.2 later))
              | inr w ↦
                  let same =
                    scan-same txn shared (is_mode r.mode shared) (is_granted r.status) c rs ps
                      (ground (arith, w.0)) e in
                  rw (out, same) (inr w)
            ]
      ]
]

scan-Excludes :
    (txn : ℕ) (b : Bool) (rs qs : List Request)
    → mode_of txn rs ≡ shared
    → Excludes rs
    → scan txn shared true true rs ≡ some (b, qs)
    → Excludes qs
unfolding scan
scan-Excludes txn b [] qs wants v run = absurd (ground arith)
scan-Excludes txn b (r ∷ rs) qs wants (inr v) run =
    Shares-Excludes qs (scan-Shares txn b (r ∷ rs) qs v run)
scan-Excludes txn b (r ∷ rs) qs wants (inl v) run = elim (Bool-cases (r.txn == txn)) [
  | inl mine ↦ absurd (ground (arith, v.1))
  | inr other ↦
      elim (Option-cases (scan txn shared (is_mode r.mode shared) (is_granted r.status) rs)) [
        | inl past ↦ absurd (ground arith)
        | inr ((c, ps), e) ↦
            let out : qs ≡ r ∷ ps = ground arith in
            let alone : (is_mode r.mode shared && is_granted r.status) ≡ false =
              ground (arith, v.1) in
            let same =
              scan-same txn shared (is_mode r.mode shared) (is_granted r.status) c rs ps alone e in
            rw (out, same) (inl v)
      ]
]

grant_exclusive-Excludes :
    (txn : ℕ) (b : Bool) (ws : List Request) (e e' : LockEntry)
    → e.wait_list ≡ ws
    → mode_of txn ws ≡ exclusive
    → try_grant txn exclusive e ≡ some (b, e')
    → Excludes ws
    → Excludes e'.wait_list
unfolding try_grant
grant_exclusive-Excludes txn b [] e e' list wants run v = absurd (ground arith)
grant_exclusive-Excludes txn b (r ∷ rs) e e' list wants run v = elim (Bool-cases (r.txn == txn)) [
  | inl mine ↦
      let out : e'.wait_list ≡ record { txn = txn; mode = exclusive; status = granted } ∷ rs =
        ground arith in
      rw out (
        inl (
          refl,
          refl,
          elim v [
            | inl w ↦ w.2
            | inr w ↦ elim w [ inl u ↦ absurd (ground (arith, u.1)) | inr u ↦ u.1 ]
          ],
        ))
  | inr other ↦ let out : e'.wait_list ≡ r ∷ rs = ground arith in rw out v
]

grant_shared-Excludes :
    (txn : ℕ) (b : Bool) (e e' : LockEntry)
    → mode_of txn e.wait_list ≡ shared
    → try_grant txn shared e ≡ some (b, e')
    → Excludes e.wait_list
    → Excludes e'.wait_list
unfolding try_grant
grant_shared-Excludes txn b e e' wants run v =
    elim (Option-cases (scan txn shared true true e.wait_list)) [
      | inl past ↦ absurd (ground arith)
      | inr ((c, qs), found) ↦
          let out : e'.wait_list ≡ qs = elim (Bool-cases c) [
            | inl t ↦ ground arith
            | inr f ↦ ground arith
          ] in
          rw out (scan-Excludes txn c e.wait_list qs wants v found)
    ]

release-list :
    (txn : ℕ) (e : LockEntry)
    → (release txn e).1.wait_list ≡ drop_granted txn e.current_lock_mode e.wait_list
unfolding release
release-list txn e = ground arith

Step-Excludes : (e e' : LockEntry) → Step e e' → Excludes e.wait_list → Excludes e'.wait_list
unfolding request
Step-Excludes _ _ (asks txn mode e some_mode first) v =
    Excludes-snoc e.wait_list (record { txn = txn; mode = mode; status = waiting }) refl v
Step-Excludes _ _ (wakes txn unlocked b e e' some_mode wants run) v = absurd (ground arith)
Step-Excludes _ _ (wakes txn shared b e e' some_mode wants run) v =
    grant_shared-Excludes txn b e e' wants run v
Step-Excludes _ _ (wakes txn exclusive b e e' some_mode wants run) v =
    grant_exclusive-Excludes txn b e.wait_list e e' refl wants run v
Step-Excludes _ _ (leaves txn e) v =
    rw (release-list txn e) (Excludes-drop txn e.current_lock_mode e.wait_list v)

-- However the transactions ask, are woken for their requests and unlock, starting with no request
-- and with each asking only while it has no request in the list, the requests of the item are one
-- granted exclusive request with only waiting ones behind it, or granted shared requests with only
-- waiting ones behind them.
pub Steps-Excludes : (e e' : LockEntry) → Steps e e' → e.wait_list ≡ [] → Excludes e'.wait_list
Steps-Excludes _ _ (stay e) fresh = rw fresh tt
Steps-Excludes _ _ (then_step e f g before last) fresh =
    Step-Excludes f g last (Steps-Excludes e f before fresh)
