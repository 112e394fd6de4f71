-- ===== src/Probes/Lookup/Hits.antt =====
-- `leading_hits` and `trailing_run`: the chunks that a lookup finds.
use adaptive_context_residen.Common.{
  ℕ, zero, suc, ◌+◌, ◌-◌, ◌≤◌, ◌<◌, ◌≡◌, refl, ◌∙◌, ap, Bool, true, false, List, [], ◌∷◌, arith,
  ◌==◌, take, drop, Eq, Bool-cases, inl, inr,
}
use adaptive_context_residen.Common.Dict.{elem}
use adaptive_context_residen.Probes.Lookup.{
  Scan, running, found, leading_hits, scan_key, scan, trailing_run,
}

module _ {K : Type 0} ⦃e : Eq K⦄ (stored : List K) where
  -- The chunk at an index is a key of the list, and resident.
  abbrev pub resident : List K → ℕ → Bool
  resident [] i = false
  resident (k ∷ ks) zero = elem k stored
  resident (k ∷ ks) (suc i) = resident ks i

  pub resident_of_leading_hits :
      (ks : List K) (i : ℕ) → i < leading_hits stored ks → resident ks i ≡ true
  unfolding leading_hits
  resident_of_leading_hits [] i h = absurd (omega arith)
  resident_of_leading_hits (k ∷ ks) zero h = ground arith
  resident_of_leading_hits (k ∷ ks) (suc i) h = ground (arith, resident_of_leading_hits ks i)

  pub resident-drop : (s : ℕ) (ks : List K) (i : ℕ) → resident (drop s ks) i ≡ resident ks (s + i)
  resident-drop zero ks i = ap (resident ks) (omega arith)
  resident-drop (suc s) [] i = refl
  resident-drop (suc s) (k ∷ ks) i =
      let e : suc (s + i) ≡ suc s + i = omega arith in
      resident-drop s ks i ∙ ap (resident (k ∷ ks)) e

  pub resident-take :
      (n : ℕ) (ks : List K) (i : ℕ) → resident (take n ks) i ≡ true → resident ks i ≡ true
  resident-take zero ks i h = absurd (ground arith)
  resident-take (suc n) [] i h = h
  resident-take (suc n) (k ∷ ks) zero h = h
  resident-take (suc n) (k ∷ ks) (suc i) h = resident-take n ks i h

  -- The `n` chunks from index `i` on are resident.
  abbrev pub Run : List K → ℕ → ℕ → Type 0
  Run ks i zero = Unit
  Run ks i (suc n) = (resident ks i ≡ true) × Run ks (suc i) n

  pub resident_of_Run :
      (ks : List K) (i n m : ℕ) → Run ks i n → i ≤ m → m < i + n → resident ks m ≡ true
  resident_of_Run ks i zero m r h h' = absurd (omega arith)
  resident_of_Run ks i (suc n) m r h h' = elim (Bool-cases (i == m)) [
    | inl here ↦ let e : i ≡ m = ground arith in rw (← e) r.0
    | inr later ↦ resident_of_Run ks (suc i) n m r.1 (ground arith) (omega arith)
  ]

  pub Run-of_resident :
      (ks : List K) (i n : ℕ) → ((m : ℕ) → i ≤ m → m < i + n → resident ks m ≡ true) → Run ks i n
  Run-of_resident ks i zero h = tt
  Run-of_resident ks i (suc n) h = (
    h i (omega arith) (omega arith),
    Run-of_resident ks (suc i) n (λ m p q. h m (omega arith) (omega arith)),
  )

  Run-cons : (k : K) (ks : List K) (i n : ℕ) → Run ks i n → Run (k ∷ ks) (suc i) n
  Run-cons k ks i zero r = tt
  Run-cons k ks i (suc n) r = (r.0, Run-cons k ks (suc i) n r.1)

  Run-tail : (k : K) (ks : List K) (i n : ℕ) → Run (k ∷ ks) (suc i) n → Run ks i n
  Run-tail k ks i zero r = tt
  Run-tail k ks i (suc n) r = (r.0, Run-tail k ks (suc i) n r.1)

  -- What the scan over a list knows of it.
  abbrev Scanned : ℕ → List K → Scan → Type 0
  Scanned window ks (running run) =
      Run ks 0 run × (resident ks run ≡ false) × (run < window) × ((i : ℕ) → Run ks i window → ⊥)
  Scanned window ks (found end) =
      Run ks (end - window) window × (window ≤ end) × ((i : ℕ) → Run ks i window → i + window ≤ end)

  -- A window of a longer list begins at its new key, or is one of the list's windows.
  windows_cons :
      (window bound : ℕ) (k : K) (ks : List K)
      → (Run (k ∷ ks) 0 window → window ≤ bound)
      → ((i : ℕ) → Run ks i window → suc i + window ≤ bound)
      → (i : ℕ) → Run (k ∷ ks) i window
      → i + window ≤ bound
  windows_cons window bound k ks first others zero w = omega (arith, first w)
  windows_cons window bound k ks first others (suc i) w = others i (Run-tail k ks i window w)

  no_windows_cons :
      (window : ℕ) (k : K) (ks : List K)
      → (Run (k ∷ ks) 0 window → ⊥)
      → ((i : ℕ) → Run ks i window → ⊥)
      → (i : ℕ) → Run (k ∷ ks) i window
      → ⊥
  no_windows_cons window k ks first others zero w = first w
  no_windows_cons window k ks first others (suc i) w = others i (Run-tail k ks i window w)

  scan_key_full :
      (window : ℕ) (k : K) (ks : List K) (run : ℕ)
      → elem k stored ≡ true
      → suc run ≡ window
      → Scanned window ks (running run)
      → Scanned window (k ∷ ks) (found window)
  scan_key_full window k ks run hit full (r, off, short, none_before) = (
    let e : window - window ≡ 0 = omega arith in rw (e, ← full) (hit, Run-cons k ks 0 run r),
    omega arith,
    windows_cons window window k ks (λ w. omega arith) (λ i w. absurd (none_before i w)),
  )

  scan_key_longer :
      (window : ℕ) (k : K) (ks : List K) (run : ℕ)
      → elem k stored ≡ true
      → suc run < window
      → Scanned window ks (running run)
      → Scanned window (k ∷ ks) (running (suc run))
  scan_key_longer window k ks run hit longer (r, off, short, none_before) = (
    (hit, Run-cons k ks 0 run r),
    off,
    longer,
    no_windows_cons window k ks
        (λ w. absurd (
          ground
            (arith, resident_of_Run (k ∷ ks) 0 window (suc run) w (omega arith) (omega arith))))
        none_before,
  )

  scan_key_miss :
      (window : ℕ) (k : K) (ks : List K) (run : ℕ)
      → elem k stored ≡ false
      → Scanned window ks (running run)
      → Scanned window (k ∷ ks) (running 0)
  scan_key_miss window k ks run miss (r, off, short, none_before) = (
    tt,
    miss,
    omega arith,
    no_windows_cons window k ks
        (λ w.
          absurd
            (ground (arith, resident_of_Run (k ∷ ks) 0 window 0 w (omega arith) (omega arith))))
        none_before,
  )

  scan_key_running :
      (window : ℕ) (k : K) (ks : List K) (run : ℕ)
      → Scanned window ks (running run)
      → Scanned window (k ∷ ks) (scan_key stored window k (running run))
  unfolding scan_key
  scan_key_running window k ks run known = elim (Bool-cases (elem k stored)) [
    | inl hit ↦ elim (Bool-cases (suc run == window)) [
      | inl full ↦ rw (hit, full, scan_key) (scan_key_full window k ks run hit (ground arith) known)
      | inr part ↦
          rw (hit, part, scan_key) (scan_key_longer window k ks run hit (ground arith) known)
    ]
    | inr miss ↦
        let part : (0 == window) ≡ false = ground arith in
        rw (miss, part, scan_key) (scan_key_miss window k ks run miss known)
  ]

  scan_key_found :
      (window : ℕ) (k : K) (ks : List K) (end : ℕ)
      → Scanned window ks (found end)
      → Scanned window (k ∷ ks) (found (suc end))
  scan_key_found window k ks end (r, long, last) = (
    let e : suc end - window ≡ suc (end - window) = omega arith in
        rw e (Run-cons k ks (end - window) window r),
    omega arith,
    windows_cons window (suc end) k ks (λ w. omega arith) (λ i w. omega (arith, last i w)),
  )

  scan_key-Scanned :
      (window : ℕ) (k : K) (ks : List K) (sc : Scan)
      → Scanned window ks sc
      → Scanned window (k ∷ ks) (scan_key stored window k sc)
  unfolding scan_key
  scan_key-Scanned window k ks (running run) known = scan_key_running window k ks run known
  scan_key-Scanned window k ks (found end) known = scan_key_found window k ks end known

  no_windows_nil : (window i : ℕ) → 0 < window → Run [] i window → ⊥
  no_windows_nil zero i h w = omega arith
  no_windows_nil (suc n) i h w = ground (arith, w.0)

  scan-Scanned : (window : ℕ) (ks : List K) → 0 < window → Scanned window ks (scan stored window ks)
  unfolding scan
  scan-Scanned window [] h = (tt, refl, h, λ i w. no_windows_nil window i h w)
  scan-Scanned window (k ∷ ks) h =
      scan_key-Scanned window k ks (scan stored window ks) (scan-Scanned window ks h)

  trailing-Last :
      (window : ℕ) (ks : List K) (sc : Scan) (i : ℕ)
      → Scanned window ks sc
      → Run ks i window
      → let r : ℕ = elim sc [ running run ↦ run | found end ↦ end ] in
        (i + window ≤ r) × Run ks (r - window) window
  trailing-Last window ks (running run) i (r, off, short, none_before) w = absurd (none_before i w)
  trailing-Last window ks (found end) i (r, long, last) w = (last i w, r)

  -- If a list of keys has a window of resident keys at some index, and the window is positive,
  -- `trailing_run` returns the end of such a window, and no window ends behind it.
  pub trailing_run-Run :
      (window : ℕ) (ks : List K) (i : ℕ)
      → 0 < window
      → Run ks i window
      → (i + window ≤ trailing_run stored ks window)
        × Run ks (trailing_run stored ks window - window) window
  unfolding trailing_run
  trailing_run-Run window ks i h w =
      trailing-Last window ks (scan stored window ks) i (scan-Scanned window ks h) w
