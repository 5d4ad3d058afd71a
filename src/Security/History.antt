-- ===== src/Security/History.antt =====
-- The rolling history against the list of all samples.
use computecloud_node.Prelude.{
  ℕ, zero, suc, ◌+◌, ◌-◌, ◌≤◌, ◌<◌, ◌≡◌, refl, ◌∙◌, sym, ap, Bool, true, false, Option, none, some,
  List, [], ◌∷◌, ◌++◌, length, drop, length-append, length-drop, append_assoc, append-nil, arith,
  leb, ltb, all, ◌&&◌, ◌==◌, if◌then◌else◌, Bool-cases, inl, inr,
}
use computecloud_node.Python.Float.{float_ge}
use computecloud_node.Security.{
  SecurityMonitor, SecurityAlert, Observation, slice_last, get_container_processes,
  check_for_miners, get_container_cpu, scan_usage, scan_container, anomaly_cpu, init,
}

module _ {ℓ} {A : Type ℓ} where
  drop_all : (n : ℕ) (xs : List A) → length xs ≤ n → drop n xs ≡ []
  drop_all zero [] h = refl
  drop_all zero (x ∷ xs) h = absurd (omega arith)
  drop_all (suc n) [] h = refl
  drop_all (suc n) (x ∷ xs) h = drop_all n xs (omega arith)

  drop-append : (n : ℕ) (xs ys : List A) → n ≤ length xs → drop n (xs ++ ys) ≡ drop n xs ++ ys
  drop-append zero xs ys h = refl
  drop-append (suc n) [] ys h = absurd (omega arith)
  drop-append (suc n) (x ∷ xs) ys h = drop-append n xs ys (omega arith)

  drop-drop : (m n k : ℕ) (xs : List A) → m + n ≡ k → drop m (drop n xs) ≡ drop k xs
  drop-drop m zero k xs h = ap (λ i. drop i xs) (omega arith)
  drop-drop m (suc n) k [] h = drop_all m [] (omega arith) ∙ sym (drop_all k [] (omega arith))
  drop-drop m (suc n) zero (x ∷ xs) h = absurd (omega arith)
  drop-drop m (suc n) (suc k) (x ∷ xs) h = drop-drop m n k xs (omega arith)

  -- The last `n` elements, or all if there are fewer.
  abbrev pub last : ℕ → List A → List A
  last n xs = drop (length xs - n) xs

  last-last-append :
      (n : ℕ) (xs : List A) (x : A) → 0 < n → last n (last n xs ++ x ∷ []) ≡ last n (xs ++ x ∷ [])
  last-last-append n xs x h =
      let size : length (xs ++ x ∷ []) ≡ length xs + 1 = length-append xs (x ∷ []) in
      rw (← drop-append (length xs - n) xs (x ∷ []) (omega arith)) (
        drop-drop _ (length xs - n) _ (xs ++ x ∷ [])
          (omega (arith, size, length-drop (length xs - n) (xs ++ x ∷ []))))

  slice_last-last : (n : ℕ) (xs : List A) → 0 < n → slice_last n xs ≡ last n xs
  unfolding slice_last
  slice_last-last n xs h = ground arith

  -- The cut in `scan_container`, made only on a list that is too long, is the cut of every list.
  pub cut-last :
      (n : ℕ) (xs : List A)
      → 0 < n
      → (if ltb n (length xs) then slice_last n xs else xs) ≡ last n xs
  cut-last n xs h = elim (Bool-cases (ltb n (length xs))) [
    | inl longer ↦ rw longer (slice_last-last n xs h)
    | inr fits ↦ let zero_cut : length xs - n ≡ 0 = ground arith in rw (fits, zero_cut)
  ]

  pub leb-length-last : (n : ℕ) (xs : List A) → leb n (length (last n xs)) ≡ leb n (length xs)
  leb-length-last n xs = ground (arith, length-drop (length xs - n) xs)

full-last-append :
    (n : ℕ) (xs : List ℕ) (x : ℕ)
    → 0 < n
    → leb n (length (last n xs ++ x ∷ [])) ≡ leb n (length (xs ++ x ∷ []))
full-last-append n xs x h =
    sym (leb-length-last n (last n xs ++ x ∷ []))
    ∙ rw (last-last-append n xs x h) (leb-length-last n (xs ++ x ∷ []))

-- The result of a scan is the alert on sustained CPU use.
abbrev pub is_cpu_alarm : Option SecurityAlert → Bool
is_cpu_alarm none = false
is_cpu_alarm (some a) = elim a.alert_type [ anomaly_cpu ↦ true | _ ↦ false ]

module _ (lower : List ℕ → List ℕ) (parse_float : List ℕ → Option ℕ) where
  abbrev pub miners : Observation → List (List ℕ)
  miners o = check_for_miners lower (get_container_processes o.top)

  abbrev pub sample : Observation → ℕ
  sample o = get_container_cpu parse_float o.stats

  -- The CPU samples of the scans that found no miner, in order.
  unfoldable pub samples : List Observation → List ℕ
  samples [] = []
  samples (o ∷ os) = if length (miners o) == 0 then sample o ∷ samples os else samples os

  -- The monitor after one scan for each observation.
  unfoldable pub scan_all : List Observation → SecurityMonitor → SecurityMonitor
  scan_all [] m = m
  scan_all (o ∷ os) m = scan_all os (scan_container lower parse_float o m).1

  abbrev scanned : Observation → SecurityMonitor → SecurityMonitor
  scanned o m = (scan_container lower parse_float o m).1

  scan_usage-history :
      (procs : List (List ℕ)) (cpu : ℕ) (m : SecurityMonitor)
      → 0 < m.sustained_checks
      → (scan_usage lower parse_float procs cpu m).1
        ≡ record m { cpu_history = last m.sustained_checks (m.cpu_history ++ cpu ∷ []) }
  unfolding scan_usage
  scan_usage-history procs cpu m h =
      ground (arith, cut-last m.sustained_checks (m.cpu_history ++ cpu ∷ []) h)

  scanned_lem :
      (o : Observation) (m : SecurityMonitor)
      → 0 < m.sustained_checks
      → (scan_container lower parse_float o m).1 ≡ (
          if length (miners o) == 0
          then record m { cpu_history = last m.sustained_checks (m.cpu_history ++ sample o ∷ []) }
          else m)
  unfolding scan_container
  scanned_lem o m h =
      ground (arith, scan_usage-history (get_container_processes o.top) (sample o) m h)

  -- With at least one sustained check, the history after any scans of a fresh monitor holds the
  -- last `sustained_checks` samples, in order, of all the scans that found no miner.
  pub history-scan_all :
      (os : List Observation) (m : SecurityMonitor) (past : List ℕ)
      → 0 < m.sustained_checks
      → m.cpu_history ≡ last m.sustained_checks past
      → scan_all os m ≡ record m { cpu_history = last m.sustained_checks (past ++ samples os) }
  unfolding scan_all samples
  history-scan_all [] m past h e = ground (arith, append-nil past)
  history-scan_all (o ∷ os) m past h e = elim (Bool-cases (length (miners o) == 0)) [
    | inl clean ↦
        let kept : last m.sustained_checks (m.cpu_history ++ sample o ∷ [])
            ≡ last m.sustained_checks (past ++ sample o ∷ []) =
          rw e (last-last-append m.sustained_checks past (sample o) h) in
        let m' = record m {
          cpu_history = last m.sustained_checks (m.cpu_history ++ sample o ∷ []);
        } in
        rw (scanned_lem o m h, clean)
          (history-scan_all os m' (past ++ sample o ∷ []) h kept ∙ rw append_assoc)
    | inr mined ↦ rw (scanned_lem o m h, mined) (history-scan_all os m past h e)
  ]

  scan_usage-alarm :
      (procs : List (List ℕ)) (cpu : ℕ) (m : SecurityMonitor)
      → 0 < m.sustained_checks
      → is_cpu_alarm (scan_usage lower parse_float procs cpu m).0 ≡ (
          leb m.sustained_checks (length (m.cpu_history ++ cpu ∷ []))
          && all
              (λ c. float_ge c m.cpu_threshold)
              (last m.sustained_checks (m.cpu_history ++ cpu ∷ [])))
  unfolding scan_usage
  scan_usage-alarm procs cpu m h =
      rw (cut-last m.sustained_checks (m.cpu_history ++ cpu ∷ []) h, leb-length-last) (ground arith)

  samples-append :
      (os : List Observation) (o : Observation)
      → (length (miners o) == 0) ≡ true
      → samples (os ++ o ∷ []) ≡ samples os ++ sample o ∷ []
  unfolding samples
  samples-append [] o clean = rw clean
  samples-append (p ∷ os) o clean = ground (arith, samples-append os o clean)

  -- A scan that finds no miner, after any scans of a fresh monitor with at least one sustained
  -- check, raises the CPU alert exactly when there are at least `sustained_checks` samples (its own
  -- included) and each of the last `sustained_checks` of them is at least the threshold.
  pub cpu_alarm_exact :
      (threshold checks : ℕ) (os : List Observation) (o : Observation)
      → 0 < checks
      → (length (miners o) == 0) ≡ true
      → is_cpu_alarm (scan_container lower parse_float o (scan_all os (init threshold checks))).0
        ≡ (leb checks (length (samples (os ++ o ∷ [])))
            && all (λ c. float_ge c threshold) (last checks (samples (os ++ o ∷ []))))
  unfolding scan_container init
  cpu_alarm_exact threshold checks os o h clean =
      rw
        (
          history-scan_all os (init threshold checks) [] h (sym (drop_all _ [] (omega arith))),
          clean,
        )
        (scan_usage-alarm (get_container_processes o.top) (sample o)
            (record (init threshold checks) { cpu_history = last checks (samples os) }) h
          ∙ rw (
            samples-append os o clean,
            full-last-append checks (samples os) (sample o) h,
            last-last-append checks (samples os) (sample o) h,
          ))
