-- ===== src/Security/Mining.antt =====
-- Which process names raise the mining alert.
use computecloud_node.Prelude.{
  ℕ, suc, ◌≡◌, refl, sym, ◌∙◌, ap, Bool, true, false, Option, none, some, List, [], ◌∷◌, ◌++◌,
  length, arith, any, Bool-cases, inl, inr, ◌==◌, if◌then◌else◌,
}
use computecloud_node.Python.Text.{starts_with, is_infix}
use computecloud_node.Security.{
  SecurityMonitor, SecurityAlert, Observation, mining_detected, critical, get_container_processes,
  known_miner_processes, get_container_cpu, zero_percent, check_for_miners, scan_usage,
  scan_container, is_miner,
}

abbrev pub is_mining : Option SecurityAlert → Bool
is_mining none = false
is_mining (some a) = elim a.alert_type [ mining_detected ↦ true | _ ↦ false ]

-- An element of a list.
pub data Among (x : List ℕ) : List (List ℕ) → Type 0 where
  first : {xs : List (List ℕ)} → Among x (x ∷ xs)
  later : {y : List ℕ} {xs : List (List ℕ)} → Among x xs → Among x (y ∷ xs)

starts_with-append : (p after : List ℕ) → starts_with (p ++ after) p ≡ true
unfolding starts_with
starts_with-append [] [] = refl
starts_with-append [] (c ∷ after) = refl
starts_with-append (d ∷ p) after = ground (arith, starts_with-append p after)

starts_with-rest : (s p : List ℕ) → starts_with s p ≡ true → (after : List ℕ) × (s ≡ p ++ after)
unfolding starts_with
starts_with-rest s [] h = (s, refl)
starts_with-rest [] (d ∷ p) h = absurd (cc h)
starts_with-rest (c ∷ s) (d ∷ p) h =
    let (after, e) = starts_with-rest s p (ground arith) in (after, ground arith)

-- A text that stands in another.
pub record Within (p s : List ℕ) : Type 0 where
  pub before : List ℕ
  pub after : List ℕ
  pub text : s ≡ before ++ (p ++ after)

is_infix-Within : (p s : List ℕ) → is_infix p s ≡ true → Within p s
unfolding is_infix
is_infix-Within p [] h =
    let (after, e) = starts_with-rest [] p h in record { before = []; after = after; text = e }
is_infix-Within p (c ∷ s) h = elim (Bool-cases (starts_with (c ∷ s) p)) [
  | inl here ↦
      let (after, e) = starts_with-rest (c ∷ s) p here in
      record { before = []; after = after; text = e }
  | inr further ↦
      let rest = is_infix-Within p s (ground arith) in
      record { before = c ∷ rest.before; after = rest.after; text = ap (λ t. c ∷ t) rest.text }
]

starts_with-is_infix : (p s : List ℕ) → starts_with s p ≡ true → is_infix p s ≡ true
unfolding is_infix
starts_with-is_infix p [] h = h
starts_with-is_infix p (c ∷ s) h = ground arith

is_infix-append : (p before after : List ℕ) → is_infix p (before ++ (p ++ after)) ≡ true
unfolding is_infix
is_infix-append p [] after = starts_with-is_infix p (p ++ after) (starts_with-append p after)
is_infix-append p (c ∷ before) after = ground (arith, is_infix-append p before after)

any-Among :
    (test : List ℕ → Bool) (xs : List (List ℕ))
    → any test xs ≡ true
    → (x : List ℕ) × Among x xs × (test x ≡ true)
any-Among test [] h = absurd (cc h)
any-Among test (x ∷ xs) h = elim (Bool-cases (test x)) [
  | inl good ↦ (x, first, good)
  | inr bad ↦ let (y, there, good) = any-Among test xs (ground arith) in (y, later there, good)
]

Among-any :
    (test : List ℕ → Bool) {x : List ℕ} {xs : List (List ℕ)}
    → Among x xs
    → test x ≡ true
    → any test xs ≡ true
Among-any test first good = ground arith
Among-any test (later there) good = let rest = Among-any test there good in ground arith

module _ (lower : List ℕ → List ℕ) where
  -- In lower case, a known miner's name stands in the name of a process.
  pub record HoldsMiner (proc : List ℕ) : Type 0 where
    pub miner : List ℕ
    pub known : Among miner known_miner_processes
    pub within : Within (lower miner) (lower proc)

  is_miner-HoldsMiner : (proc : List ℕ) → is_miner lower proc ≡ true → HoldsMiner proc
  unfolding is_miner
  is_miner-HoldsMiner proc h =
      let (miner, known, good) = any-Among _ known_miner_processes h in
      record {
        miner = miner;
        known = known;
        within = is_infix-Within (lower miner) (lower proc) good;
      }

  HoldsMiner-is_miner : (proc : List ℕ) → HoldsMiner proc → is_miner lower proc ≡ true
  unfolding is_miner
  HoldsMiner-is_miner proc holds =
      Among-any (λ miner. is_infix (lower miner) (lower proc)) holds.known
        (ap (is_infix (lower holds.miner)) holds.within.text
          ∙ is_infix-append (lower holds.miner) holds.within.before holds.within.after)

  -- The process names that hold a miner's name, in order.
  pub data Picked : List (List ℕ) → List (List ℕ) → Type 0 where
    done : Picked [] []
    pick :
        {proc : List ℕ} {procs found : List (List ℕ)}
        → HoldsMiner proc
        → Picked procs found
        → Picked (proc ∷ procs) (proc ∷ found)
    skip :
        {proc : List ℕ} {procs found : List (List ℕ)}
        → ¬ HoldsMiner proc
        → Picked procs found
        → Picked (proc ∷ procs) found

  check_for_miners-Picked : (procs : List (List ℕ)) → Picked procs (check_for_miners lower procs)
  unfolding check_for_miners
  check_for_miners-Picked [] = done
  check_for_miners-Picked (proc ∷ procs) =
      let rest = check_for_miners-Picked procs in
      elim (Bool-cases (is_miner lower proc)) [
        | inl good ↦ rw good (pick (is_miner-HoldsMiner proc good) rest)
        | inr bad ↦
            rw bad (skip (λ holds. absurd (cc (sym bad ∙ HoldsMiner-is_miner proc holds))) rest)
      ]

  -- What a scan gives and leaves, by the process names of the container.
  pub data Mined (procs : List (List ℕ)) (m : SecurityMonitor)
      : Option SecurityAlert × SecurityMonitor → Type 0 where
    alarm :
        (name : List ℕ) (names : List (List ℕ)) (a : SecurityAlert)
        → Picked procs (name ∷ names)
        → a.process_names ≡ name ∷ names
        → a.alert_type ≡ mining_detected
        → a.severity ≡ critical
        → Mined procs m (some a, m)
    quiet :
        (alert : Option SecurityAlert) (m' : SecurityMonitor)
        → Picked procs []
        → is_mining alert ≡ false
        → Mined procs m (alert, m')

  module _ (parse_float : List ℕ → Option ℕ) where
    is_mining-scan_usage :
        (procs : List (List ℕ)) (cpu_percent : ℕ) (m : SecurityMonitor)
        → is_mining (scan_usage lower parse_float procs cpu_percent m).0 ≡ false
    unfolding scan_usage
    is_mining-scan_usage procs cpu_percent m = ground arith

    -- If in lower case some process name of the container holds a known miner's name, a scan raises the
    -- critical mining alert, with all names that do, in order, and leaves the CPU history alone. If none
    -- does, it raises no mining alert.
    pub scan-mining :
        (o : Observation) (m : SecurityMonitor)
        → Mined (get_container_processes o.top) m (scan_container lower parse_float o m)
    unfolding scan_container
    scan-mining o m =
        from (check_for_miners lower (get_container_processes o.top))
          (check_for_miners-Picked (get_container_processes o.top))
      where
        from :
            (found : List (List ℕ))
            → Picked (get_container_processes o.top) found
            → Mined (get_container_processes o.top) m (
                if length found == 0
                then scan_usage lower parse_float
                    (get_container_processes o.top)
                    (get_container_cpu parse_float o.stats)
                    m
                else (
                  some (record {
                    alert_type = mining_detected;
                    severity = critical;
                    process_names = found;
                    cpu_percent = zero_percent;
                  }),
                  m,
                ))
        from [] picked = quiet _ _ picked (is_mining-scan_usage _ _ m)
        from (name ∷ names) picked =
            let nonempty : (suc (length names) == 0) ≡ false = ground arith in
            simp nonempty (alarm name names _ picked refl refl refl)
