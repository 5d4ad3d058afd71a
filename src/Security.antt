-- ===== src/Security.antt =====
-- src/computecloud_node/security_monitor.py: the scanner of session containers. What the Docker
-- command line answers is an argument: an exit code with the text of standard output, or `none`
-- where `subprocess.run` raises.
pub mod History
pub mod Alerts
pub mod Mining
mod Tests
use computecloud_node.Prelude.{
  ℕ, ◌-◌, String, Bool, true, false, Option, none, some, List, [], ◌∷◌, ◌++◌, map, length, drop,
  all, any, not, ◌&&◌, ltb, leb, ◌==◌, if◌then◌else◌,
}
use computecloud_node.Python.{codes, strip}
use computecloud_node.Python.Text.{is_infix, same_text, split, second_part}
use computecloud_node.Python.Float.{float_ge}

-- `KNOWN_MINER_PROCESSES`
unfoldable pub known_miner_processes : List (List ℕ)
known_miner_processes = map codes (
    "xmrig" ∷ "ethminer" ∷ "cgminer" ∷ "bfgminer" ∷ "minerd" ∷ "cpuminer" ∷ "ccminer" ∷ "t-rex"
    ∷ "trex" ∷ "teamredminer" ∷ "nbminer" ∷ "phoenixminer" ∷ "lolminer" ∷ "gminer" ∷ "tminer"
    ∷ "minergate" ∷ "nicehashminer" ∷ "claymore" ∷ "ethashminer" ∷ "progpowminer" ∷ "cryptonight"
    ∷ "stratum" ∷ "nsfminer" ∷ "wildrig" ∷ "xmr-stak" ∷ "xmrig-amd" ∷ "xmrig-cpu" ∷ "xmrig-nvidia"
    ∷ "cryptodredge" ∷ "mkxminer" ∷ "sgminer" ∷ "zm" ∷ "z-enemy" ∷ [])

-- `KNOWN_MINING_POOL_DOMAINS`
unfoldable pub known_mining_pool_domains : List String
known_mining_pool_domains =
    "pool.minexmr.com" ∷ "pool.supportxmr.com" ∷ "xmr.pool.minergate.com" ∷ "eth.pool.minergate.com"
    ∷ "btc.pool.minergate.com" ∷ "pool.moneropool.com" ∷ "xmrpool.eu" ∷ "monero.hashpool.pro"
    ∷ "nanopool.org" ∷ "ethermine.org" ∷ "f2pool.com" ∷ "antpool.com" ∷ "viabtc.com"
    ∷ "miningrigrentals.com" ∷ "nicehash.com" ∷ "miningpoolhub.com" ∷ "dwarfpool.com"
    ∷ "flypool.org" ∷ "nanopool.com" ∷ "2miners.com" ∷ "mine.xmr.ru" ∷ "monero.crypto-pool.org" ∷ []

-- The keywords of `_check_suspicious_processes`.
unfoldable pub suspicious_keywords : List (List ℕ)
suspicious_keywords = map codes (
    "stratum" ∷ "mining" ∷ "miner" ∷ "pool." ∷ "hashrate" ∷ "nicehash" ∷ "cryptonight" ∷ "ethash"
    ∷ "kawpow" ∷ "progpow" ∷ [])

pub data AlertType : Type 0 where
  mining_detected anomaly_cpu suspicious_process : AlertType

pub data Severity : Type 0 where
  critical warning : Severity

-- `SecurityAlert`, without the text of `details`.
pub record SecurityAlert : Type 0 where
  pub alert_type : AlertType
  pub severity : Severity
  pub process_names : List (List ℕ)
  pub cpu_percent : ℕ

-- `SecurityMonitor`: two floats and a list of floats are bit patterns.
pub record SecurityMonitor : Type 0 where
  pub cpu_threshold : ℕ
  pub sustained_checks : ℕ
  pub cpu_history : List ℕ

abbrev pub Completed : Type 0
Completed = Option (ℕ × List ℕ)

-- What `docker top` and `docker stats` would answer at the time of a scan.
pub record Observation : Type 0 where
  pub top : Completed
  pub stats : Completed

-- The loop over `lines[1:]` in `_get_container_processes`.
unfoldable pub process_names_of : List (List ℕ) → List (List ℕ)
unfolding strip
process_names_of [] = []
process_names_of (line ∷ lines) =
    let rest = process_names_of lines in
    elim (second_part line) [ none ↦ rest | some name ↦ strip name ∷ rest ]

-- `_get_container_processes`
unfoldable pub get_container_processes : Completed → List (List ℕ)
unfolding process_names_of split second_part strip
get_container_processes none = []
get_container_processes (some (returncode, stdout)) =
    let lines = split 10 (strip stdout) in
    if not (returncode == 0)
    then []
    else if ltb (length lines) 2
    then []
    else process_names_of (drop 1 lines)

-- `s.rstrip("%")`
unfoldable pub strip_percent : List ℕ → List ℕ
strip_percent [] = []
strip_percent (c ∷ s) = elim (strip_percent s) [
  | [] ↦ if c == b'%' then [] else c ∷ []
  | d ∷ t ↦ c ∷ d ∷ t
]

abbrev pub zero_percent : ℕ
zero_percent = 0

-- `s[-n:]`: for n = 0 this is the whole list.
unfoldable pub slice_last {ℓ} : {A : Type ℓ} → ℕ → List A → List A
slice_last n xs = if n == 0 then xs else drop (length xs - n) xs

-- `proc not in found`
abbrev pub listed : List ℕ → List (List ℕ) → Bool
listed proc found = any (same_text proc) found

-- `_get_container_cpu`; `parse_float` is `float(text)`, where `none` is a `ValueError`.
unfoldable pub get_container_cpu : (List ℕ → Option ℕ) → Completed → ℕ
get_container_cpu parse_float none = zero_percent
get_container_cpu parse_float (some (returncode, stdout)) =
    let cpu_str = strip_percent (strip stdout) in
    if not (returncode == 0)
    then zero_percent
    else if length cpu_str == 0
    then zero_percent
    else elim (parse_float cpu_str) [ none ↦ zero_percent | some cpu ↦ cpu ]

-- `lower` is `str.lower`.
module _ (lower : List ℕ → List ℕ) where
  unfoldable pub is_miner : List ℕ → Bool
  is_miner proc = any (λ miner. is_infix (lower miner) (lower proc)) known_miner_processes

  -- `_check_for_miners`
  unfoldable pub check_for_miners : List (List ℕ) → List (List ℕ)
  check_for_miners [] = []
  check_for_miners (proc ∷ procs) =
      let rest = check_for_miners procs in if is_miner proc then proc ∷ rest else rest

  -- The inner loop of `_check_suspicious_processes`, over the keywords.
  unfoldable pub keyword_loop : List ℕ → List (List ℕ) → List (List ℕ) → List (List ℕ)
  keyword_loop proc [] found = found
  keyword_loop proc (kw ∷ kws) found =
      keyword_loop proc kws
        (if is_infix kw (lower proc) && not (listed proc found) then found ++ proc ∷ [] else found)

  -- The outer loop, over the process names.
  unfoldable pub suspicious_loop : List (List ℕ) → List (List ℕ) → List (List ℕ)
  suspicious_loop [] found = found
  suspicious_loop (proc ∷ procs) found =
      suspicious_loop procs (keyword_loop proc suspicious_keywords found)

  -- `_check_suspicious_processes`
  unfoldable pub check_suspicious_processes : List (List ℕ) → List (List ℕ)
  check_suspicious_processes process_names = suspicious_loop process_names []

  module _ (parse_float : List ℕ → Option ℕ) where
    -- `scan_container`, from the CPU sample on.
    unfoldable pub scan_usage :
        List (List ℕ) → ℕ → SecurityMonitor → Option SecurityAlert × SecurityMonitor
    scan_usage proc_names cpu_percent m =
        let appended = m.cpu_history ++ cpu_percent ∷ [] in
        let history =
          if ltb m.sustained_checks (length appended)
          then slice_last m.sustained_checks appended
          else appended in
        let m' = record m { cpu_history = history } in
        let suspicious = check_suspicious_processes proc_names in
        if leb m.sustained_checks (length history) && all (λ c. float_ge c m.cpu_threshold) history
        then (
          some (record {
            alert_type = anomaly_cpu;
            severity = critical;
            process_names = [];
            cpu_percent = cpu_percent;
          }),
          m',
        )
        else if length suspicious == 0
        then (none, m')
        else (
          some (record {
            alert_type = suspicious_process;
            severity = warning;
            process_names = suspicious;
            cpu_percent = zero_percent;
          }),
          m',
        )

    -- `scan_container`
    unfoldable pub scan_container :
        Observation → SecurityMonitor → Option SecurityAlert × SecurityMonitor
    scan_container o m =
        let proc_names = get_container_processes o.top in
        let miners_found = check_for_miners proc_names in
        if length miners_found == 0
        then scan_usage proc_names (get_container_cpu parse_float o.stats) m
        else (
          some (record {
            alert_type = mining_detected;
            severity = critical;
            process_names = miners_found;
            cpu_percent = zero_percent;
          }),
          m,
        )

-- `SecurityMonitor.__init__`
unfoldable pub init : ℕ → ℕ → SecurityMonitor
init cpu_threshold_percent sustained_checks = record {
  cpu_threshold = cpu_threshold_percent;
  sustained_checks = sustained_checks;
  cpu_history = [];
}

-- `reset`
unfoldable pub reset : SecurityMonitor → SecurityMonitor
reset m = record m { cpu_history = [] }
