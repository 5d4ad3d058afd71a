-- ===== src/Security/Tests.antt =====
-- Scans of concrete containers, and the theorems at concrete inputs.
use computecloud_node.Prelude.{
  ℕ, ◌+◌, ◌≡◌, refl, true, Option, some, List, [], ◌∷◌, ◌++◌, map, length, all, any, leb, ◌&&◌,
  arith, ◌==◌, ltb, if◌then◌else◌,
}
use computecloud_node.Python.{codes, strip}
use computecloud_node.Python.Text.{is_infix}
use computecloud_node.Python.Float.{float_ge}
use computecloud_node.Security.{
  Observation, init, scan_container, scan_usage, get_container_processes, get_container_cpu,
  strip_percent, check_for_miners, is_miner, known_miner_processes, check_suspicious_processes,
  suspicious_loop, slice_last, suspicious_keywords, keyword_loop,
}
use computecloud_node.Security.History.{samples, scan_all, cpu_alarm_exact, last, is_cpu_alarm}
use computecloud_node.Security.Mining.{Mined, scan-mining}

-- `str.lower` on ASCII, and the float of a text: 100 or 1.
abbrev lower : List ℕ → List ℕ
lower = map (λ c. if leb 65 c && leb c 90 then c + 32 else c)

abbrev parse : List ℕ → Option ℕ
parse s = some (if ltb (length s) 3 then 4607182418800017408 else 4636737291354636288)

abbrev busy : Observation
busy = record {
  top = some (0, codes "PID COMMAND\n1 python train.py");
  stats = some (0, codes "100%");
}

abbrev calm : Observation
calm = record { top = some (0, codes "PID COMMAND\n1 bash"); stats = some (0, codes "1%") }

abbrev mining : Observation
mining = record {
  top = some (0, codes "PID COMMAND\n1 bash\n7 XMRig --pool");
  stats = some (0, codes "1%");
}

mining_found : any (is_miner lower) (get_container_processes mining.top) ≡ true
unfolding get_container_processes is_miner is_infix known_miner_processes
mining_found = refl

busy_clean : (length (check_for_miners lower (get_container_processes busy.top)) == 0) ≡ true
unfolding check_for_miners get_container_processes is_miner is_infix known_miner_processes
busy_clean = refl

scan-mining_example :
    Mined lower
      (get_container_processes mining.top)
      (init 4636455816377925632 2)
      (scan_container lower parse mining (init 4636455816377925632 2))
scan-mining_example = scan-mining lower parse mining (init 4636455816377925632 2)

cpu_alarm_exact_example :
    is_cpu_alarm
      (scan_container lower parse busy
        (scan_all lower parse (calm ∷ busy ∷ []) (init 4636455816377925632 2))).0
    ≡ (leb 2 (length (samples lower parse ((calm ∷ busy ∷ []) ++ busy ∷ [])))
        && all
            (λ c. float_ge c 4636455816377925632)
            (last 2 (samples lower parse ((calm ∷ busy ∷ []) ++ busy ∷ []))))
cpu_alarm_exact_example =
    cpu_alarm_exact lower parse 4636455816377925632 2 (calm ∷ busy ∷ []) busy (omega arith)
      busy_clean

alarm_raised :
    is_cpu_alarm
      (scan_container lower parse busy
        (scan_all lower parse (calm ∷ busy ∷ []) (init 4636455816377925632 2))).0
    ≡ true
unfolding scan_all scan_container scan_usage init check_for_miners get_container_processes is_miner
    is_infix known_miner_processes get_container_cpu strip_percent strip slice_last float_ge
    check_suspicious_processes suspicious_loop keyword_loop suspicious_keywords
alarm_raised = refl
