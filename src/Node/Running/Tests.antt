-- ===== src/Node/Running/Tests.antt =====
-- Runs of a node against a small pool.
use computecloud_node.Prelude.{
  ◌≡◌, refl, Bool, true, false, Option, none, some, List, [], ◌∷◌, length, leb, arith, ◌==◌,
}
use computecloud_node.Python.{Result, ok, raise, bool, str, obj, Fields, empty, entry, truthy}
use computecloud_node.Python.Dict.{lookup}
use computecloud_node.Node.Sample.{config}
use computecloud_node.Node.Transport.{
  NodeRequest, register, pull, session_pull, register_body, texts, Pool,
}
use computecloud_node.Node.Running.{Client, Threads, registration_of, run, node_loop}
use computecloud_node.Node.Running.Shutdown.{RunEnds, run-RunEnds}

-- The pool accepts the node, has no work, and the event is set after three requests.
abbrev answered : List NodeRequest → Fields
answered (register body ∷ sent) = entry "accepted" (bool true) empty
answered sent = entry "has_task" (bool false) (entry "has_session" (bool false) empty)

abbrev pool : Pool
pool = record {
  answer = λ sent. some (record { status_code = 200; body = ok (obj (answered sent)) });
  stopped = λ sent. leb 3 (length sent);
  is_success = λ code. code == 200;
}

-- The same pool, which rejects the node.
abbrev rejecting : Pool
rejecting = record {
  answer = λ sent.
      some (record { status_code = 200; body = ok (obj (entry "accepted" (bool false) empty)) });
  stopped = λ sent. leb 3 (length sent);
  is_success = λ code. code == 200;
}

abbrev threads : Threads
threads = record { in_flight = λ sent n. n; active = λ sent active. active; ends = λ task. true }

abbrev sent_by : Option (Result (Unit {0}) × Client) → List NodeRequest
sent_by none = []
sent_by (some (result, c)) = c.sent

abbrev is_over : Option (Result (Unit {0}) × Client) → Bool
is_over none = false
is_over (some (ok done, c)) = true
is_over (some (raise exc, c)) = false

runs :
    sent_by (run pool threads 4 config (str "n") true false)
    ≡ session_pull (str "n") ∷ pull (str "n") ∷ registration_of config (str "n") true false ∷ []
unfolding run node_loop registration_of register_body texts lookup truthy
runs = refl

ends_well : is_over (run pool threads 4 config (str "n") true false) ≡ true
unfolding run node_loop registration_of register_body texts lookup truthy
ends_well = refl

turned_away :
    sent_by (run rejecting threads 4 config (str "n") true false)
    ≡ registration_of config (str "n") true false ∷ []
unfolding run node_loop registration_of register_body texts lookup truthy
turned_away = refl

-- A pool that gives one task; the thread that runs it does not come to its end, and `run` does not.
abbrev busy_answered : List NodeRequest → Fields
busy_answered (register body ∷ sent) = entry "accepted" (bool true) empty
busy_answered sent = entry "has_task" (bool true) (entry "has_session" (bool false) empty)

abbrev busy : Pool
busy = record {
  answer = λ sent. some (record { status_code = 200; body = ok (obj (busy_answered sent)) });
  stopped = λ sent. leb 3 (length sent);
  is_success = λ code. code == 200;
}

hangs : run busy (record threads { ends = λ task. false }) 4 config (str "n") true false ≡ none
unfolding run node_loop registration_of register_body texts lookup truthy
hangs = refl

run-RunEnds_example :
    RunEnds pool threads
      (registration_of config (str "n") true true)
      (run pool threads 4 config (str "n") true true)
run-RunEnds_example =
    run-RunEnds pool threads 3 3 config (str "n") true true (λ sent many. ground (arith, many))
      (λ task. refl) (omega arith)
