-- ===== src/Node/Running/Shutdown.antt =====
-- How `run` ends.
use computecloud_node.Prelude.{
  ℕ, zero, suc, ◌+◌, ◌≤◌, ◌≡◌, refl, Bool, true, false, Option, some, List, [], ◌∷◌, length, arith,
  Bool-cases, inl, inr, all, not, ◌&&◌,
}
use computecloud_node.Python.{Result, ok, raise, Exc, Value, Fields}
use computecloud_node.Config.{NodeConfig}
use computecloud_node.Node.{Node}
use computecloud_node.Node.Transport.{NodeRequest, Pool}
use computecloud_node.Node.Running.{
  Client, Threads, Outcome, connected_client, registration_of, close, closed, current, pull_sent,
  poll, polled, session_poll, session_polled, then_sessions, run_round, go_on, node_loop,
  run_registered, run,
}

pub record IsClosed (c : Client) : Type 0 where
  pub running : c.running ≡ false
  pub exec_pool : c.has_exec_pool ≡ false
  pub http : c.http_open ≡ false

-- The loop has ended, with the client closed.
pub data Ends : Option (Result (Unit {0}) × Client) → Type 0 where
  ends : (result : Result (Unit {0})) (c : Client) → IsClosed c → Ends (some (result, c))

all-each :
    (test : Fields → Bool)
    → ((task : Fields) → test task ≡ true)
    → (tasks : List Fields) → all test tasks ≡ true
all-each test each [] = refl
all-each test each (task ∷ tasks) = rw (each task) (all-each test each tasks)

module _ (pool : Pool) (threads : Threads) where
  closed-Ends :
      (result : Result (Unit {0})) (c : Client)
      → ((task : Fields) → threads.ends task ≡ true)
      → Ends (closed pool threads result (close threads c))
  unfolding close
  closed-Ends result c over =
      let done = all-each threads.ends over c.tasks in
      let waited : (c.has_exec_pool && not (all threads.ends c.tasks)) ≡ false =
        ground (arith, done) in
      rw waited (ends result _ (record { running = refl; exec_pool = refl; http = refl }))

  -- A round that returns has sent more than `n` requests.
  abbrev Grows : ℕ → Result (Unit {0}) × Client → Type 0
  Grows n (raise exc, c) = Unit
  Grows n (ok done, c) = suc n ≤ length c.sent

  session_polled-Grows :
      (n : ℕ) (outcome : Result (Option Fields)) (c : Client)
      → suc n ≤ length c.sent
      → Grows n (session_polled pool threads outcome c)
  session_polled-Grows n (raise exc) c h = tt
  session_polled-Grows n (ok session) c h = h

  session_poll-Grows :
      (n : ℕ) (c : Client) → n ≤ length c.sent → Grows n (session_poll pool threads c)
  unfolding session_poll
  session_poll-Grows n c h = session_polled-Grows n _ _ (omega arith)

  polled-Grows :
      (n : ℕ) (outcome : Result (Option Fields) × Node) (c : Client)
      → n ≤ length c.sent
      → Grows n (then_sessions pool threads (polled pool threads outcome c))
  polled-Grows n (raise exc, node) c h = tt
  polled-Grows n (ok task, node) c h = session_poll-Grows n _ h

  pull_sent-length : (c : Client) → length c.sent ≤ length (pull_sent pool threads c)
  pull_sent-length c = ground arith

  run_round-Grows : (c : Client) → Grows (length c.sent) (run_round pool threads c)
  unfolding run_round poll
  run_round-Grows c = polled-Grows (length c.sent) _ _ (pull_sent-length (current pool threads c))

  go_on-Ends :
      (loop : Client → Outcome pool threads) (n : ℕ) (p : Result (Unit {0}) × Client)
      → Grows n p
      → ((task : Fields) → threads.ends task ≡ true)
      → ((c : Client) → suc n ≤ length c.sent → Ends (loop c))
      → Ends (go_on pool threads loop p)
  go_on-Ends loop n (raise exc, c) grown over rest = closed-Ends (raise exc) c over
  go_on-Ends loop n (ok done, c) grown over rest = rest c grown

  -- If the stop event is set once `last` requests are sent, and every task ends, then so many rounds end the loop, with the
  -- client closed.
  node_loop-Ends :
      (last rounds : ℕ) (c : Client)
      → ((sent : List NodeRequest) → last ≤ length sent → pool.stopped sent ≡ true)
      → ((task : Fields) → threads.ends task ≡ true)
      → last ≤ rounds + length c.sent
      → Ends (node_loop pool threads (suc rounds) c)
  unfolding node_loop
  node_loop-Ends last zero c stops over enough =
      rw (stops c.sent (omega (arith, enough))) (closed-Ends (ok tt) c over)
  node_loop-Ends last (suc rounds) c stops over enough = elim (Bool-cases (pool.stopped c.sent)) [
    | inl stop ↦ rw stop (closed-Ends (ok tt) c over)
    | inr later ↦ rw later (
        go_on-Ends (λ c'. node_loop pool threads (suc rounds) c') (length c.sent)
          (run_round pool threads c) (run_round-Grows c) over
          (λ c' grown. node_loop-Ends last rounds c' stops over (omega (arith, enough, grown))))
  ]

  -- How `run` ends: with the registration refused, before any other request and with the HTTP client
  -- open, or else with the client closed.
  pub data RunEnds (registration : NodeRequest) : Option (Result (Unit {0}) × Client) → Type 0 where
    rejected :
        (exc : Exc) (c : Client)
        → c.sent ≡ registration ∷ []
        → c.http_open ≡ true
        → RunEnds registration (some (raise exc, c))
    finished :
        (result : Result (Unit {0})) (c : Client)
        → IsClosed c
        → RunEnds registration (some (result, c))

  loop_run :
      (registration : NodeRequest) (outcome : Outcome pool threads)
      → Ends outcome
      → RunEnds registration outcome
  loop_run registration _ (ends result c closed) = finished result c closed

  run_registered-RunEnds :
      (last rounds : ℕ) (registration : NodeRequest) (registered : Result Node) (c : Client)
      → ((sent : List NodeRequest) → last ≤ length sent → pool.stopped sent ≡ true)
      → ((task : Fields) → threads.ends task ≡ true)
      → last ≤ rounds
      → c.sent ≡ registration ∷ []
      → c.http_open ≡ true
      → RunEnds registration (run_registered pool threads (suc rounds) registered c)
  run_registered-RunEnds last rounds registration (raise exc) c stops over enough one open_client =
      rejected exc c one open_client
  run_registered-RunEnds last rounds registration (ok n) c stops over enough one open_client =
      loop_run registration _ (
        node_loop-Ends last rounds (record c { node = n; running = true }) stops over
          (omega (arith, enough)))

  -- If the stop event is set once `last` requests are sent, and the thread of every task comes to its
  -- end, then `run` ends within `last` rounds and one more: with the registration refused, before any other request and with the HTTP client open,
  -- or else with the thread pool and the HTTP client closed, whether the loop returns or raises.
  pub run-RunEnds :
      (last rounds : ℕ) (config : NodeConfig) (node_id : Value) (enable_pipeline probed : Bool)
      → ((sent : List NodeRequest) → last ≤ length sent → pool.stopped sent ≡ true)
      → ((task : Fields) → threads.ends task ≡ true)
      → last ≤ rounds
      → RunEnds
          (registration_of config node_id enable_pipeline probed)
          (run pool threads (suc rounds) config node_id enable_pipeline probed)
  unfolding run connected_client
  run-RunEnds last rounds config node_id enable_pipeline probed stops over enough =
      run_registered-RunEnds last rounds (registration_of config node_id enable_pipeline probed) _ _
        stops over enough refl refl
