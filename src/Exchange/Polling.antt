-- ===== src/Exchange/Polling.antt =====
-- Polling ends, and gives up no earlier than the deadline.
use computecloud_node.Prelude.{
  ℕ, zero, suc, ◌+◌, ◌-◌, ◌≤◌, ◌<◌, String, ◌≡◌, refl, ◌⊎◌, inl, inr, true, false, Option, some,
  arith, ltb, ◌∙◌, Bool-cases, Option-cases,
}
use computecloud_node.Python.{Result, raise, timeout_error}
use computecloud_node.Exchange.{
  Net, IsTimed, Response, finished, again, poll_round, poll_loop, poll_for_input,
}

module _ (net : Net) {A : Type 0} (accept : Response → Option (Result A)) (url : String) where
  -- A response that the worker accepts, to a request that was made before the deadline.
  pub record Answered (deadline : ℕ) (result : Result A) : Type 0 where
    pub asked : net.State
    pub in_time : net.now asked < deadline
    pub response : Response
    pub received : (net.get url asked).0 ≡ some response
    pub accepted : accept response ≡ some result

  Round-cases :
      (interval : ℕ) (s : net.State)
      → ((s' : net.State) × (poll_round net accept url interval s ≡ again s')
          × (s' ≡ net.sleep interval (net.get url s).1))
        ⊎ ((r : Response) × (result : Result A) × ((net.get url s).0 ≡ some r)
            × (accept r ≡ some result)
            × (poll_round net accept url interval s ≡ finished result (net.get url s).1))
  unfolding poll_round
  Round-cases interval s = elim (Option-cases (net.get url s).0) [
    | inl failed ↦ inl (_, rw (failed, poll_round), refl)
    | inr (r, received) ↦ elim (Option-cases (accept r)) [
      | inl waiting ↦ inl (_, rw (received, poll_round, waiting), refl)
      | inr (result, accepted) ↦
          inr (r, result, received, accepted, rw (received, poll_round, accepted))
    ]
  ]

  -- What a call that ends has given back.
  pub data Outcome (deadline : ℕ) : Result A → net.State → Type 0 where
    gave_up : {s : net.State} → deadline ≤ net.now s → Outcome deadline (raise timeout_error) s
    answered :
        {result : Result A} {s : net.State} → Answered deadline result → Outcome deadline result s

  loop_again :
      (interval deadline fuel : ℕ) (s s' : net.State)
      → ltb (net.now s) deadline ≡ true
      → poll_round net accept url interval s ≡ again s'
      → poll_loop net accept url interval deadline (suc fuel) s
        ≡ poll_loop net accept url interval deadline fuel s'
  unfolding poll_loop
  loop_again interval deadline fuel s s' early step =
      rw (early, poll_loop) (rw (step, poll_loop) refl)

  loop_finished :
      (interval deadline fuel : ℕ) (s s' : net.State) (result : Result A)
      → ltb (net.now s) deadline ≡ true
      → poll_round net accept url interval s ≡ finished result s'
      → poll_loop net accept url interval deadline (suc fuel) s ≡ some (result, s')
  unfolding poll_loop
  loop_finished interval deadline fuel s s' result early step =
      rw (early, poll_loop) (rw (step, poll_loop) refl)

  loop_late :
      (interval deadline fuel : ℕ) (s : net.State)
      → ltb (net.now s) deadline ≡ false
      → poll_loop net accept url interval deadline (suc fuel) s ≡ some (raise timeout_error, s)
  unfolding poll_loop
  loop_late interval deadline fuel s late = rw (late, poll_loop) refl

  pub poll_loop-Outcome :
      IsTimed net
      → (interval : ℕ) → 0 < interval
      → (deadline fuel : ℕ) (s : net.State) → deadline - net.now s < fuel
      → (result : Result A) × (s' : net.State) × (poll_loop net accept url interval deadline fuel s
          ≡ some (result, s'))
        × Outcome deadline result s'
  poll_loop-Outcome timed interval positive deadline zero s enough = absurd (ground (arith, enough))
  poll_loop-Outcome timed interval positive deadline (suc fuel) s enough =
      elim (Bool-cases (ltb (net.now s) deadline)) [
        | inl early ↦ elim (Round-cases interval s) [
          | inl (s', step, slept) ↦
              let later : interval + net.now s ≤ net.now s' = rw slept (
                omega
                  (arith, timed.sleep_later interval (net.get url s).1, timed.get_later url s)) in
              let (result, last, run, outcome) =
                poll_loop-Outcome timed interval positive deadline fuel s'
                  (ground (arith, later)) in
              (result, last, loop_again interval deadline fuel s s' early step ∙ run, outcome)
          | inr (r, result, received, accepted, step) ↦ (
            result,
            (net.get url s).1,
            loop_finished interval deadline fuel s _ result early step,
            answered (record {
              asked = s;
              in_time = ground (arith, early);
              response = r;
              received = received;
              accepted = accepted;
            }),
          )
        ]
        | inr late ↦ (
          raise timeout_error,
          s,
          loop_late interval deadline fuel s late,
          gave_up (ground (arith, late)),
        )
      ]

  -- On a clock that does not go back, and with an interval of at least a millisecond, polling ends:
  -- `_poll_for_input` raises the time-out error at or after its deadline, or gives back what the
  -- worker makes of a response that it accepts, to a request made before the deadline.
  pub poll_for_input-Outcome :
      IsTimed net
      → (interval timeout : ℕ) → 0 < interval
      → (s : net.State)
      → (result : Result A) × (s' : net.State) × (poll_for_input net accept url interval timeout s
          ≡ some (result, s'))
        × Outcome (net.now s + timeout) result s'
  unfolding poll_for_input
  poll_for_input-Outcome timed interval timeout positive s =
      poll_loop-Outcome timed interval positive (net.now s + timeout) (timeout + 1) s (omega arith)
