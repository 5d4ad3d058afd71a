-- ===== src/Exchange.antt =====
-- The exchange with the pool server: src/computecloud_node/pipeline_worker.py, data_worker.py and
-- shard_executor_adapter.py. Time is counted in milliseconds. This file holds what the two workers
-- share: the loop that polls for a shard's input, and the loop that posts its output.
pub mod Action
pub mod Polling
pub mod Posting
pub mod PipelineWorker
pub mod DataWorker
pub mod Routing
pub mod Shards
mod Tests
use computecloud_node.Prelude.{
  ℕ, zero, suc, ◌+◌, ◌≤◌, String, Bool, true, false, Option, none, some, ◌||◌, ltb, ◌==◌,
  if◌then◌else◌,
}
use computecloud_node.Python.{Result, ok, raise, timeout_error, runtime_error, Value}

-- A response; `body` is what `json()` gives.
pub record Response : Type 0 where
  pub status_code : ℕ
  pub body : Result Value

-- The server, the network and the clock, as an HTTP client meets them. `none` is an exception that
-- the client raises.
pub record Net : Type 1 where
  pub State : Type 0
  -- `time.monotonic()`
  pub now : State → ℕ
  pub get : String → State → Option Response × State
  pub post : String → Value → State → Option Response × State
  pub sleep : ℕ → State → State

-- What the workers rely on: a monotonic clock does not go back, and `sleep` takes at least its time.
pub record IsTimed (net : Net) : Type 0 where
  pub get_later : (url : String) (s : net.State) → net.now s ≤ net.now (net.get url s).1
  pub sleep_later : (d : ℕ) (s : net.State) → d + net.now s ≤ net.now (net.sleep d s)

-- How one round of polling ends.
pub data Round (S A : Type 0) : Type 0 where
  finished : Result A → S → Round S A
  again : S → Round S A

-- `resp.status_code in (200, 201, 204)`, and no exception.
abbrev pub is_posted : Option Response → Bool
is_posted none = false
is_posted (some r) = r.status_code == 200 || r.status_code == 201 || r.status_code == 204

module _ (net : Net) where
  module _ {A : Type 0} where
    -- One round of `_poll_for_input`. `accept` is what the worker does with a response: `none` means
    -- that it is not ready. The log lines, which cut the identifier of the run, are left out.
    unfoldable pub poll_round :
        (Response → Option (Result A)) → String → ℕ → net.State → Round net.State A
    poll_round accept url interval s =
        let (response, s') = net.get url s in
        elim response [
          | none ↦ again (net.sleep interval s')
          | some r ↦ elim (accept r) [
            | none ↦ again (net.sleep interval s')
            | some result ↦ finished result s'
          ]
        ]

    -- The loop `while time.monotonic() < deadline`, and the exception after it. `none`: out of fuel.
    unfoldable pub poll_loop :
        (Response → Option (Result A))
        → String
        → ℕ
        → ℕ
        → ℕ
        → net.State
        → Option (Result A × net.State)
    poll_loop accept url interval deadline zero s = none
    poll_loop accept url interval deadline (suc fuel) s = elim (ltb (net.now s) deadline) [
      | false ↦ some (raise timeout_error, s)
      | true ↦ elim (poll_round accept url interval s) [
        | finished result s' ↦ some (result, s')
        | again s' ↦ poll_loop accept url interval deadline fuel s'
      ]
    ]

    -- `_poll_for_input`: each round takes at least a millisecond, so that this fuel is enough.
    unfoldable pub poll_for_input :
        (Response → Option (Result A)) → String → ℕ → ℕ → net.State → Option (Result A × net.State)
    poll_for_input accept url interval timeout s =
        poll_loop accept url interval (net.now s + timeout) (timeout + 1) s

  -- The loop of `_post_output` over the attempts, and the exception after it.
  unfoldable pub post_loop : ℕ → String → Value → net.State → Result (Unit {0}) × net.State
  post_loop zero url body s = (raise runtime_error, s)
  post_loop (suc attempts) url body s =
      let (response, s') = net.post url body s in
      let retry = post_loop attempts url body (net.sleep 100 s') in
      if is_posted response then (ok tt, s') else retry

  -- `_post_output`
  unfoldable pub post_output : String → Value → net.State → Result (Unit {0}) × net.State
  post_output url body s = post_loop 3 url body s
