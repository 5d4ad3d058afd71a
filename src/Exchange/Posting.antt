-- ===== src/Exchange/Posting.antt =====
-- Posting stops at the first request that the server takes, and gives up after three.
use computecloud_node.Prelude.{
  ℕ, zero, suc, ◌<◌, String, ◌≡◌, inl, inr, true, false, arith, Bool-cases,
}
use computecloud_node.Python.{Result, ok, raise, runtime_error, Value}
use computecloud_node.Exchange.{Net, is_posted, post_loop, post_output}

module _ (net : Net) (url : String) (body : Value) where
  -- Requests that failed one after the other, with the pause after each.
  pub data Refused : ℕ → net.State → net.State → Type 0 where
    untried : {s : net.State} → Refused zero s s
    refused :
        {n : ℕ} {s s' : net.State}
        → is_posted (net.post url body s).0 ≡ false
        → Refused n (net.sleep 100 (net.post url body s).1) s'
        → Refused (suc n) s s'

  -- How posting with a number of attempts has ended.
  pub data Posted : ℕ → Result (Unit {0}) → net.State → net.State → Type 0 where
    taken :
        {n k : ℕ} {s s' : net.State}
        → k < n
        → Refused k s s'
        → is_posted (net.post url body s').0 ≡ true
        → Posted n (ok tt) s (net.post url body s').1
    gave_up : {n : ℕ} {s s' : net.State} → Refused n s s' → Posted n (raise runtime_error) s s'

  more :
      (n : ℕ) (result : Result (Unit {0})) (s s' : net.State)
      → is_posted (net.post url body s).0 ≡ false
      → Posted n result (net.sleep 100 (net.post url body s).1) s'
      → Posted (suc n) result s s'
  more n result s s' failed (taken within before last) =
      taken (omega arith) (refused failed before) last
  more n result s s' failed (gave_up before) = gave_up (refused failed before)

  post_step_taken :
      (n : ℕ) (s : net.State)
      → is_posted (net.post url body s).0 ≡ true
      → post_loop net (suc n) url body s ≡ (ok tt, (net.post url body s).1)
  unfolding post_loop
  post_step_taken n s done = ground (arith, done)

  post_step_refused :
      (n : ℕ) (s : net.State)
      → is_posted (net.post url body s).0 ≡ false
      → post_loop net (suc n) url body s
        ≡ post_loop net n url body (net.sleep 100 (net.post url body s).1)
  unfolding post_loop
  post_step_refused n s failed = ground (arith, failed)

  post_loop-Posted :
      (n : ℕ) (s : net.State)
      → Posted n (post_loop net n url body s).0 s (post_loop net n url body s).1
  unfolding post_loop
  post_loop-Posted zero s = gave_up untried
  post_loop-Posted (suc n) s = elim (Bool-cases (is_posted (net.post url body s).0)) [
    | inl done ↦ rw (post_step_taken n s done) (taken (omega arith) untried done)
    | inr failed ↦
        rw (post_step_refused n s failed)
          (more n _ s _ failed (post_loop-Posted n (net.sleep 100 (net.post url body s).1)))
  ]

  -- `_post_output` returns right after the first request that the server takes, before which fewer
  -- than three were refused, or raises after three refused requests.
  pub post_output-Posted :
      (s : net.State) → Posted 3 (post_output net url body s).0 s (post_output net url body s).1
  unfolding post_output
  post_output-Posted s = post_loop-Posted 3 s
