-- ===== src/Workbench/Waiting.antt =====
-- The wait for the port of a session.
use computecloud_node.Prelude.{
  ℕ, zero, suc, ◌+◌, ◌-◌, ◌≤◌, ◌<◌, ◌≡◌, refl, ◌∙◌, Bool, true, false, inl, inr, some, arith, ltb,
  Bool-cases,
}
use computecloud_node.Workbench.{Machine, Site, act, pause, wait_loop, wait_for_port}

-- A clock that does not go back, and that a sleep moves on.
pub record IsTicking {W : Type 0} (host : Machine W) : Type 0 where
  pub connect_later : (port : ℕ) (w : W) → host.now w ≤ host.now (host.connect port w).1
  pub sleep_later : (time : ℕ) (w : W) → time + host.now w ≤ host.now (host.sleep time w)

module _ {W : Type 0} (host : Machine W) (port deadline : ℕ) where
  -- A connection that was made before the deadline.
  pub record Connected : Type 0 where
    pub asked : W
    pub in_time : host.now asked < deadline
    pub connected : (host.connect port asked).0 ≡ true

  -- What a wait that ends has found.
  pub data Waited : Bool → Site W → Type 0 where
    reached : {s : Site W} → Connected → Waited true s
    gave_up : {s : Site W} → deadline ≤ host.now s.world → Waited false s

  loop_late :
      (fuel : ℕ) (s : Site W)
      → ltb (host.now s.world) deadline ≡ false
      → wait_loop host (suc fuel) port deadline s ≡ some (false, s)
  unfolding wait_loop
  loop_late fuel s late = rw (late, wait_loop) refl

  loop_reached :
      (fuel : ℕ) (s : Site W)
      → ltb (host.now s.world) deadline ≡ true
      → (host.connect port s.world).0 ≡ true
      → wait_loop host (suc fuel) port deadline s ≡ some (true, (act host (host.connect port) s).1)
  unfolding wait_loop
  loop_reached fuel s early connected = rw (early, wait_loop) (rw (connected, wait_loop) refl)

  loop_refused :
      (fuel : ℕ) (s : Site W)
      → ltb (host.now s.world) deadline ≡ true
      → (host.connect port s.world).0 ≡ false
      → wait_loop host (suc fuel) port deadline s
        ≡ wait_loop host fuel port deadline (pause host 500 (act host (host.connect port) s).1)
  unfolding wait_loop
  loop_refused fuel s early refused = rw (early, wait_loop) (rw (refused, wait_loop) refl)

  pub wait_loop-Waited :
      IsTicking host
      → (fuel : ℕ) (s : Site W) → deadline - host.now s.world < fuel
      → (opened : Bool) × (s' : Site W) × (wait_loop host fuel port deadline s ≡ some (opened, s'))
        × Waited opened s'
        × (s'.ran ≡ s.ran)
  wait_loop-Waited ticking zero s enough = absurd (ground (arith, enough))
  wait_loop-Waited ticking (suc fuel) s enough =
      elim (Bool-cases (ltb (host.now s.world) deadline)) [
        | inr late ↦ (false, s, loop_late fuel s late, gave_up (ground (arith, late)), refl)
        | inl early ↦ elim (Bool-cases (host.connect port s.world).0) [
          | inl connected ↦ (
            true,
            _,
            loop_reached fuel s early connected,
            reached (record {
              asked = s.world;
              in_time = ground (arith, early);
              connected = connected;
            }),
            refl,
          )
          | inr refused ↦
              let s1 = pause host 500 (act host (host.connect port) s).1 in
              let later : 500 + host.now s.world ≤ host.now s1.world = omega (
                arith,
                ticking.sleep_later 500 (host.connect port s.world).1,
                ticking.connect_later port s.world,
              ) in
              let (opened, s', run, waited, same) =
                wait_loop-Waited ticking fuel s1 (ground (arith, later)) in
              (opened, s', loop_refused fuel s early refused ∙ run, waited, same)
        ]
      ]

-- On a clock that does not go back, `_wait_for_port` ends: it gives back true after a connection that
-- was made before its deadline, and false at or after its deadline. It runs no process.
pub wait_for_port-Waited :
    {W : Type 0} (host : Machine W)
    → IsTicking host
    → (port timeout : ℕ) (s : Site W)
    → (opened : Bool) × (s' : Site W) × (wait_for_port host port timeout s ≡ some (opened, s'))
      × Waited host port (host.now s.world + timeout) opened s'
      × (s'.ran ≡ s.ran)
unfolding wait_for_port
wait_for_port-Waited host ticking port timeout s =
    wait_loop-Waited host port (host.now s.world + timeout) ticking (timeout + 1) s (omega arith)
