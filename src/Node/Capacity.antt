-- ===== src/Node/Capacity.antt =====
-- The counter `_tasks_in_flight`: what it counts, and what a lost report does to it.
use computecloud_node.Prelude.{
  ℕ, ◌+◌, ◌≤◌, ◌<◌, ◌≡◌, refl, ap, ◌∙◌, if◌then◌else◌, Bool, Option, none, some, List, [], ◌∷◌,
  ◌++◌, length, length-append, arith,
}
use computecloud_node.Python.{ok, Fields}
use computecloud_node.Exchange.{Response}
use computecloud_node.Node.{
  Node, System, Step, polled, ended, Steps, stop, next, submitted, poll_once, task_end,
  report_result, pulled_task, json_of,
}

-- A node that has started: no task runs.
pub record IsFresh (s : System) : Type 0 where
  pub idle : s.running ≡ []
  pub counted : s.node.tasks_in_flight ≡ 0
  pub kept : s.lost ≡ 0

pub record Accounted (s : System) : Type 0 where
  pub balance : s.node.tasks_in_flight ≡ length s.running + s.lost
  pub within : s.node.tasks_in_flight ≤ s.node.max_concurrent_tasks

module _ (is_success : ℕ → Bool) where
  -- How a poll changes the node: the counter goes up by the tasks that it hands over, which is one
  -- at most and none if the node is full.
  pub record Pulled (task : Option Fields) (n n' : Node) : Type 0 where
    pub counter : n'.tasks_in_flight ≡ n.tasks_in_flight + length (submitted task)
    pub same_cap : n'.max_concurrent_tasks ≡ n.max_concurrent_tasks
    pub within :
        n.tasks_in_flight ≤ n.max_concurrent_tasks → n'.tasks_in_flight ≤ n.max_concurrent_tasks

  poll_once-Pulled :
      (answer : Option Response) (n : Node) (task : Option Fields) (n' : Node)
      → poll_once is_success answer n ≡ (ok task, n')
      → Pulled task n n'
  unfolding poll_once
  poll_once-Pulled answer n none n' e = record {
    counter = ground (arith, e);
    same_cap = ground (arith, e);
    within = ground (arith, e);
  }
  poll_once-Pulled answer n (some t) n' e = record {
    counter = ground (arith, e);
    same_cap = ground (arith, e);
    within = ground (arith, e);
  }

  -- What one step keeps and what it can only raise.
  pub record Kept (s s' : System) : Type 0 where
    pub accounted : Accounted s → Accounted s'
    pub same_cap : s'.node.max_concurrent_tasks ≡ s.node.max_concurrent_tasks
    pub lost_more : s.lost ≤ s'.lost

  ended-Kept :
      (answer : Option Response) (before after : List Fields) (task : Fields) (s : System)
      (b : Bool)
      → s.running ≡ before ++ task ∷ after
      → report_result is_success answer ≡ b
      → Kept s (record {
        node = task_end is_success answer s.node;
        running = before ++ after;
        lost = if report_result is_success answer then s.lost else s.lost + 1;
      })
  unfolding task_end
  ended-Kept answer before after task s b split e = record {
    accounted = λ h. record {
      balance = ground (
        arith,
        h.balance,
        ap length split,
        length-append before (task ∷ after),
        length-append before after,
      );
      within = ground (arith, h.within);
    };
    same_cap = ground (arith);
    lost_more = ground (arith);
  }

  Step-Kept : (s s' : System) → Step is_success s s' → Kept s s'
  Step-Kept s _ (polled answer task n e) =
      let pulled = poll_once-Pulled answer s.node task n e in
      record {
        accounted = λ h. record {
          balance =
              omega (arith, h.balance, pulled.counter, length-append s.running (submitted task));
          within = omega (arith, pulled.within h.within, pulled.same_cap);
        };
        same_cap = pulled.same_cap;
        lost_more = omega arith;
      }
  Step-Kept s _ (ended answer before after task split) =
      ended-Kept answer before after task s _ split refl

  Steps-Kept : (s s' : System) → Steps is_success s s' → Kept s s'
  Steps-Kept s _ stop = record { accounted = λ h. h; same_cap = refl; lost_more = omega arith }
  Steps-Kept s s'' (next {s' = s'} step steps) =
      let first = Step-Kept s s' step in
      let rest = Steps-Kept s' s'' steps in
      record {
        accounted = λ h. rest.accounted (first.accounted h);
        same_cap = rest.same_cap ∙ first.same_cap;
        lost_more = omega (arith, first.lost_more, rest.lost_more);
      }

  -- After any polls and any ends of tasks, in any order, of a node that has started with no task,
  -- the counter is the number of running tasks plus the number of tasks whose report has raised,
  -- and it is at most `max_concurrent_tasks`.
  pub Steps-Accounted : (s s' : System) → IsFresh s → Steps is_success s s' → Accounted s'
  Steps-Accounted s s' fresh steps = (Steps-Kept s s' steps).accounted (record {
    balance = omega (arith, fresh.counted, fresh.kept, ap length fresh.idle);
    within = omega (arith, fresh.counted);
  })

  full_idle :
      (answer : Option Response) (n : Node)
      → n.max_concurrent_tasks ≤ n.tasks_in_flight
      → poll_once is_success answer n ≡ (ok none, n)
  unfolding poll_once
  full_idle answer n full = ground (arith, full)

  -- Once as many reports have raised as the node may run tasks, no poll ever asks for a task again:
  -- whatever the server would answer, in every state that can follow, the poll returns at once.
  pub Steps-starved :
      (s s' s'' : System) (answer : Option Response)
      → IsFresh s
      → Steps is_success s s'
      → s.node.max_concurrent_tasks ≤ s'.lost
      → Steps is_success s' s''
      → poll_once is_success answer s''.node ≡ (ok none, s''.node)
  Steps-starved s s' s'' answer fresh steps many later =
      let before = Steps-Kept s s' steps in
      let after = Steps-Kept s' s'' later in
      let accounted = after.accounted (Steps-Accounted s s' fresh steps) in
      full_idle answer s''.node
        (omega (arith, accounted.balance, after.lost_more, after.same_cap, before.same_cap))

  -- While no report has raised, a node that runs fewer tasks than it may takes a task that the
  -- server offers, counts it, and hands it to the pool.
  pub Steps-pull :
      (s s' : System) (answer : Option Response) (task : Fields)
      → IsFresh s
      → Steps is_success s s'
      → s'.lost ≡ 0
      → length s'.running < s.node.max_concurrent_tasks
      → pulled_task is_success (json_of is_success answer) ≡ ok (some task)
      → poll_once is_success answer s'.node
        ≡ (ok (some task), record s'.node { tasks_in_flight = length s'.running + 1 })
  unfolding poll_once
  Steps-pull s s' answer task fresh steps none_lost room offered =
      let accounted = Steps-Accounted s s' fresh steps in
      let cap = (Steps-Kept s s' steps).same_cap in ground (arith, accounted.balance, cap)
