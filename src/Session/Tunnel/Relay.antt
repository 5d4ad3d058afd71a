-- ===== src/Session/Tunnel/Relay.antt =====
-- The data that the pumps of a tunnel pass on, whatever the order of events.
use computecloud_node.Prelude.{
  ℕ, ◌≡◌, refl, ◌∙◌, sym, ap, Bool, true, false, none, some, List, [], ◌∷◌, ◌++◌, arith,
  append_assoc, append-nil, ◌||◌, ◌&&◌, not, subst, Option-cases, inl, inr,
}
use computecloud_node.Python.{Result, ok, raise}
use computecloud_node.Session.Tunnel.{
  Pumps, Event, recv, read, wake, opened_pumps, is_tcp_ended, is_ws_ended, unsent, encoded, resume,
  relay,
}

abbrev pub is_wake : Event → Bool
is_wake wake = true
is_wake _ = false

-- The data read from the container.
abbrev pub read_by : Event → List ℕ
read_by (read (some chunk)) = chunk
read_by _ = []

unfoldable pub all_read : List Event → List ℕ
all_read [] = []
all_read (event ∷ events) = read_by event ++ all_read events

unfoldable pub is_woken : List Event → Bool
is_woken [] = false
is_woken (event ∷ events) = is_wake event || is_woken events

module _ (encode : List ℕ → Result (List ℕ)) where
  abbrev pub data_of : Result (List ℕ) → List ℕ
  data_of (raise exc) = []
  data_of (ok chunk) = chunk

  -- The data of a message that came, if it has any.
  abbrev pub received_by : Event → List ℕ
  received_by (recv (some message)) = data_of (encoded encode message)
  received_by _ = []

  unfoldable pub all_received : List Event → List ℕ
  all_received [] = []
  all_received (event ∷ events) = received_by event ++ all_received events

  -- Both pumps have ended.
  abbrev pub are_ended : Pumps → Bool
  are_ended r = is_tcp_ended r.to_tcp && is_ws_ended r.to_ws

  record Resumed (event : Event) (r r' : Pumps) : Type 0 where
    written : r'.written ≡ r.written ++ received_by event
    passed : r'.delivered ++ unsent r'.to_ws ≡ (r.delivered ++ unsent r.to_ws) ++ read_by event
    kept : r.is_closed ≡ is_tcp_ended r.to_tcp → r'.is_closed ≡ is_tcp_ended r'.to_tcp
    ended : (are_ended r || is_wake event) ≡ true → are_ended r' ≡ true

  resume-Resumed :
      (event : Event) (r r' : Pumps)
      → resume encode event r.to_tcp r.to_ws r ≡ some r'
      → Resumed event r r'
  unfolding resume
  resume-Resumed event r r' e = record {
    written = ground (arith, append-nil r.written);
    passed = ground (arith, append-nil (r.delivered ++ unsent r.to_ws), append-nil r.delivered);
    kept = ground arith;
    ended = ground arith;
  }

  -- What the pumps have done with the data of a sequence of events, from `r` to `r'`.
  record Relayed (events : List Event) (r r' : Pumps) : Type 0 where
    written : r'.written ≡ r.written ++ all_received events
    passed : r'.delivered ++ unsent r'.to_ws ≡ (r.delivered ++ unsent r.to_ws) ++ all_read events
    kept : r.is_closed ≡ is_tcp_ended r.to_tcp → r'.is_closed ≡ is_tcp_ended r'.to_tcp
    ended : (are_ended r || is_woken events) ≡ true → are_ended r' ≡ true

  relay-none : (events : List Event) → relay encode events none ≡ none
  unfolding relay
  relay-none [] = refl
  relay-none (event ∷ events) = refl

  Relayed-cons :
      (event : Event) (events : List Event) (r q r' : Pumps)
      → Resumed event r q
      → Relayed events q r'
      → Relayed (event ∷ events) r r'
  unfolding all_received all_read is_woken
  Relayed-cons event events r q r' first rest = record {
    written =
        rest.written
        ∙ ap (λ w. w ++ all_received events) first.written
        ∙ append_assoc r.written (received_by event) (all_received events);
    passed =
        rest.passed
        ∙ ap (λ w. w ++ all_read events) first.passed
        ∙ append_assoc (r.delivered ++ unsent r.to_ws) (read_by event) (all_read events);
    kept = λ same. rest.kept (first.kept same);
    ended = λ woken. ground arith;
  }

  relay-Relayed :
      (events : List Event) (r r' : Pumps)
      → relay encode events (some r) ≡ some r'
      → Relayed events r r'
  unfolding relay all_received all_read is_woken
  relay-Relayed [] r r' e =
      let same : r ≡ r' = cc e in
      subst (Relayed [] r) same (record {
        written = sym (append-nil r.written);
        passed = sym (append-nil (r.delivered ++ unsent r.to_ws));
        kept = λ same. same;
        ended = λ woken. ground arith;
      })
  relay-Relayed (event ∷ events) r r' e =
      elim (Option-cases (resume encode event r.to_tcp r.to_ws r)) [
        | inl stuck ↦
            absurd (cc (sym (relay-none events) ∙ ap (relay encode events) (sym stuck) ∙ e))
        | inr (q, went) ↦
            Relayed-cons event events r q r' (resume-Resumed event r q went)
              (relay-Relayed events q r' (ap (relay encode events) (sym went) ∙ e))
      ]

  -- What the pumps of a connection have done with a sequence of events.
  pub record Passed (events : List Event) (r : Pumps) : Type 0 where
    pub written : r.written ≡ all_received events
    pub passed : r.delivered ++ unsent r.to_ws ≡ all_read events
    pub closed : r.is_closed ≡ is_tcp_ended r.to_tcp
    pub ended : (not (is_woken events) || are_ended r) ≡ true

  -- Whatever the order in which the pumps of a connection go on: what is written to the container is the
  -- data of the messages that came from the server, in their order, each once. What the server has been
  -- sent is the data read from the container, in its order, up to one read whose `send` has not returned.
  -- The connection to the container is closed exactly once its pump has ended; and after the wait, both
  -- pumps have ended.
  pub relay-Passed :
      (events : List Event) (r : Pumps)
      → relay encode events (some opened_pumps) ≡ some r
      → Passed events r
  relay-Passed events r e =
      let relayed = relay-Relayed events opened_pumps r e in
      record {
        written = relayed.written;
        passed = relayed.passed;
        closed = relayed.kept refl;
        ended = ground (arith, relayed.ended);
      }
