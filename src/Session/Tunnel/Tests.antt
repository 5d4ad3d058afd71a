-- ===== src/Session/Tunnel/Tests.antt =====
-- A connection on which both sides speak, and whose container goes away while a message is written.
use computecloud_node.Prelude.{ℕ, ◌≡◌, refl, true, false, some, none, List, [], ◌∷◌}
use computecloud_node.Python.{Result, ok, codes}
use computecloud_node.Python.Text.{starts_with}
use computecloud_node.Session.Tunnel.{
  ws_full_url, text, bytes, Pumps, tcp_ended, ws_ended, Event, recv, drained, read, sent, wake,
  opened_pumps, relay, tunnel_loop, failed, relayed, container_refused, gone,
}
use computecloud_node.Session.Tunnel.Relay.{Passed, relay-Passed}

abbrev encode : List ℕ → Result (List ℕ)
encode s = ok s

-- The second `send` has not returned when the container closes its side while a message is drained.
abbrev events : List Event
events =
    read (some (1 ∷ 2 ∷ []))
    ∷ recv (some (text (7 ∷ [])))
    ∷ sent true
    ∷ drained true
    ∷ read (some (3 ∷ []))
    ∷ recv (some (bytes (8 ∷ 9 ∷ [])))
    ∷ drained false
    ∷ wake
    ∷ []

abbrev ended : Pumps
ended = record {
  to_tcp = tcp_ended;
  to_ws = ws_ended (3 ∷ []);
  written = 7 ∷ 8 ∷ 9 ∷ [];
  delivered = 1 ∷ 2 ∷ [];
  is_closed = true;
}

relays : relay encode events (some opened_pumps) ≡ some ended
unfolding relay
relays = refl

-- No pump waits for a `drain` at the start.
waits_for_nothing : relay encode (drained true ∷ []) (some opened_pumps) ≡ none
unfolding relay
waits_for_nothing = refl

relay-Passed_example : Passed encode events ended
relay-Passed_example = relay-Passed encode events ended relays

address :
    ws_full_url (codes "https://pool/") (codes "n") (codes "s") (codes "t")
    ≡ codes "wss://pool/api/v1/node/n/tunnel/s?token=t"
unfolding ws_full_url starts_with
address = refl

plain_address :
    ws_full_url (codes "pool") (codes "n") (codes "s") [] ≡ codes "ws://pool/api/v1/node/n/tunnel/s"
unfolding ws_full_url starts_with
plain_address = refl

-- One connection that the container refuses ends the tunnel, though the stop event is not set.
refused :
    tunnel_loop
      ((false, relayed, false) ∷ (false, failed, false) ∷ (false, container_refused, false) ∷ [])
      0
    ≡ (gone, 1)
unfolding tunnel_loop
refused = refl
