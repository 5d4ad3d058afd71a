-- ===== src/Session/Tunnel.antt =====
-- `_run_tunnel` of src/computecloud_node/node.py: the address of the tunnel, the two pumps of a connection,
-- and the loop that connects again. What an `await` gives is an event; the order of events is the order
-- in which the event loop goes on with the pumps. Texts are lists of code points, and data lists of bytes.
pub mod Relay
mod Tests
use computecloud_node.Prelude.{
  ℕ, suc, Bool, true, false, Option, none, some, List, [], ◌∷◌, ◌++◌, drop, ◌||◌, ◌==◌,
  if◌then◌else◌,
}
use computecloud_node.Python.{Result, ok, raise, codes}
use computecloud_node.Python.Text.{starts_with}

-- `s.rstrip("/")`
unfoldable pub without_slashes : List ℕ → List ℕ
without_slashes [] = []
without_slashes (c ∷ s) = elim (without_slashes s) [
  | [] ↦ if c == b'/' then [] else c ∷ []
  | d ∷ t ↦ c ∷ d ∷ t
]

-- The address of the WebSocket for `base_url` without its slashes at the end.
unfoldable pub ws_url : List ℕ → List ℕ
unfolding starts_with
ws_url base_url =
    if starts_with base_url (codes "https://")
    then codes "wss://" ++ drop 8 base_url
    else if starts_with base_url (codes "http://")
    then codes "ws://" ++ drop 7 base_url
    else codes "ws://" ++ base_url

abbrev pub token_query : List ℕ → List ℕ
token_query [] = []
token_query (c ∷ s) = codes "?token=" ++ c ∷ s

-- `ws_full_url`
unfoldable pub ws_full_url : List ℕ → List ℕ → List ℕ → List ℕ → List ℕ
unfolding ws_url without_slashes
ws_full_url base_url node_id session_id tunnel_token =
    ws_url (without_slashes base_url)
    ++ codes "/api/v1/node/"
    ++ node_id
    ++ codes "/tunnel/"
    ++ session_id
    ++ token_query tunnel_token

-- A message of the server.
pub data Message : Type 0 where
  text bytes : List ℕ → Message

-- Where `ws_to_tcp` stands: at its `recv`, at its `drain`, or at its end.
pub data ToTcp : Type 0 where
  receiving draining tcp_ended : ToTcp

-- Where `tcp_to_ws` stands: at its `read`, at its `send`, or at its end, with the data of a `send` that
-- has not returned.
pub data ToWs : Type 0 where
  reading : ToWs
  sending ws_ended : List ℕ → ToWs

-- The pumps of a connection: the data written to the container, the data that `ws.send` has taken, and
-- whether `writer.close()` was called.
pub record Pumps : Type 0 where
  pub to_tcp : ToTcp
  pub to_ws : ToWs
  pub written : List ℕ
  pub delivered : List ℕ
  pub is_closed : Bool

-- What comes next: an `await` of a pump that gives a value or raises (`none`, and false), or the end of
-- `asyncio.wait` after a pump has ended.
pub data Event : Type 0 where
  recv : Option Message → Event
  drained : Bool → Event
  read : Option (List ℕ) → Event
  sent : Bool → Event
  wake : Event

abbrev pub opened_pumps : Pumps
opened_pumps = record {
  to_tcp = receiving;
  to_ws = reading;
  written = [];
  delivered = [];
  is_closed = false;
}

-- The `finally` of `ws_to_tcp`.
abbrev pub end_tcp : Pumps → Pumps
end_tcp r = record r { to_tcp = tcp_ended; is_closed = true }

abbrev pub is_tcp_ended : ToTcp → Bool
is_tcp_ended receiving = false
is_tcp_ended draining = false
is_tcp_ended tcp_ended = true

abbrev pub is_ws_ended : ToWs → Bool
is_ws_ended reading = false
is_ws_ended (sending chunk) = false
is_ws_ended (ws_ended chunk) = true

-- The data that was read, and not sent.
abbrev pub unsent : ToWs → List ℕ
unsent reading = []
unsent (sending chunk) = chunk
unsent (ws_ended chunk) = chunk

-- `t.cancel()` for the pump that goes on.
abbrev pub cancel : Pumps → Pumps
cancel r = end_tcp (record r { to_ws = ws_ended (unsent r.to_ws) })

-- What follows `reader.read(4096)`: no data is the end of the connection.
abbrev pub after_read : Option (List ℕ) → ToWs
after_read none = ws_ended []
after_read (some []) = ws_ended []
after_read (some (b ∷ chunk)) = sending (b ∷ chunk)

-- What follows `ws.send`.
abbrev pub after_send : Bool → List ℕ → Pumps → Pumps
after_send false chunk r = record r { to_ws = ws_ended chunk }
after_send true chunk r = record r { to_ws = reading; delivered = r.delivered ++ chunk }

abbrev pub after_drain : Bool → Pumps → Pumps
after_drain false r = end_tcp r
after_drain true r = record r { to_tcp = receiving }

-- `encode` is `str.encode`.
module _ (encode : List ℕ → Result (List ℕ)) where
  abbrev pub encoded : Message → Result (List ℕ)
  encoded (text s) = encode s
  encoded (bytes chunk) = ok chunk

  abbrev pub write : Result (List ℕ) → Pumps → Pumps
  write (raise exc) r = end_tcp r
  write (ok chunk) r = record r { to_tcp = draining; written = r.written ++ chunk }

  abbrev pub after_recv : Option Message → Pumps → Pumps
  after_recv none r = end_tcp r
  after_recv (some message) r = write (encoded message) r

  -- One event; `none` is an event that no pump waits for.
  unfoldable pub resume : Event → ToTcp → ToWs → Pumps → Option Pumps
  resume (recv message) receiving ws r = some (after_recv message r)
  resume (drained done) draining ws r = some (after_drain done r)
  resume (read chunk) tcp reading r = some (record r { to_ws = after_read chunk })
  resume (sent done) tcp (sending chunk) r = some (after_send done chunk r)
  resume wake tcp ws r = if is_tcp_ended tcp || is_ws_ended ws then some (cancel r) else none
  resume _ _ _ _ = none

  -- The pumps after a sequence of events.
  unfoldable pub relay : List Event → Option Pumps → Option Pumps
  unfolding resume
  relay events none = none
  relay [] (some r) = some r
  relay (event ∷ events) (some r) = relay events (resume event r.to_tcp r.to_ws r)

-- How one attempt to connect goes: the WebSocket or a later call raises, the port of the container takes
-- no connection, or the pumps have ended.
pub data Attempt : Type 0 where
  failed container_refused relayed : Attempt

-- How `_tunnel_async` has gone so far: it has returned since the stop event is set, or since the container
-- is not there, or it goes on.
pub data TunnelEnd : Type 0 where
  stopped gone going_on : TunnelEnd

-- The loop of `_tunnel_async`, over whether the stop event is set before an attempt, how the attempt goes,
-- and whether the event is set after it. With how it has ended there is the number of pauses.
unfoldable pub tunnel_loop : List (Bool × Attempt × Bool) → ℕ → TunnelEnd × ℕ
tunnel_loop [] pauses = (going_on, pauses)
tunnel_loop ((true, attempt, after) ∷ rounds) pauses = (stopped, pauses)
tunnel_loop ((false, container_refused, after) ∷ rounds) pauses = (gone, pauses)
tunnel_loop ((false, relayed, after) ∷ rounds) pauses = tunnel_loop rounds pauses
tunnel_loop ((false, failed, after) ∷ rounds) pauses =
    tunnel_loop rounds (if after then pauses else suc pauses)
