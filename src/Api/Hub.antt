-- ===== src/Api/Hub.antt =====
-- internal/coordinator/signaling.go: the hub, which queues messages for the connected devices.
pub mod Queues
use Prim.Native.String.{len}
use dshker_server.Prelude.{
  List, Map, Option, Result, String, [], device_busy, err, get, if◌then◌else◌, is_some, leb, length,
  ltb, none, ok, peer_offline, protocol_limit, put, reject, remove, signal_limit, some, ℕ, ◌++◌,
  ◌>>=◌, ◌>>◌, ◌∷◌,
}
use dshker_server.Protocol.Json.{max_control_bytes}
use dshker_server.Sessions.{Sessions, go_offline}
use dshker_server.Store.History.Lifecycle.{then}

-- The queue of each connected device, its oldest message first.
abbrev pub Hub : Type 0
Hub = Map (List String)

abbrev pub queue_size : ℕ
queue_size = 32

-- `serveSignals`, up to the entry of the new connection.
unfoldable pub connect : String → Hub → Result Hub
connect id hub = do reject (is_some (get id hub)) device_busy; ok (put id [] hub)

-- What becomes of a message for a device with this queue.
abbrev pub enqueue : String → Option (List String) → Result (List String)
enqueue message none = err peer_offline
enqueue message (some queue) =
    if leb queue_size (length queue) then err signal_limit else ok (queue ++ message ∷ [])

-- `send`: the message is the marshalled value.
unfoldable pub send : String → String → Hub → Result Hub
send id message hub = do
  reject (ltb max_control_bytes (len message)) protocol_limit
  queue ← enqueue message (get id hub)
  ok (put id queue hub)

-- The writer takes the oldest message off the channel.
abbrev pub oldest : Option (List String) → Option (String × List String)
oldest none = none
oldest (some []) = none
oldest (some (m ∷ queue)) = some (m, queue)

abbrev pub taken : String → Hub → Option (String × List String) → Option String × Hub
taken id hub none = (none, hub)
taken id hub (some (m, queue)) = (some m, put id queue hub)

unfoldable pub receive : String → Hub → Option String × Hub
receive id hub = taken id hub (oldest (get id hub))

-- The deferred end of `serveSignals`, which also forgets the presence of every account.
unfoldable pub disconnect : String → Hub → Sessions → Hub × Sessions
disconnect id hub s = (remove id hub, go_offline id "" s)
