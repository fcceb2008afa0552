-- ===== src/Api/Notice.antt =====
-- internal/coordinator/signaling.go, `notifyPair`: both ends of a pair hear of its end.
pub mod Ends
use dshker_server.Api.Hub.{Hub, send}
use dshker_server.Prelude.{List, Option, Result, String, [], err, get, none, ok, some, ◌++◌, ◌∷◌}
use dshker_server.Protocol.Ids.{second}
use dshker_server.Store.Schema.{PairRow}

-- `CloseNow` of a device's connection, if it has one.
abbrev pub closed : String → Option (List String) → List String
closed id none = []
closed id (some queue) = id ∷ []

abbrev pub noticed : String → Hub → Result Hub → List String × Hub
noticed id hub (ok hub') = ([], hub')
noticed id hub (err _) = (closed id (get id hub), hub)

abbrev pub notice : String → String → Hub → List String × Hub
notice id message hub = noticed id hub (send id message hub)

-- The devices whose connections are closed, and the queues.
unfoldable pub notify_pair : PairRow → String → Hub → List String × Hub
notify_pair pair message hub =
    let first = notice pair.initiator message hub in
    let second = notice pair.target message first.1 in (first.0 ++ second.0, second.1)
