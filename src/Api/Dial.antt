-- ===== src/Api/Dial.antt =====
-- internal/coordinator/server.go, `/v1/attempt`: an attempt begins only if its target hears of it.
pub mod Attempts
use dshker_server.Api.Hub.{Hub, send}
use dshker_server.Prelude.{Result, String, err, ok, ℕ}
use dshker_server.Protocol.Leases.{Lease}
use dshker_server.Protocol.Service.{Service}
use dshker_server.Sessions.{Sessions, begin, end_attempt}
use dshker_server.Store.Schema.{Db}

module _ (service : Service) (encode : Lease → String) where
  -- After a message that cannot be sent the attempt is ended again.
  abbrev pub announce : String → Lease → Sessions → Hub → Result Hub → Result Lease × Sessions × Hub
  announce sender lease s hub (ok hub') = (ok lease, s, hub')
  announce sender lease s hub (err c) =
      (err c, (end_attempt sender lease.pair_id lease.attempt_id s).1, hub)

  abbrev pub dial_begun : String → Result Lease → Sessions → Hub → Result Lease × Sessions × Hub
  dial_begun sender (err c) s hub = (err c, s, hub)
  dial_begun sender (ok lease) s hub =
      announce sender lease s hub (send lease.to_device_id (encode lease) hub)

  -- Each of the calls holds a mutex of its own; here no other call comes between them.
  unfoldable pub dial :
      String → String → String → ℕ → ℕ → Db → Sessions → Hub → Result Lease × Sessions × Hub
  dial attempt_id sender target generation now db s hub =
      let begun = begin service attempt_id sender target generation now db s in
      dial_begun sender begun.0 begun.1 hub
