-- ===== src/Api/Channel.antt =====
-- internal/coordinator/signaling.go, `readSignals`: what becomes of a message of a device.
pub mod Delivery
use dshker_server.Api.Hub.{Hub, send}
use dshker_server.Prelude.{Option, Result, String, err, none, ok, some, ℕ}
use dshker_server.Protocol.Service.{Service}
use dshker_server.Protocol.Signals.{Codec, Signal}
use dshker_server.Sessions.{Act, Sessions}
use dshker_server.Sessions.Admission.{admit}
use dshker_server.Store.Schema.{Db}

-- The loop goes on after `delivered`; after the others it closes the connection.
pub data Outcome : Type 0 where
  delivered rejected_signal unavailable : Outcome

module _ (service : Service) (codec : Codec) (encode : Signal → String) where
  abbrev pub forward : Signal → Sessions → Hub → Result Hub → Outcome × Sessions × Hub
  forward signal s hub (ok hub') = (delivered, s, hub')
  forward signal s hub (err _) = (unavailable, s, hub)

  abbrev pub forward_admitted : Signal → Act Sessions (Unit {0}) → Hub → Outcome × Sessions × Hub
  forward_admitted signal (err _, s) hub = (rejected_signal, s, hub)
  forward_admitted signal (ok _, s) hub =
      forward signal s hub (send signal.to_device_id (encode signal) hub)

  -- One message: `read` is what `Decode` makes of it, `none` also for one that is not text.
  unfoldable pub read_signal :
      String → Option Signal → ℕ → Db → Sessions → Hub → Outcome × Sessions × Hub
  read_signal sender none now db s hub = (rejected_signal, s, hub)
  read_signal sender (some signal) now db s hub =
      forward_admitted signal (admit service codec sender signal now db s) hub
