-- ===== src/Api/Channel/Delivery.antt =====
-- internal/coordinator/signaling.go: where a delivered signal has gone.
use dshker_server.Api.Channel.{
  delivered, forward, forward_admitted, read_signal, rejected_signal, unavailable,
}
use dshker_server.Api.Hub.{Hub, send}
use dshker_server.Api.Hub.Queues.{send_ok}
use dshker_server.Prelude.{
  List, Result, String, [], ap, arith, err, false, get, get-remove, ok, refl, some, str_refl, true,
  ℕ, ◌++◌, ◌=s=◌, ◌∙◌, ◌∷◌, ◌≡◌,
}
use dshker_server.Protocol.Service.{Service}
use dshker_server.Protocol.Signals.{Codec, Signal, signal_fields}
use dshker_server.Sessions.{Act, Attempt, Sessions}
use dshker_server.Sessions.Admission.{admit, other_end}
use dshker_server.Sessions.Signalling.{admit-authentic}
use dshker_server.Store.Pairing.{Device, device}
use dshker_server.Store.Schema.{Db}

module _ (service : Service) (codec : Codec) (encode : Signal → String) where
  forward_delivered :
      (signal : Signal) (s s' : Sessions) (hub hub' : Hub) (r : Result Hub)
      → forward service codec encode signal s hub r ≡ (delivered, s', hub')
      → r ≡ ok hub'
  forward_delivered signal s s' hub hub' (ok sent) h = ap (λ r. ok r.2) h
  forward_delivered signal s s' hub hub' (err c) h =
      absurd (unavailable_ne_delivered (ap (λ r. r.0) h))
    where
      unavailable_ne_delivered : ¬ (unavailable ≡ delivered)
      unavailable_ne_delivered e = cc

  admitted_delivered :
      (signal : Signal) (r : Act Sessions (Unit {0})) (s' : Sessions) (hub hub' : Hub)
      → forward_admitted service codec encode signal r hub ≡ (delivered, s', hub')
      → (r.0 ≡ ok tt) × (send signal.to_device_id (encode signal) hub ≡ ok hub')
  admitted_delivered signal (err c, s) s' hub hub' h =
      absurd (rejected_ne_delivered (ap (λ r. r.0) h))
    where
      rejected_ne_delivered : ¬ (rejected_signal ≡ delivered)
      rejected_ne_delivered e = cc
  admitted_delivered signal (ok u, s) s' hub hub' h = (
    refl,
    forward_delivered signal s s' hub hub' (send signal.to_device_id (encode signal) hub) h,
  )

  -- A signal that is delivered carries its sender's signature and stands at the end of the queue
  -- of the other end of the attempt's lease; the other queues are as they were.
  pub read_signal-delivers :
      (sender : String) (signal : Signal) (now : ℕ) (db : Db) (s s' : Sessions) (hub hub' : Hub)
      → read_signal service codec encode sender (some signal) now db s hub ≡ (delivered, s', hub')
      → (current : Attempt) × (d : Device) × (queue : List String) × (get signal.pair_id s.attempts
          ≡ some current)
        × (device db sender ≡ ok d)
        × (service.verify d.public_key (signal_fields signal) signal.signature ≡ true)
        × (get (other_end sender current.lease) hub ≡ some queue)
        × (get (other_end sender current.lease) hub' ≡ some (queue ++ encode signal ∷ []))
        × ((other : String)
            → (other_end sender current.lease =s= other) ≡ false
            → get other hub' ≡ get other hub)
  unfolding read_signal
  read_signal-delivers sender signal now db s s' hub hub' h =
      let (accepted, sent) =
        admitted_delivered signal (admit service codec sender signal now db s) s' hub hub' h in
      let (current, d, there, known, signed, _, to, _, _, _) =
        admit-authentic service codec sender signal now db s accepted in
      let (queue, waiting, _, wrote) = send_ok signal.to_device_id (encode signal) hub hub' sent in
      (
        current,
        d,
        queue,
        there,
        known,
        signed,
        rw (← to) waiting,
        rw (wrote, ← to) (ground (arith, str_refl signal.to_device_id)),
        λ other ne.
            let apart : (signal.to_device_id =s= other) ≡ false = ap (λ t. t =s= other) to ∙ ne in
            ap (get other) wrote ∙ ground (arith, get-remove signal.to_device_id other hub, apart),
      )
