-- ===== src/Sessions/Withdrawal.antt =====
-- internal/coordinator/sessions.go: what happens to an attempt when its ends lose their network.
use dshker_server.Prelude.{
  Code, Result-cases, String, any, any_of_found, arith, err, false, find_of_any, find_sound, get,
  inl, inr, ok, some, str_iff, str_refl, true, ℕ, ◌&&◌, ◌<◌, ◌=s=◌, ◌≡◌,
}
use dshker_server.Protocol.Ids.{unix}
use dshker_server.Protocol.Service.{Service}
use dshker_server.Protocol.Signals.{Codec, Signal}
use dshker_server.Sessions.{Attempt, Sessions, authorize, extend, renew}
use dshker_server.Sessions.Admission.{admit, admitted}
use dshker_server.Store.PairActions.{same_network, shared}
use dshker_server.Store.Pairing.{Device, device}
use dshker_server.Store.Schema.{BindingRow, Db}

-- A device with an active binding anywhere shares a network with itself.
same_network_self :
    (db : Db) (d : String)
    → any (λ (b : BindingRow). b.device_id =s= d && b.active) db.bindings ≡ true
    → same_network db d d ≡ true
unfolding same_network
same_network_self db d h =
    let (x, e) = find_of_any (λ (b : BindingRow). b.device_id =s= d && b.active) db.bindings h in
    let on = find_sound (λ (b : BindingRow). b.device_id =s= d && b.active) db.bindings e in
    any_of_found _ (shared db d d) db.bindings e (
      ground (
        arith,
        any_of_found _ (λ y. y.network_id =s= x.network_id && y.device_id =s= d && y.active)
            db.bindings {x = x} e,
        str_refl x.network_id,
      ))

authorize-apart :
    (s : Sessions) (db : Db) (sender pair_id attempt_id : String) (now : ℕ)
    → same_network db sender pair_id ≡ false
    → (c : Code) × (authorize s db sender pair_id attempt_id now ≡ err c)
unfolding authorize
authorize-apart s db sender pair_id attempt_id now apart =
    elim (Result-cases (authorize s db sender pair_id attempt_id now)) [
      | inl (c, e) ↦ (c, e)
      | inr (a, e) ↦ absurd (ground arith)
    ]

admitted-apart :
    (service : Service) (codec : Codec) (s : Sessions) (db : Db) (sender : String) (signal : Signal)
    (now : ℕ)
    → same_network db sender signal.pair_id ≡ false
    → (c : Code) × (admitted service codec s db sender signal now ≡ err c)
unfolding admitted
admitted-apart service codec s db sender signal now apart =
    let (c, e) = authorize-apart s db sender signal.pair_id signal.attempt_id now apart in (c, rw e)

-- A caller that shares no network with the device whose identifier names the attempt is refused,
-- its renewals and its signals alike, and the sessions stay as they were.
pub initiator-withdrawn :
    (service : Service) (codec : Codec) (sender pair_id attempt_id : String) (signal : Signal)
    (now : ℕ) (db : Db) (s : Sessions)
    → same_network db sender pair_id ≡ false
    → signal.pair_id ≡ pair_id
    → ((c : Code) × (renew service sender pair_id attempt_id now db s ≡ (err c, s)))
      × ((c : Code) × (admit service codec sender signal now db s ≡ (err c, s)))
unfolding renew admit
initiator-withdrawn service codec sender pair_id attempt_id signal now db s apart pair =
    let (c, e) = authorize-apart s db sender pair_id attempt_id now apart in
    let (d, f) = admitted-apart service codec s db sender signal now (rw pair apart) in
    ((c, rw (e, renew)), (d, rw (f, admit)))

-- The target of an attempt is not held to that: where the attempt is its own, has not expired and
-- both devices are live, the target renews the lease as long as it has an active binding to any
-- network, though it shares none with the initiator.
pub target-not_withdrawn :
    (service : Service) (pair_id attempt_id : String) (now : ℕ) (db : Db) (s : Sessions)
    (current : Attempt) (from to : Device)
    → get pair_id s.attempts ≡ some current
    → current.lease.attempt_id ≡ attempt_id
    → unix now < current.lease.expires_at
    → device db current.lease.from_device_id ≡ ok from
    → device db current.lease.to_device_id ≡ ok to
    → any (λ (b : BindingRow). b.device_id =s= pair_id && b.active) db.bindings ≡ true
    → same_network db current.lease.from_device_id pair_id ≡ false
    → (renew service pair_id pair_id attempt_id now db s).0 ≡ ok (extend service now current.lease)
unfolding renew authorize
target-not_withdrawn service pair_id attempt_id now db s current from to there mine fresh f t bound
      apart =
    ground (arith, same_network_self db pair_id bound, str_iff current.lease.attempt_id attempt_id)
