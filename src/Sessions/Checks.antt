-- ===== src/Sessions/Checks.antt =====
-- What the calls on the sessions have checked when they succeed.
use dshker_server.Prelude.{
  String, arith, bind_ok, false, get, leb, ok, reject_ok, signal_limit, some, str_iff, ℕ, ◌+◌, ◌<◌,
  ◌=s=◌, ◌||◌, ◌≡◌,
}
use dshker_server.Protocol.Leases.{Lease}
use dshker_server.Protocol.Service.{Service}
use dshker_server.Protocol.Signals.{Codec, Signal, verify_signal}
use dshker_server.Sessions.{Attempt, Sessions, authorize, grant, is_busy, may_begin}
use dshker_server.Sessions.Admission.{admit_sdp, admitted, max_messages, mem, scope_of}
use dshker_server.Store.Pairing.{device}
use dshker_server.Store.Schema.{Db}

pub authorize-get :
    (s : Sessions) (db : Db) (sender pair_id attempt_id : String) (now : ℕ) {a : Attempt}
    → authorize s db sender pair_id attempt_id now ≡ ok a
    → get pair_id s.attempts ≡ some a
unfolding authorize
authorize-get s db sender pair_id attempt_id now h = ground arith

-- What a grant says of its lease.
pub grant_facts :
    (service : Service) (s : Sessions) (db : Db) (attempt_id sender target : String)
    (generation now : ℕ) {l : Lease}
    → grant service s db attempt_id sender target generation now ≡ ok l
    → (l.from_device_id ≡ sender)
      × (l.to_device_id ≡ target)
      × (l.pair_id ≡ target)
      × (is_busy sender target s.attempts ≡ false)
unfolding grant
grant_facts service s db attempt_id sender target generation now h = ground arith

pub may_begin_ne :
    (service : Service) (s : Sessions) (db : Db) (sender target : String) (generation now : ℕ)
    {u : Unit {0}}
    → may_begin service s db sender target generation now ≡ ok u
    → (sender =s= target) ≡ false
unfolding may_begin
may_begin_ne service s db sender target generation now h =
    ground (arith, str_iff sender target, str_iff target sender)

-- A signal changes neither the lease nor, by itself, the number of messages.
admit_sdp_keeps :
    (service : Service) (codec : Codec) (current : Attempt) (sender : String) (signal : Signal)
    {a : Attempt}
    → admit_sdp service codec current sender signal ≡ ok a
    → (a.lease ≡ current.lease) × (a.message_count ≡ current.message_count)
unfolding admit_sdp
admit_sdp_keeps service codec current sender signal h = ground arith

-- An admitted signal replaces the attempt of its pair by one with the same lease and one message more.
pub admitted_facts :
    (service : Service) (codec : Codec) (s : Sessions) (db : Db) (sender : String) (signal : Signal)
    (now : ℕ) {a : Attempt}
    → admitted service codec s db sender signal now ≡ ok a
    → (current : Attempt) × (get signal.pair_id s.attempts ≡ some current)
      × (a.lease ≡ current.lease)
      × (a.message_count ≡ current.message_count + 1)
      × (current.message_count < 512)
unfolding admitted
admitted_facts service codec s db sender signal now {a} h =
    let (current, there, h₁) =
      bind_ok (authorize s db sender signal.pair_id signal.attempt_id now) _ h in
    let (d, _, h₂) = bind_ok (device db sender) _ h₁ in
    let (_, _, h₃) =
      bind_ok (verify_signal codec service signal d.public_key (scope_of current sender signal) now)
        _ h₂ in
    let (few, h₄) =
      reject_ok
        (mem signal.message_id current.message_ids || leb max_messages current.message_count)
        signal_limit _ h₃ in
    let (described, e, h₅) = bind_ok (admit_sdp service codec current sender signal) _ h₄ in
    let (same, counted) = admit_sdp_keeps service codec current sender signal e in
    (
      current,
      authorize-get s db sender signal.pair_id signal.attempt_id now there,
      ground arith,
      ground arith,
      ground arith,
    )
