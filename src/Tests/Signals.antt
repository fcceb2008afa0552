-- ===== src/Tests/Signals.antt =====
-- Signals, withdrawal and runs of the calls of sessions.go at concrete inputs.
use dshker_server.Api.Channel.{Outcome, delivered, read_signal}
use dshker_server.Api.Channel.Delivery.{read_signal-delivers}
use dshker_server.Api.Hub.{Hub, send}
use dshker_server.Prelude.{
  Code, List, String, [], arith, err, false, get, none, ok, refl, some, true, ℕ, ◌++◌, ◌+◌, ◌<◌,
  ◌=s=◌, ◌∷◌, ◌≡◌, ◌≤◌,
}
use dshker_server.Prelude.Text.{codes, itoa}
use dshker_server.Protocol.Ids.{Bytes, minute, second, unix, valid_id}
use dshker_server.Protocol.Json.{decode, members, opens, shuts, unique_value, word}
use dshker_server.Protocol.Signals.{
  Codec, Signal, signal_fields, signal_kind, validate_payload, verify_signal,
}
use dshker_server.Sessions.{Attempt, Sessions, authorize, new_sessions, renew}
use dshker_server.Sessions.Admission.{admit, admit_sdp, admitted, count_of, other_end}
use dshker_server.Sessions.Links.{
  SessionCall, admits, begins, heartbeats, renews, session_run, session_run-IsOrderly,
}
use dshker_server.Sessions.Orderly.{IsOrderly, new-IsOrderly}
use dshker_server.Sessions.Signalling.{admit-authentic, admit-once}
use dshker_server.Sessions.Withdrawal.{initiator-withdrawn, target-not_withdrawn}
use dshker_server.Store.PairActions.{same_network}
use dshker_server.Store.Pairing.{Device, device}
use dshker_server.Store.Schema.{Db, user_enabled}
use dshker_server.Tests.Connections.{a_user, attempt, attempt_id, connected, renewed_lease, silent}
use dshker_server.Tests.Toy.{bound, first_id, home, house, noon, second_id, toy}

-- A codec that reads `{"sdp":"v=0"}` in any payload.
abbrev pub codec : Codec
codec = record {
  decode_base64 = λ payload. some (codes payload);
  tokens = λ body. opens true ∷ word "sdp" ∷ word "v=0" ∷ shuts ∷ [];
  fields = λ body. some ("sdp" ∷ []);
  parse_sdp = λ body. some "v=0";
  parse_candidate = λ body. none;
}

abbrev unsigned_offer : Signal
unsigned_offer = record {
  version = 1;
  kind = "offer";
  message_id = "c00000000000";
  attempt_id = attempt_id;
  generation = 7;
  from_device_id = first_id;
  to_device_id = second_id;
  pair_id = second_id;
  sequence = 1;
  expires_at = unix noon + 30;
  payload = "dj0w";
  signature = "";
}

abbrev the_offer : Signal
the_offer = record unsigned_offer { signature = toy.sign (signal_fields unsigned_offer) }

admit_runs : (admit toy codec first_id the_offer noon house connected).0 ≡ ok tt
unfolding admit admitted authorize same_network device user_enabled verify_signal valid_id
    validate_payload signal_kind admit_sdp signal_fields itoa decode unique_value members
admit_runs = refl

admit-authentic_example :
    (current : Attempt) × (d : Device) × (get second_id connected.attempts ≡ some current)
    × (device house first_id ≡ ok d)
    × (toy.verify d.public_key (signal_fields the_offer) the_offer.signature ≡ true)
    × (first_id ≡ first_id)
    × (second_id ≡ other_end first_id current.lease)
    × (1 ≡ count_of first_id current.sequence + 1)
    × (unix noon < the_offer.expires_at)
    × (the_offer.expires_at ≤ unix (noon + minute))
admit-authentic_example =
    admit-authentic toy codec first_id the_offer noon house connected admit_runs

admit-once_example : ¬ (
    (admit toy codec first_id the_offer
      (noon + second)
      house
      (admit toy codec first_id the_offer noon house connected).1).0
    ≡ ok tt)
admit-once_example =
    admit-once toy codec first_id first_id the_offer the_offer noon (noon + second) house house
      connected admit_runs refl refl

-- The first device is no longer bound to the second's network.
abbrev apart : Db
apart = record house {
  bindings =
      record { network_id = home; device_id = first_id; active = false }
      ∷ bound home second_id
      ∷ [];
}

apart_runs : same_network apart first_id second_id ≡ false
unfolding same_network
apart_runs = refl

initiator-withdrawn_example :
    ((c : Code) × (renew toy first_id second_id attempt_id noon apart connected
        ≡ (err c, connected)))
    × ((c : Code) × (admit toy codec first_id the_offer noon apart connected ≡ (err c, connected)))
initiator-withdrawn_example =
    initiator-withdrawn toy codec first_id second_id attempt_id the_offer noon apart connected
      apart_runs refl

abbrev device_of : String → Bytes → Device
device_of id key = record {
  id = id;
  user_id = a_user;
  public_key = key;
  name = "box";
  certificate = [];
}

devices_run :
    (device apart first_id ≡ ok (device_of first_id (1 ∷ [])))
    × (device apart second_id ≡ ok (device_of second_id (2 ∷ [])))
unfolding device user_enabled
devices_run = (refl, refl)

target-not_withdrawn_example :
    (renew toy second_id second_id attempt_id (noon + second) apart connected).0 ≡ ok renewed_lease
target-not_withdrawn_example =
    target-not_withdrawn toy second_id attempt_id (noon + second) apart connected attempt
      (device_of first_id (1 ∷ [])) (device_of second_id (2 ∷ [])) refl refl (omega arith)
      devices_run.0 devices_run.1 refl apart_runs

-- Begin, renew, admit, end.
abbrev conversation : List (Db × ℕ × SessionCall)
conversation =
    (house, noon, heartbeats first_id a_user silent)
    ∷ (house, noon, heartbeats second_id a_user silent)
    ∷ (house, noon, begins attempt_id first_id second_id 7)
    ∷ (house, noon, admits first_id the_offer)
    ∷ (house, noon + second, renews second_id second_id attempt_id)
    ∷ (house, noon + second, begins "d11111111111" second_id first_id 7)
    ∷ []

session_run-IsOrderly_example : IsOrderly (session_run toy codec new_sessions conversation)
session_run-IsOrderly_example =
    session_run-IsOrderly toy codec new_sessions conversation new-IsOrderly

-- The connections, with an offer before `the_offer` in the queue of the target.
abbrev waiting : Hub
waiting = (first_id, []) ∷ (second_id, "earlier" ∷ []) ∷ []

abbrev encode_signal : Signal → String
encode_signal signal = signal.message_id

abbrev after_offer : Outcome × Sessions × Hub
after_offer =
    read_signal toy codec encode_signal first_id (some the_offer) noon house connected waiting

read_signal_runs : after_offer ≡ (delivered, after_offer.1, after_offer.2)
unfolding read_signal admit admitted authorize same_network device user_enabled verify_signal
    valid_id validate_payload signal_kind admit_sdp signal_fields itoa decode unique_value members
    send
read_signal_runs = refl

read_signal-delivers_example :
    (current : Attempt) × (d : Device) × (queue : List String) × (get second_id connected.attempts
      ≡ some current)
    × (device house first_id ≡ ok d)
    × (toy.verify d.public_key (signal_fields the_offer) the_offer.signature ≡ true)
    × (get (other_end first_id current.lease) waiting ≡ some queue)
    × (get (other_end first_id current.lease) after_offer.2
        ≡ some (queue ++ encode_signal the_offer ∷ []))
    × ((other : String)
        → (other_end first_id current.lease =s= other) ≡ false
        → get other after_offer.2 ≡ get other waiting)
read_signal-delivers_example =
    read_signal-delivers toy codec encode_signal first_id the_offer noon house connected
      after_offer.1 waiting after_offer.2 read_signal_runs
