-- ===== src/Tests/Devices.antt =====
-- Enrollments, confirmations and renewals at concrete inputs.
use dshker_server.Prelude.{
  [], arith, false, ok, refl, some, true, update, ◌++◌, ◌+◌, ◌<◌, ◌=s=◌, ◌∷◌, ◌≡◌,
}
use dshker_server.Protocol.Ids.{Bytes, minute, unix, valid_id, valid_name}
use dshker_server.Store.Bindings.{bind_row, binding_owner}
use dshker_server.Store.Certificates.{
  Certificate, Renewal, authenticate, renew_certificate, replace_certificate, set_certificate,
}
use dshker_server.Store.Certificates.Renewals.{renew_certificate-again}
use dshker_server.Store.Enrollment.{Enrollment, consume_token, enroll, token_scope, upsert_device}
use dshker_server.Store.Enrollment.Tokens.{enroll-once}
use dshker_server.Store.Networks.{active_binding_count, binding_fits_capacity, log}
use dshker_server.Store.PairActions.{
  act_on_pair, authorize_pair, get_pair, list_pairs, next_state, pair_action,
}
use dshker_server.Store.PairActions.Rights.{confirm-pinned}
use dshker_server.Store.Pairing.{Device, device}
use dshker_server.Store.Schema.{Db, PairRow, active, approved, user_enabled}
use dshker_server.Tests.Accounts.{secret}
use dshker_server.Tests.Toy.{bound, first_id, home, house, noon, second_id, toy}

-- The third device enrolls with a token.
abbrev tokened : Db
tokened = record house {
  tokens =
      record {
        hash = secret;
        user_id = "a00000000000";
        network_id = home;
        expires = unix noon + 300;
        used = false;
      }
      ∷ [];
}

abbrev request : Enrollment
request = record { request_id = "e30000000000"; token = secret; csr = "csr-3"; name = "box" }

abbrev newcomer : Device
newcomer = record {
  id = "333333333333";
  user_id = "a00000000000";
  public_key = 3 ∷ [];
  name = "box";
  certificate = noon ∷ [];
}

abbrev grown : Db
grown = log "enrolled" "333333333333" (unix noon) (record house {
  tokens =
      record {
        hash = secret;
        user_id = "a00000000000";
        network_id = home;
        expires = unix noon + 300;
        used = true;
      }
      ∷ [];
  devices =
      house.devices
      ++ record {
        id = "333333333333";
        user_id = "a00000000000";
        public_key = 3 ∷ [];
        name = "box";
        certificate = noon ∷ [];
        revoked = false;
        request_id = "e30000000000";
        last_seen = 0;
        version = "";
        platform = "";
        architecture = "";
      }
        ∷ [];
  device_users =
      house.device_users ++ record { device_id = "333333333333"; user_id = "a00000000000" } ∷ [];
  bindings = house.bindings ++ bound home "333333333333" ∷ [];
})

enroll_runs : enroll toy request noon tokened ≡ ok (newcomer, grown)
unfolding enroll valid_id valid_name token_scope user_enabled binding_fits_capacity
    active_binding_count consume_token upsert_device bind_row
enroll_runs = refl

enroll-once_example : ¬ (enroll toy request (noon + minute) grown ≡ ok (newcomer, grown))
enroll-once_example =
    enroll-once toy request request noon (noon + minute) tokened grown newcomer (newcomer, grown)
      enroll_runs refl (omega arith)

-- An approved pair is confirmed with the fingerprint of its target.
abbrev approved_pair : PairRow
approved_pair = record {
  id = "f00000000000";
  network_id = home;
  initiator = first_id;
  target = second_id;
  state = approved;
  expires = unix noon + 300;
  revision = 2;
}

abbrev active_pair : PairRow
active_pair = record approved_pair { state = active; revision = 3 }

abbrev courting : Db
courting = record house { pairs = approved_pair ∷ [] }

abbrev joined : Db
joined = record house { pairs = active_pair ∷ [] }

confirm_runs :
    act_on_pair toy first_id "f00000000000" "confirm" second_id noon courting
    ≡ ok (active_pair, joined)
unfolding act_on_pair get_pair list_pairs device user_enabled authorize_pair binding_owner
    pair_action next_state
confirm_runs = refl

confirm-pinned_example :
    (pair : PairRow) × (target : Device) × (get_pair courting first_id "f00000000000" ≡ ok pair)
    × (pair.initiator ≡ first_id)
    × (pair.state ≡ approved)
    × (unix noon < pair.expires)
    × (device courting pair.target ≡ ok target)
    × (second_id ≡ toy.key_id target.public_key)
confirm-pinned_example =
    confirm-pinned toy first_id "f00000000000" second_id noon courting active_pair joined
      confirm_runs

-- The first device renews its certificate, and asks again.
abbrev presented : Certificate
presented = record { common_name = first_id; key = some (1 ∷ []); trusted = true; expires = noon }

abbrev renewal : Renewal
renewal = record { request_id = "e40000000000"; csr = "csr-1" }

abbrev renewed_house : Db
renewed_house = record house {
  renewals =
      record { device_id = first_id; request_id = "e40000000000"; certificate = noon ∷ [] } ∷ [];
  devices = update (λ d. d.id =s= first_id) (set_certificate (noon ∷ [])) house.devices;
}

abbrev first_device : Bytes → Device
first_device certificate = record {
  id = first_id;
  user_id = "a00000000000";
  public_key = 1 ∷ [];
  name = "box";
  certificate = certificate;
}

renew_runs : renew_certificate toy presented renewal noon house ≡ ok (noon ∷ [], renewed_house)
unfolding renew_certificate authenticate device user_enabled valid_id replace_certificate
renew_runs = refl

before_runs : authenticate house (some presented) ≡ ok (first_device [])
unfolding authenticate device user_enabled
before_runs = refl

after_runs : authenticate renewed_house (some presented) ≡ ok (first_device (noon ∷ []))
unfolding authenticate device user_enabled
after_runs = refl

renew_certificate-again_example :
    renew_certificate toy presented renewal (noon + minute) renewed_house
    ≡ ok (noon ∷ [], renewed_house)
renew_certificate-again_example =
    renew_certificate-again toy presented presented renewal noon (noon + minute) house renewed_house
      (noon ∷ []) (first_device []) (first_device (noon ∷ [])) renew_runs before_runs after_runs
      refl refl
