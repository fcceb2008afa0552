-- ===== src/Tests/Histories.antt =====
-- The invariants of the store on a history that founds a network, fills it and takes it down.
use dshker_server.Prelude.{List, [], arith, commit, inr, length, refl, some, ℕ, ◌+◌, ◌∷◌, ◌≡◌}
use dshker_server.Protocol.Ids.{minute, unix, valid_id, valid_name}
use dshker_server.Store.Bindings.{bind_row}
use dshker_server.Store.Enrollment.{join_network, join_owner, upsert_device}
use dshker_server.Store.History.{
  Call, acts_on_pair, adopts_network, creates_network, creates_user, empty_db, joins_network, run,
  step,
}
use dshker_server.Store.History.Bounds.{IsBounded}
use dshker_server.Store.History.Capacity.{empty-IsBounded, reachable-IsBounded, step-IsBounded}
use dshker_server.Store.History.Exclusive.{IsExclusive, last_time, run-IsExclusive}
use dshker_server.Store.History.Lifecycle.{IsClosed, pair_at, run-IsClosed}
use dshker_server.Store.Networks.{active_binding_count, binding_fits_capacity, create_network}
use dshker_server.Store.Schema.{Db, PairRow, revoked, user_enabled}
use dshker_server.Store.Users.{create_user, email_matches}
use dshker_server.Tests.Toy.{first_id, home, house, noon, second_id, toy}

abbrev founding : List (ℕ × Call)
founding =
    (noon, creates_user "a00000000000" "ann@example.org" "correct horse")
    ∷ (noon, creates_network "b00000000000" "a00000000000" "home")
    ∷ (
      noon,
      joins_network (record {
        request_id = "e30000000000";
        network_id = "b00000000000";
        csr = "csr-3";
        name = "box";
      }),
    )
    ∷ []

-- The history makes one network with one active device.
founding_runs :
    (length (run toy empty_db founding).networks ≡ 1)
    × (active_binding_count (run toy empty_db founding) "b00000000000" ≡ 1)
unfolding run step commit active_binding_count create_user email_matches create_network join_network
    valid_id valid_name join_owner user_enabled binding_fits_capacity upsert_device bind_row
founding_runs = (refl, refl)

reachable-IsBounded_example : IsBounded (run toy empty_db founding)
reachable-IsBounded_example = reachable-IsBounded toy founding

step-IsBounded_example :
    IsBounded (step toy empty_db (noon, creates_network "b00000000000" "a00000000000" "home"))
step-IsBounded_example =
    step-IsBounded toy empty_db (noon, creates_network "b00000000000" "a00000000000" "home")
      empty-IsBounded

-- A device adopts its network, and the pair that comes of it is revoked.
abbrev meeting : List (ℕ × Call)
meeting =
    (noon, adopts_network (λ n. "f00000000000") "111111111111")
    ∷ (noon + minute, acts_on_pair "222222222222" "f00000000000" "revoke" "")
    ∷ []

house-IsExclusive : IsExclusive (unix noon) house
house-IsExclusive = record { one_live = λ n a b. omega arith }

run-IsExclusive_example : IsExclusive (unix (last_time noon meeting)) (run toy house meeting)
run-IsExclusive_example =
    run-IsExclusive toy house noon meeting (omega arith, (omega arith, tt)) house-IsExclusive

-- The first device's pair with the second, once it is revoked.
abbrev parted : PairRow
parted = record {
  id = "f00000000000";
  network_id = home;
  initiator = first_id;
  target = second_id;
  state = revoked;
  expires = unix noon + 300;
  revision = 2;
}

abbrev parted_house : Db
parted_house = record house { pairs = parted ∷ [] }

run-IsClosed_example :
    (q : PairRow) × (pair_at 0 (run toy parted_house meeting).pairs ≡ some q)
    × (q.id ≡ "f00000000000")
    × (q.network_id ≡ home)
    × (q.initiator ≡ first_id)
    × (q.target ≡ second_id)
    × IsClosed q.state
run-IsClosed_example = run-IsClosed toy parted_house meeting 0 parted refl (inr refl)

abbrev adopting : Call
adopting = adopts_network (λ n. "f00000000000") "111111111111"
