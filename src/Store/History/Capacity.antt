-- ===== src/Store/History/Capacity.antt =====
-- The bounds over a history of calls: two networks to a user, thirty devices to a network.
use dshker_server.Prelude.{List, [], arith, refl, ℕ, ◌∷◌}
use dshker_server.Protocol.Service.{Service}
use dshker_server.Store.History.{Call, empty_db, run, step}
use dshker_server.Store.History.Bindings.{step-BindingMove}
use dshker_server.Store.History.Bounds.{IsBounded, NetworkMove-limits, NetworkMove-two}
use dshker_server.Store.History.Networks.{step-NetworkMove}
use dshker_server.Store.History.Occupancy.{BindingMove-one_row, BindingMove-thirty}
use dshker_server.Store.Networks.{active_binding_count}
use dshker_server.Store.Schema.{Db}

-- Every call keeps the bounds, whether it succeeds or fails.
pub step-IsBounded :
    (service : Service) (db : Db) (c : ℕ × Call) → IsBounded db → IsBounded (step service db c)
step-IsBounded service db (now, c) b =
    let networks = step-NetworkMove service db now c in
    let bindings = step-BindingMove service db now c in
    record {
      two_networks =
          λ u. NetworkMove-two db (step service db (now, c)) networks u (b.two_networks u);
      limits = NetworkMove-limits db (step service db (now, c)) networks b.limits;
      one_row =
          λ n d. BindingMove-one_row db (step service db (now, c)) bindings n d (b.one_row n d);
      thirty = BindingMove-thirty db (step service db (now, c)) bindings b;
    }

-- Every store that calls can reach from a bounded one is bounded.
pub run-IsBounded :
    (service : Service) (db : Db) (cs : List (ℕ × Call))
    → IsBounded db
    → IsBounded (run service db cs)
unfolding run
run-IsBounded service db [] b = b
run-IsBounded service db (c ∷ cs) b =
    run-IsBounded service (step service db c) cs (step-IsBounded service db c b)

-- A fresh store is bounded.
pub empty-IsBounded : IsBounded empty_db
unfolding active_binding_count
empty-IsBounded = record {
  two_networks = λ u. omega arith;
  limits = refl;
  one_row = λ n d. omega arith;
  thirty = λ n. omega arith;
}

-- Every store that any sequence of calls, failed ones included, can reach from a fresh one is
-- bounded: no user owns more than two networks that are not deleted, every capacity is 10, 20 or
-- 30, no device has two rows in the bindings of a network, and no network has more than thirty
-- active devices.
pub reachable-IsBounded :
    (service : Service) (cs : List (ℕ × Call)) → IsBounded (run service empty_db cs)
reachable-IsBounded service cs = run-IsBounded service empty_db cs empty-IsBounded
