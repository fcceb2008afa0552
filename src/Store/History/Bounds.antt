-- ===== src/Store/History/Bounds.antt =====
-- What bounds a store, and that the moves of the networks keep it.
use dshker_server.Prelude.{
  Bool, String, [], all, all-append, all-update, arith, count, count-append, count-update_le,
  count-update_same, false, refl, str_iff, true, ◌=s=◌, ◌∷◌, ◌≡◌, ◌≤◌,
}
use dshker_server.Store.Bindings.{delete_row, is_binding}
use dshker_server.Store.History.Networks.{NetworkMove, establish, rename, resize, retire}
use dshker_server.Store.Networks.{
  active_binding_count, default_network_limit, is_users_network, set_limit, set_name,
  valid_network_limit,
}
use dshker_server.Store.Schema.{Db, NetworkRow}

pub record IsBounded (db : Db) : Type 0 where
  -- No user owns more than two networks that are not deleted.
  pub two_networks : (user_id : String) → count (is_users_network user_id) db.networks ≤ 2
  -- Every network's capacity is 10, 20 or 30.
  pub limits : all (λ n. valid_network_limit n.max_devices) db.networks ≡ true
  -- The primary key of `bindings`.
  pub one_row :
      (network_id device_id : String) → count (is_binding network_id device_id) db.bindings ≤ 1
  -- No network has more than thirty active devices.
  pub thirty : (network_id : String) → active_binding_count db network_id ≤ 30

-- Networks: each move keeps the two bounds.
pub NetworkMove-two :
    (db db' : Db)
    → NetworkMove db db'
    → (user_id : String) → count (is_users_network user_id) db.networks ≤ 2
    → count (is_users_network user_id) db'.networks ≤ 2
NetworkMove-two db db' (NetworkMove.keep e) u h = rw e h
NetworkMove-two db db' (establish id owner name few fresh e) u h = rw e (
    ground (
      arith,
      few,
      count-append (is_users_network u) db.networks (
          record {
            id = id;
            user_id = owner;
            name = name;
            deleted = false;
            max_devices = default_network_limit;
          }
          ∷ []),
      str_iff owner u,
    ))
NetworkMove-two db db' (rename id name e) u h = rw e (
    omega (
      arith,
      count-update_same (is_users_network u) (λ n. n.id =s= id) (set_name name) db.networks
          (λ x _. refl),
    ))
NetworkMove-two db db' (resize id limit valid e) u h = rw e (
    omega (
      arith,
      count-update_same (is_users_network u) (λ n. n.id =s= id) (set_limit limit) db.networks
          (λ x _. refl),
    ))
NetworkMove-two db db' (retire id e) u h = rw e (
    omega (
      arith,
      count-update_le (is_users_network u) (λ n. n.id =s= id) delete_row db.networks
          (λ x _ k. ground arith),
    ))

abbrev has_limit : NetworkRow → Bool
has_limit n = valid_network_limit n.max_devices

pub NetworkMove-limits :
    (db db' : Db)
    → NetworkMove db db'
    → all has_limit db.networks ≡ true
    → all has_limit db'.networks ≡ true
unfolding valid_network_limit
NetworkMove-limits db db' (NetworkMove.keep e) h = rw e h
NetworkMove-limits db db' (establish id owner name few fresh e) h =
    rw e (all-append has_limit db.networks _ h refl)
NetworkMove-limits db db' (rename id name e) h =
    rw e (all-update has_limit (λ n. n.id =s= id) (set_name name) db.networks (λ x k. k) h)
NetworkMove-limits db db' (resize id limit valid e) h =
    rw e (all-update has_limit (λ n. n.id =s= id) (set_limit limit) db.networks (λ x _. valid) h)
NetworkMove-limits db db' (retire id e) h =
    rw e (all-update has_limit (λ n. n.id =s= id) delete_row db.networks (λ x k. k) h)
