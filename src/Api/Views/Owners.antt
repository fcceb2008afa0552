-- ===== src/Api/Views/Owners.antt =====
-- internal/coordinator/networks.go, enrollment.go and user_api.go: what it takes to work on a network.
use dshker_server.Api.Routes.{named}
use dshker_server.Api.Views.{network_pairs}
use dshker_server.Prelude.{
  Bool, Bool-cases, List, Option-cases, String, [], any, arith, err, false, find, inl, inr,
  network_unauthorized, none, not, refl, some, str_iff, true, ℕ, ◌&&◌, ◌=s=◌, ◌∷◌, ◌≡◌, ◌⊎◌,
}
use dshker_server.Protocol.Ids.{valid_name}
use dshker_server.Protocol.Service.{Service}
use dshker_server.Store.Bindings.{
  bind_device, delete_network, delete_pair, network_devices, unbind_device,
}
use dshker_server.Store.Enrollment.{issue_enrollment_token}
use dshker_server.Store.Networks.{
  network_owned, owns, rename_network, update_network_limit, valid_network_limit,
}
use dshker_server.Store.Schema.{Db, NetworkRow, user_enabled}

-- The network is live, the account's own, and the account is enabled.
pub record IsOwner (db : Db) (user_id id : String) : Type 0 where
  pub network : NetworkRow
  pub here :
      find (λ n. n.id =s= id && n.user_id =s= user_id && not n.deleted) db.networks ≡ some network
  pub enabled : any (λ u. u.id =s= user_id && not u.disabled) db.users ≡ true

is_owned : String → String → NetworkRow → Bool
is_owned user_id id n = n.id =s= id && n.user_id =s= user_id && not n.deleted

-- The query finds the same row, where the account is enabled.
find-owns :
    (db : Db) (user_id id : String) (rows : List NetworkRow)
    → user_enabled db user_id ≡ true
    → find (owns db user_id id) rows ≡ find (is_owned user_id id) rows
unfolding is_owned
find-owns db user_id id [] on = refl
find-owns db user_id id (n ∷ rows) on = elim (Bool-cases (n.user_id =s= user_id)) [
  | inr e ↦ ground (arith, e, find-owns db user_id id rows on)
  | inl e ↦
      let same : user_enabled db n.user_id ≡ true = rw ((str_iff n.user_id user_id).0 e) on in
      ground (arith, e, same, find-owns db user_id id rows on)
]

find-owns-none :
    (db : Db) (user_id id : String) (rows : List NetworkRow)
    → user_enabled db user_id ≡ false
    → find (owns db user_id id) rows ≡ none
find-owns-none db user_id id [] off = refl
find-owns-none db user_id id (n ∷ rows) off = elim (Bool-cases (n.user_id =s= user_id)) [
  | inr e ↦ ground (arith, e, find-owns-none db user_id id rows off)
  | inl e ↦
      let same : user_enabled db n.user_id ≡ false = rw ((str_iff n.user_id user_id).0 e) off in
      ground (arith, e, same, find-owns-none db user_id id rows off)
]

-- What the operations ask is what an owner has.
network_owned-IsOwner :
    (db : Db) (user_id id : String)
    → (network_owned db user_id id ≡ err network_unauthorized) ⊎ IsOwner db user_id id
unfolding network_owned is_owned user_enabled
network_owned-IsOwner db user_id id = elim (Bool-cases (user_enabled db user_id)) [
  | inr off ↦ inl (ground (arith, find-owns-none db user_id id db.networks off))
  | inl on ↦ elim (Option-cases (find (is_owned user_id id) db.networks)) [
    | inl e ↦ inl (ground (arith, e, find-owns db user_id id db.networks on))
    | inr (network, e) ↦ inr (record { network = network; here = e; enabled = on })
  ]
]

-- An account works on a network only where the network is live, the account's own, and the
-- account is enabled: otherwise a new name that is well-formed, a new capacity that is allowed, a
-- deletion, a binding and an unbinding, the deletion of a pair, a token, and the lists of its
-- devices and pairs are all refused with the same error.
pub IsOwner-only :
    (service : Service) (user_id id device_id pair_id secret name : String) (limit now : ℕ)
    (db : Db)
    → valid_name name ≡ true
    → valid_network_limit limit ≡ true
    → IsOwner db user_id id
      ⊎ ((rename_network user_id id name db ≡ err network_unauthorized)
          × (update_network_limit user_id id limit now db ≡ err network_unauthorized)
          × (delete_network user_id id now db ≡ err network_unauthorized)
          × (bind_device user_id id device_id db ≡ err network_unauthorized)
          × (unbind_device user_id id device_id now db ≡ err network_unauthorized)
          × (delete_pair user_id id pair_id now db ≡ err network_unauthorized)
          × (issue_enrollment_token service secret user_id id now db ≡ err network_unauthorized)
          × (network_devices user_id id db ≡ err network_unauthorized)
          × (network_pairs user_id id db ≡ err network_unauthorized))
unfolding rename_network update_network_limit delete_network bind_device unbind_device delete_pair
    issue_enrollment_token network_devices network_pairs
IsOwner-only service user_id id device_id pair_id secret name limit now db named sized =
    elim (network_owned-IsOwner db user_id id) [
      | inr own ↦ inl own
      | inl h ↦ inr (
        rw (named, h) refl,
        rw (sized, h) refl,
        rw h refl,
        rw h refl,
        rw h refl,
        rw h refl,
        rw h refl,
        rw h refl,
        rw h refl,
      )
    ]
