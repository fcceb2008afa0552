-- ===== src/Store/Bindings/Removal.antt =====
-- internal/coordinator/networks.go: what is gone once a device is unbound or a network deleted.
use dshker_server.Prelude.{
  String, any-update_none, any-update_same, ap, arith, binding_unauthorized, count,
  count-update_none, err, false, find, find-update-none, network_unauthorized, not, ok, refl,
  str_iff, true, update, ℕ, ◌&&◌, ◌=s=◌, ◌≡◌,
}
use dshker_server.Store.Bindings.{
  binding_owner, delete_network, delete_row, in_network, is_binding, is_bound, pair_touches,
  revoke_row, set_active, spend_share, spend_token, unbind_device,
}
use dshker_server.Store.Networks.{active_binding_count, network_owned, owns}
use dshker_server.Store.Schema.{Db}

-- An unbinding that succeeds leaves the device out of the network: it is not bound to it and acts
-- in it for nobody, no open pair of the network has it as an end, and no share of it is unspent.
-- Every other binding is as it was.
pub unbind_device-removes :
    (user_id network_id device_id : String) (now : ℕ) (db db' : Db)
    → unbind_device user_id network_id device_id now db ≡ ok (tt, db')
    → (is_bound db' network_id device_id ≡ false)
      × (binding_owner db' network_id device_id ≡ err binding_unauthorized)
      × (count (pair_touches network_id device_id) db'.pairs ≡ 0)
      × (count
            (λ s. s.network_id =s= network_id && s.device_id =s= device_id && not s.used)
            db'.shares
          ≡ 0)
      × ((n d : String)
          → is_binding n d
              (record { network_id = network_id; device_id = device_id; active = true })
            ≡ false
          → is_bound db' n d ≡ is_bound db n d)
unfolding unbind_device binding_owner
unbind_device-removes user_id network_id device_id now db db' h =
    let wrote : (db'.bindings
          ≡ update (is_binding network_id device_id) (set_active false) db.bindings)
        × (db'.pairs ≡ update (pair_touches network_id device_id) revoke_row db.pairs)
        × (db'.shares
            ≡ update (λ s. s.network_id =s= network_id && s.device_id =s= device_id) spend_share
                db.shares) =
      ground arith in
    let (bindings, pairs, shares) = wrote in
    let gone : is_bound db' network_id device_id ≡ false = rw bindings (
      any-update_none _ (is_binding network_id device_id) (set_active false) db.bindings
        (λ x _. ground arith) (λ x k. ground arith)) in
    (
      gone,
      rw gone refl,
      rw pairs (
          count-update_none _ (pair_touches network_id device_id) revoke_row db.pairs
            (λ x _. ground arith) (λ x k. ground arith)),
      rw shares (
          count-update_none _ (λ s. s.network_id =s= network_id && s.device_id =s= device_id)
            spend_share db.shares (λ x _. ground arith) (λ x k. ground arith)),
      λ n d ne. rw bindings (
          any-update_same (λ b. is_binding n d b && b.active) (is_binding network_id device_id)
            (set_active false) db.bindings
            (λ x k.
              ground (arith, str_iff x.network_id network_id, str_iff x.device_id device_id))),
    )

-- A deletion that succeeds leaves nothing of the network: it has no owner, no active device,
-- nobody acts in it, none of its pairs is open, none of its tokens and shares is unspent.
pub delete_network-removes :
    (user_id id : String) (now : ℕ) (db db' : Db)
    → delete_network user_id id now db ≡ ok (tt, db')
    → ((owner : String) → network_owned db' owner id ≡ err network_unauthorized)
      × (active_binding_count db' id ≡ 0)
      × ((d : String) → binding_owner db' id d ≡ err binding_unauthorized)
      × (count (in_network id) db'.pairs ≡ 0)
      × (count (λ t. t.network_id =s= id && not t.used) db'.tokens ≡ 0)
      × (count (λ s. s.network_id =s= id && not s.used) db'.shares ≡ 0)
unfolding delete_network active_binding_count network_owned binding_owner
delete_network-removes user_id id now db db' h =
    let wrote : (db'.networks ≡ update (λ n. n.id =s= id) delete_row db.networks)
        × (db'.bindings ≡ update (λ b. b.network_id =s= id) (set_active false) db.bindings)
        × (db'.pairs ≡ update (in_network id) revoke_row db.pairs)
        × (db'.tokens ≡ update (λ t. t.network_id =s= id) spend_token db.tokens)
        × (db'.shares ≡ update (λ s. s.network_id =s= id) spend_share db.shares) =
      ground arith in
    let (networks, bindings, pairs, tokens, shares) = wrote in
    (
      λ owner. rw (ap (find (owns db' owner id)) networks) (
          rw
            (find-update-none (owns db' owner id) (λ n. n.id =s= id) delete_row db.networks
              (λ x _. ground arith) (λ x k. ground arith))
            refl),
      rw bindings (
          count-update_none _ (λ b. b.network_id =s= id) (set_active false) db.bindings
            (λ x _. ground arith) (λ x k. ground arith)),
      λ d. rw bindings (
          rw
            (any-update_none (λ b. is_binding id d b && b.active) (λ b. b.network_id =s= id)
              (set_active false) db.bindings (λ x _. ground arith) (λ x k. ground arith))
            refl),
      rw pairs (
          count-update_none _ (in_network id) revoke_row db.pairs (λ x _. ground arith)
            (λ x k. ground arith)),
      rw tokens (
          count-update_none _ (λ t. t.network_id =s= id) spend_token db.tokens (λ x _. ground arith)
            (λ x k. ground arith)),
      rw shares (
          count-update_none _ (λ s. s.network_id =s= id) spend_share db.shares (λ x _. ground arith)
            (λ x k. ground arith)),
    )
