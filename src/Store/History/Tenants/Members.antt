-- ===== src/Store/History/Tenants/Members.antt =====
-- internal/coordinator/networks.go: what the calls on a network's devices, pairs and tokens change.
use dshker_server.Prelude.{
  Bool, Bool-cases, List, String, [], any, arith, commit, commit-ok, commit-reject, commit-then,
  count, false, if◌then◌else◌, inl, inr, not, ok, pair_unauthorized, refl, select, select-insert,
  select-update, sql_error, true, update, ℕ, ◌&&◌, ◌++◌, ◌==◌, ◌=s=◌, ◌∷◌, ◌≡◌,
}
use dshker_server.Prelude.Text.{◌+s+◌}
use dshker_server.Protocol.Ids.{unix}
use dshker_server.Protocol.Service.{Service}
use dshker_server.Store.Bindings.{
  bind_device, bind_row, binding_owner, delete_network, delete_pair, delete_row, device_owned,
  in_network, is_binding, is_bound, is_open_pair, pair_touches, revoke_row, set_active, spend_share,
  spend_token, unbind_device,
}
use dshker_server.Store.Enrollment.{issue_enrollment_token}
use dshker_server.Store.History.Tenants.{
  KeepsOthers, foreign_binding, held, held_of_owned, holds, same-KeepsOthers,
}
use dshker_server.Store.History.Tenants.Networks.{on_network-keeps}
use dshker_server.Store.Networks.{binding_fits_capacity, log, network_owned, require_capacity}
use dshker_server.Store.Schema.{BindingRow, Db, PairRow, ShareRow, TokenRow}

module _ (db : Db) (user_id id : String) (mine : holds db user_id id ≡ true) where
  -- An update of rows that belong to a network of the account.
  update-keeps :
      {A : Type 0} (network_of : A → String) (q : A → Bool) (f : A → A) (xs : List A)
      → ((x : A) → q x ≡ true → (network_of x =s= id) ≡ true)
      → ((x : A) → network_of (f x) ≡ network_of x)
      → select (λ x. not (holds db user_id (network_of x))) (update q f xs)
        ≡ select (λ x. not (holds db user_id (network_of x))) xs
  update-keeps network_of q f xs within same =
      select-update (λ x. not (holds db user_id (network_of x))) q f xs
        (λ x h. held db user_id id (network_of x) mine (within x h))
        (λ x h. rw (same x) (held db user_id id (network_of x) mine (within x h)))

  -- A new row that belongs to the network.
  insert-keeps :
      {A : Type 0} (network_of : A → String) (xs : List A) (x : A)
      → network_of x ≡ id
      → select (λ x. not (holds db user_id (network_of x))) (xs ++ x ∷ [])
        ≡ select (λ x. not (holds db user_id (network_of x))) xs
  insert-keeps network_of xs x same =
      select-insert (λ x. not (holds db user_id (network_of x))) xs x (rw (same, mine) refl)

  bind_row-keeps :
      (device_id : String) (rows : List BindingRow)
      → select (foreign_binding db user_id) (bind_row id device_id rows)
        ≡ select (foreign_binding db user_id) rows
  unfolding bind_row
  bind_row-keeps device_id rows = elim (Bool-cases (any (is_binding id device_id) rows)) [
    | inl e ↦ rw e (
        update-keeps (λ (b : BindingRow). b.network_id) (is_binding id device_id) (set_active true)
          rows (λ b h. ground arith) (λ b. refl))
    | inr e ↦ rw e (insert-keeps (λ (b : BindingRow). b.network_id) rows _ refl)
  ]

  deletion-KeepsOthers :
      (now : ℕ)
      → KeepsOthers user_id db (
          log "network-deleted" id (unix now) (record db {
            networks = update (λ n. n.id =s= id) delete_row db.networks;
            bindings = update (λ b. b.network_id =s= id) (set_active false) db.bindings;
            tokens = update (λ t. t.network_id =s= id) spend_token db.tokens;
            shares = update (λ s. s.network_id =s= id) spend_share db.shares;
            pairs = update (in_network id) revoke_row db.pairs;
          }))
  deletion-KeepsOthers now = record {
    rest = refl;
    user_sessions = refl;
    networks = on_network-keeps db user_id id delete_row mine (λ n. refl);
    tokens =
        update-keeps (λ (t : TokenRow). t.network_id) _ spend_token db.tokens (λ t h. h)
          (λ t. refl);
    bindings =
        update-keeps (λ (b : BindingRow). b.network_id) _ (set_active false) db.bindings (λ b h. h)
          (λ b. refl);
    shares =
        update-keeps (λ (s : ShareRow). s.network_id) _ spend_share db.shares (λ s h. h)
          (λ s. refl);
    pairs =
        update-keeps (λ (p : PairRow). p.network_id) (in_network id) revoke_row db.pairs
          (λ p h. ground arith) (λ p. refl);
  }

  unbinding-KeepsOthers :
      (device_id : String) (now : ℕ)
      → KeepsOthers user_id db (
          log "device-unbound" (id +s+ ":" +s+ device_id) (unix now) (record db {
            bindings = update (is_binding id device_id) (set_active false) db.bindings;
            pairs = update (pair_touches id device_id) revoke_row db.pairs;
            shares =
                update
                  (λ s. s.network_id =s= id && s.device_id =s= device_id)
                  spend_share
                  db.shares;
          }))
  unbinding-KeepsOthers device_id now = record {
    rest = refl;
    user_sessions = refl;
    networks = refl;
    tokens = refl;
    bindings =
        update-keeps (λ (b : BindingRow). b.network_id) (is_binding id device_id) (set_active false)
          db.bindings (λ b h. ground arith) (λ b. refl);
    shares =
        update-keeps (λ (s : ShareRow). s.network_id) _ spend_share db.shares (λ s h. ground arith)
          (λ s. refl);
    pairs =
        update-keeps (λ (p : PairRow). p.network_id) (pair_touches id device_id) revoke_row db.pairs
          (λ p h. ground arith) (λ p. refl);
  }

pub delete_network-KeepsOthers :
    (user_id id : String) (now : ℕ) (db : Db)
    → KeepsOthers user_id db (commit db (delete_network user_id id now db))
unfolding delete_network
delete_network-KeepsOthers user_id id now db =
    commit-then (KeepsOthers user_id db) db (network_owned db user_id id) _
      (same-KeepsOthers user_id db)
      λ network own.
        commit-ok (KeepsOthers user_id db) db _ _
          (deletion-KeepsOthers db user_id id (held_of_owned db user_id id network own) now)

pub unbind_device-KeepsOthers :
    (user_id network_id device_id : String) (now : ℕ) (db : Db)
    → KeepsOthers user_id db (commit db (unbind_device user_id network_id device_id now db))
unfolding unbind_device
unbind_device-KeepsOthers user_id network_id device_id now db =
    let same = same-KeepsOthers user_id db in
    commit-then (KeepsOthers user_id db) db (network_owned db user_id network_id) _ same
      λ network own.
        commit-then (KeepsOthers user_id db) db (binding_owner db network_id device_id) _ same
          λ _ _. commit-ok (KeepsOthers user_id db) db _ _ (
            unbinding-KeepsOthers db user_id network_id
              (held_of_owned db user_id network_id network own) device_id now)

pub bind_device-KeepsOthers :
    (user_id network_id device_id : String) (db : Db)
    → KeepsOthers user_id db (commit db (bind_device user_id network_id device_id db))
unfolding bind_device
bind_device-KeepsOthers user_id network_id device_id db =
    let same = same-KeepsOthers user_id db in
    commit-then (KeepsOthers user_id db) db (network_owned db user_id network_id) _ same
      λ network own.
        commit-then (KeepsOthers user_id db) db (device_owned db user_id device_id) _ same λ _ _.
          commit-then (KeepsOthers user_id db) db
            (if is_bound db network_id device_id
              then ok tt
              else require_capacity (binding_fits_capacity db network_id))
            _ same
            λ _ _. commit-ok (KeepsOthers user_id db) db _ _ (record {
              rest = refl;
              user_sessions = refl;
              networks = refl;
              tokens = refl;
              bindings =
                  bind_row-keeps db user_id network_id
                    (held_of_owned db user_id network_id network own) device_id db.bindings;
              shares = refl;
              pairs = refl;
            })

pub delete_pair-KeepsOthers :
    (user_id network_id pair_id : String) (now : ℕ) (db : Db)
    → KeepsOthers user_id db (commit db (delete_pair user_id network_id pair_id now db))
unfolding delete_pair
delete_pair-KeepsOthers user_id network_id pair_id now db =
    let same = same-KeepsOthers user_id db in
    commit-then (KeepsOthers user_id db) db (network_owned db user_id network_id) _ same
      λ network own.
        commit-reject (KeepsOthers user_id db) db
          (not (count (is_open_pair network_id pair_id) db.pairs == 1)) pair_unauthorized _ same
          λ _. commit-ok (KeepsOthers user_id db) db _ _ (record {
            rest = refl;
            user_sessions = refl;
            networks = refl;
            tokens = refl;
            bindings = refl;
            shares = refl;
            pairs =
                update-keeps db user_id network_id (held_of_owned db user_id network_id network own)
                  (λ (p : PairRow). p.network_id) (is_open_pair network_id pair_id) revoke_row
                  db.pairs (λ p h. ground arith) (λ p. refl);
          })

pub issue_enrollment_token-KeepsOthers :
    (service : Service) (secret user_id network_id : String) (now : ℕ) (db : Db)
    → KeepsOthers user_id db
        (commit db (issue_enrollment_token service secret user_id network_id now db))
unfolding issue_enrollment_token
issue_enrollment_token-KeepsOthers service secret user_id network_id now db =
    let same = same-KeepsOthers user_id db in
    commit-then (KeepsOthers user_id db) db (network_owned db user_id network_id) _ same
      λ network own.
        commit-reject (KeepsOthers user_id db) db
          (any (λ (t : TokenRow). t.hash =s= service.digest secret) db.tokens) sql_error _ same
          λ _. commit-ok (KeepsOthers user_id db) db _ _ (record {
            rest = refl;
            user_sessions = refl;
            networks = refl;
            tokens =
                insert-keeps db user_id network_id (held_of_owned db user_id network_id network own)
                  (λ (t : TokenRow). t.network_id) db.tokens _ refl;
            bindings = refl;
            shares = refl;
            pairs = refl;
          })
