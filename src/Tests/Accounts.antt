-- ===== src/Tests/Accounts.antt =====
-- Logins, removals and refusals at concrete inputs.
use dshker_server.Api.Views.{network_pairs}
use dshker_server.Api.Views.Owners.{IsOwner, IsOwner-only}
use dshker_server.Prelude.{
  String, [], arith, binding_unauthorized, count, err, false, network_unauthorized, not, ok, refl,
  true, ℕ, ◌&&◌, ◌+◌, ◌=s=◌, ◌∷◌, ◌≡◌, ◌⊎◌,
}
use dshker_server.Protocol.Ids.{minute, unix, valid_name}
use dshker_server.Store.Bindings.{
  bind_device, binding_owner, delete_network, delete_pair, in_network, is_binding, is_bound,
  network_devices, pair_touches, unbind_device,
}
use dshker_server.Store.Bindings.Removal.{delete_network-removes, unbind_device-removes}
use dshker_server.Store.Enrollment.{issue_enrollment_token}
use dshker_server.Store.Networks.{
  active_binding_count, log, network_owned, rename_network, update_network_limit,
  valid_network_limit,
}
use dshker_server.Store.Schema.{Db, user_enabled}
use dshker_server.Store.Users.{
  User, UserSession, authenticate_user, disable_user, login, logout, pair_of_user,
}
use dshker_server.Store.Users.Access.{authenticate_user-login}
use dshker_server.Store.Users.Disabled.{disable_user-locks_out}
use dshker_server.Tests.Toy.{ann, bound, first_id, home, house, network_row, noon, second_id, toy}

abbrev pub secret : String
secret = "0123456789abcdef0123456789abcdef0123456789abcdef0123456789abcdef"

abbrev session : UserSession
session = record {
  user = record { id = "a00000000000"; username = "ann@example.org" };
  token = secret;
  expires_at = unix noon + 86400;
}

abbrev signed_in : Db
signed_in = record house {
  user_sessions =
      record { hash = secret; user_id = "a00000000000"; expires = unix noon + 86400 } ∷ [];
}

login_runs :
    login toy false secret "ann@example.org" "correct horse" noon house ≡ ok (session, signed_in)
unfolding login
login_runs = refl

authenticate_user-login_example :
    (v : User) × (authenticate_user toy secret (noon + minute) signed_in ≡ ok v)
    × (v.id ≡ "a00000000000")
authenticate_user-login_example =
    authenticate_user-login toy false secret "ann@example.org" "correct horse" noon (noon + minute)
      house signed_in session login_runs refl (omega arith)

logout_runs : logout toy secret signed_in ≡ ok (tt, house)
unfolding logout
logout_runs = refl

abbrev shut : Db
shut =
    log "user-disabled" "a00000000000" (unix noon)
      (record house { users = record ann { disabled = true } ∷ [] })

disable_user_runs : disable_user "a00000000000" noon signed_in ≡ ok (tt, shut)
unfolding disable_user
disable_user_runs = refl

disable_user-locks_out_example :
    ((token : String) (later : ℕ) (v : User)
      → authenticate_user toy token later shut ≡ ok v
      → (v.id =s= "a00000000000") ≡ false)
    × ((n : String) → network_owned shut "a00000000000" n ≡ err network_unauthorized)
    × ((n d : String) → ¬ (binding_owner shut n d ≡ ok "a00000000000"))
    × (count (pair_of_user shut "a00000000000") shut.pairs ≡ 0)
disable_user-locks_out_example =
    disable_user-locks_out toy "a00000000000" noon signed_in shut disable_user_runs

abbrev parted : Db
parted = log "device-unbound" "b00000000000:111111111111" (unix noon) (record house {
  bindings =
      record { network_id = home; device_id = first_id; active = false }
      ∷ bound home second_id
      ∷ [];
})

unbind_device_runs : unbind_device "a00000000000" home first_id noon house ≡ ok (tt, parted)
unfolding unbind_device network_owned user_enabled binding_owner
unbind_device_runs = refl

unbind_device-removes_example :
    (is_bound parted home first_id ≡ false)
    × (binding_owner parted home first_id ≡ err binding_unauthorized)
    × (count (pair_touches home first_id) parted.pairs ≡ 0)
    × (count (λ s. s.network_id =s= home && s.device_id =s= first_id && not s.used) parted.shares
        ≡ 0)
    × ((n d : String)
        → is_binding n d (bound home first_id) ≡ false
        → is_bound parted n d ≡ is_bound house n d)
unbind_device-removes_example =
    unbind_device-removes "a00000000000" home first_id noon house parted unbind_device_runs

abbrev razed : Db
razed = log "network-deleted" home (unix noon) (record house {
  networks = record (network_row home) { deleted = true } ∷ [];
  bindings =
      record { network_id = home; device_id = first_id; active = false }
      ∷ record { network_id = home; device_id = second_id; active = false }
      ∷ [];
})

delete_network_runs : delete_network "a00000000000" home noon house ≡ ok (tt, razed)
unfolding delete_network network_owned user_enabled
delete_network_runs = refl

delete_network-removes_example :
    ((owner : String) → network_owned razed owner home ≡ err network_unauthorized)
    × (active_binding_count razed home ≡ 0)
    × ((d : String) → binding_owner razed home d ≡ err binding_unauthorized)
    × (count (in_network home) razed.pairs ≡ 0)
    × (count (λ t. t.network_id =s= home && not t.used) razed.tokens ≡ 0)
    × (count (λ s. s.network_id =s= home && not s.used) razed.shares ≡ 0)
delete_network-removes_example =
    delete_network-removes "a00000000000" home noon house razed delete_network_runs

-- Somebody else is refused.
name_ok : valid_name "house" ≡ true
unfolding valid_name
name_ok = refl

limit_ok : valid_network_limit 20 ≡ true
unfolding valid_network_limit
limit_ok = refl

IsOwner-only_example :
    IsOwner house "a99999999999" home
    ⊎ ((rename_network "a99999999999" home "house" house ≡ err network_unauthorized)
        × (update_network_limit "a99999999999" home 20 noon house ≡ err network_unauthorized)
        × (delete_network "a99999999999" home noon house ≡ err network_unauthorized)
        × (bind_device "a99999999999" home first_id house ≡ err network_unauthorized)
        × (unbind_device "a99999999999" home first_id noon house ≡ err network_unauthorized)
        × (delete_pair "a99999999999" home "f00000000000" noon house ≡ err network_unauthorized)
        × (issue_enrollment_token toy secret "a99999999999" home noon house
            ≡ err network_unauthorized)
        × (network_devices "a99999999999" home house ≡ err network_unauthorized)
        × (network_pairs "a99999999999" home house ≡ err network_unauthorized))
IsOwner-only_example =
    IsOwner-only toy "a99999999999" home first_id "f00000000000" secret "house" 20 noon house
      name_ok limit_ok

stranger : ¬ IsOwner house "a99999999999" home
stranger own = let h = own.here in cc
