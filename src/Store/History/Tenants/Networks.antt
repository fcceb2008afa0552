-- ===== src/Store/History/Tenants/Networks.antt =====
-- internal/coordinator/users.go and networks.go: what a logout and the calls on networks change.
use dshker_server.Prelude.{
  Bool, Option-cases, String, any, arith, commit, commit-bind, commit-if, commit-ok, commit-reject,
  count, find, find_sound, inl, inr, invalid_name, invalid_network_limit, leb,
  network_limit_reached, not, ok, refl, select, select-delete_only, select-insert, select-update,
  sql_error, str_refl, true, update, user_unauthorized, ℕ, ◌&&◌, ◌==◌, ◌=s=◌, ◌≡◌,
}
use dshker_server.Protocol.Ids.{valid_name}
use dshker_server.Protocol.Service.{Service}
use dshker_server.Store.History.Tenants.{
  KeepsOthers, foreign_network, foreign_session, held, held_of_owned, holds, same-KeepsOthers,
}
use dshker_server.Store.Networks.{
  create_network, is_users_network, network_owned, rename_network, set_limit, set_name,
  update_network_limit, valid_network_limit,
}
use dshker_server.Store.Schema.{Db, NetworkRow, UserRow, UserSessionRow, user_enabled}
use dshker_server.Store.Users.{User, authenticate_user, is_session, logout}

has_session :
    (service : Service) (token : String) (now : ℕ) (db : Db) (user : User)
    → authenticate_user service token now db ≡ ok user
    → any (λ s. s.user_id =s= user.id && is_session service token now s) db.user_sessions ≡ true
unfolding authenticate_user
has_session service token now db user h =
    let bears : UserRow → Bool = λ u.
      not u.disabled
      && any (λ s. s.user_id =s= u.id && is_session service token now s) db.user_sessions in
    elim (Option-cases (find bears db.users)) [
      | inl e ↦ absurd (ground arith)
      | inr (u, e) ↦ ground (arith, find_sound bears db.users e)
    ]

pub logout-KeepsOthers :
    (service : Service) (token : String) (now : ℕ) (db : Db) (user : User)
    → authenticate_user service token now db ≡ ok user
    → KeepsOthers user.id db (commit db (logout service token db))
unfolding logout
logout-KeepsOthers service token now db user shown =
    commit-reject (KeepsOthers user.id db) db
      (not (count (λ (s : UserSessionRow). s.hash =s= service.digest token) db.user_sessions == 1))
      user_unauthorized _ (same-KeepsOthers user.id db)
      λ one. commit-ok (KeepsOthers user.id db) db _ _ (record {
        rest = refl;
        user_sessions =
            select-delete_only (foreign_session user.id) (λ s. s.hash =s= service.digest token)
              (λ s. s.user_id =s= user.id && is_session service token now s) db.user_sessions
              (ground arith) (has_session service token now db user shown) (λ s h. ground arith)
              (λ s h. ground arith);
        networks = refl;
        tokens = refl;
        bindings = refl;
        shares = refl;
        pairs = refl;
      })

pub create_network-KeepsOthers :
    (id user_id name : String) (db : Db)
    → KeepsOthers user_id db (commit db (create_network id user_id name db))
unfolding create_network
create_network-KeepsOthers id user_id name db =
    let same = same-KeepsOthers user_id db in
    commit-reject (KeepsOthers user_id db) db (not (valid_name name)) invalid_name _ same λ _.
      commit-reject (KeepsOthers user_id db) db
        (leb 2 (count (is_users_network user_id) db.networks)) network_limit_reached _ same
        λ _.
          commit-reject (KeepsOthers user_id db) db (not (user_enabled db user_id))
            user_unauthorized _ same
            λ _.
              commit-reject (KeepsOthers user_id db) db
                (any (λ (n : NetworkRow). n.id =s= id) db.networks) sql_error _ same
                λ _. commit-ok (KeepsOthers user_id db) db _ _ (record {
                  rest = refl;
                  user_sessions = refl;
                  networks =
                      select-insert (foreign_network db user_id) db.networks _
                        (ground (arith, str_refl user_id));
                  tokens = refl;
                  bindings = refl;
                  shares = refl;
                  pairs = refl;
                })

-- A change of the row of a network of the account.
pub on_network-keeps :
    (db : Db) (user_id id : String) (f : NetworkRow → NetworkRow)
    → holds db user_id id ≡ true
    → ((n : NetworkRow) → (f n).id ≡ n.id)
    → select (foreign_network db user_id) (update (λ n. n.id =s= id) f db.networks)
      ≡ select (foreign_network db user_id) db.networks
on_network-keeps db user_id id f mine same =
    select-update (foreign_network db user_id) (λ n. n.id =s= id) f db.networks
      (λ n h. ground (arith, held db user_id id n.id mine h))
      (λ n h. rw (same n) (ground (arith, held db user_id id n.id mine h)))

pub rename_network-KeepsOthers :
    (user_id id name : String) (db : Db)
    → KeepsOthers user_id db (commit db (rename_network user_id id name db))
unfolding rename_network
rename_network-KeepsOthers user_id id name db =
    let same = same-KeepsOthers user_id db in
    commit-reject (KeepsOthers user_id db) db (not (valid_name name)) invalid_name _ same λ _.
      commit-bind (KeepsOthers user_id db) db (network_owned db user_id id) _ same λ network own.
        commit-if (KeepsOthers user_id db) db (network.name =s= name) _ _
          (λ _. commit-ok (KeepsOthers user_id db) db _ _ same)
          λ _. commit-ok (KeepsOthers user_id db) db _ _ (record {
            rest = refl;
            user_sessions = refl;
            networks =
                on_network-keeps db user_id id (set_name name)
                  (held_of_owned db user_id id network own) (λ n. refl);
            tokens = refl;
            bindings = refl;
            shares = refl;
            pairs = refl;
          })

pub update_network_limit-KeepsOthers :
    (user_id id : String) (limit now : ℕ) (db : Db)
    → KeepsOthers user_id db (commit db (update_network_limit user_id id limit now db))
unfolding update_network_limit
update_network_limit-KeepsOthers user_id id limit now db =
    let same = same-KeepsOthers user_id db in
    commit-reject (KeepsOthers user_id db) db (not (valid_network_limit limit))
      invalid_network_limit _ same
      λ _.
        commit-bind (KeepsOthers user_id db) db (network_owned db user_id id) _ same λ network own.
          commit-if (KeepsOthers user_id db) db (network.max_devices == limit) _ _
            (λ _. commit-ok (KeepsOthers user_id db) db _ _ same)
            λ _. commit-ok (KeepsOthers user_id db) db _ _ (record {
              rest = refl;
              user_sessions = refl;
              networks =
                  on_network-keeps db user_id id (set_limit limit)
                    (held_of_owned db user_id id network own) (λ n. refl);
              tokens = refl;
              bindings = refl;
              shares = refl;
              pairs = refl;
            })
