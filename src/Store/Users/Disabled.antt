-- ===== src/Store/Users/Disabled.antt =====
-- internal/coordinator/users.go: what a disabled account can no longer do.
use dshker_server.Prelude.{
  Bool-cases, Option-cases, String, any, any-delete_none, any-update_none, ap, arith, count,
  count-update_none, delete, err, false, find, find_sound, inl, inr, network_unauthorized, not, ok,
  refl, str_iff, sym, true, true_ne_false, update, ℕ, ◌&&◌, ◌=s=◌, ◌∙◌, ◌≡◌,
}
use dshker_server.Protocol.Service.{Service}
use dshker_server.Store.Bindings.{binding_owner, device_live, is_bound, revoke_row}
use dshker_server.Store.Networks.{network_owned, owns}
use dshker_server.Store.Schema.{Db, NetworkRow, UserRow, user_enabled}
use dshker_server.Store.Users.{
  User, authenticate_user, disable_row, disable_user, is_session, pair_of_user,
}

-- The tables that a disabling leaves.
disable_user_ok :
    (id : String) (now : ℕ) (db db' : Db)
    → disable_user id now db ≡ ok (tt, db')
    → (db'.users ≡ update (λ u. u.id =s= id && not u.disabled) disable_row db.users)
      × (db'.user_sessions ≡ delete (λ s. s.user_id =s= id) db.user_sessions)
      × (db'.pairs ≡ update (pair_of_user db id) revoke_row db.pairs)
      × (db'.networks ≡ db.networks)
unfolding disable_user
disable_user_ok id now db db' h = ground arith

disabled_user :
    (id : String) (now : ℕ) (db db' : Db)
    → disable_user id now db ≡ ok (tt, db')
    → user_enabled db' id ≡ false
unfolding user_enabled
disabled_user id now db db' h =
    let (users, _, _, _) = disable_user_ok id now db db' h in
    rw (ap (any (λ (u : UserRow). u.id =s= id && not u.disabled)) users) (
      any-update_none _ (λ u. u.id =s= id && not u.disabled) disable_row db.users
        (λ x _. ground arith) (λ x k. ground arith))

no_session :
    (service : Service) (id token : String) (later : ℕ) (u : UserRow) (db db' : Db)
    → db'.user_sessions ≡ delete (λ s. s.user_id =s= id) db.user_sessions
    → (u.id =s= id) ≡ true
    → any (λ s. s.user_id =s= u.id && is_session service token later s) db'.user_sessions ≡ false
no_session service id token later u db db' e eq = rw e (
    any-delete_none _ (λ s. s.user_id =s= id) db.user_sessions
      (λ s k. ground (arith, str_iff u.id id, str_iff s.user_id u.id, str_iff s.user_id id)))

-- The owner in whose network a device acts is enabled.
owner_enabled :
    (db : Db) (n d owner : String)
    → user_enabled db owner ≡ false
    → ¬ (binding_owner db n d ≡ ok owner)
unfolding binding_owner
owner_enabled db n d owner off k = elim (Bool-cases (is_bound db n d && device_live db d)) [
  | inr e ↦ ground arith
  | inl e ↦
      elim (Option-cases (
        find
          (λ (x : NetworkRow).
            x.id =s= n
            && not x.deleted
            && user_enabled db x.user_id
            && any (λ du. du.device_id =s= d && du.user_id =s= x.user_id) db.device_users)
          db.networks)) [
            | inl missing ↦ ground arith
            | inr (x, f) ↦
                let holds = find_sound _ db.networks f in
                let same : x.user_id ≡ owner = ground arith in
                true_ne_false {b = user_enabled db owner}
                  (ap (user_enabled db) (sym same) ∙ ground arith) off
          ]
]

-- A disabled account is locked out: none of its tokens authenticates it, at any time; it owns no
-- network; nobody acts in its networks; no pair of its networks is open.
pub disable_user-locks_out :
    (service : Service) (id : String) (now : ℕ) (db db' : Db)
    → disable_user id now db ≡ ok (tt, db')
    → ((token : String) (later : ℕ) (v : User)
        → authenticate_user service token later db' ≡ ok v
        → (v.id =s= id) ≡ false)
      × ((n : String) → network_owned db' id n ≡ err network_unauthorized)
      × ((n d : String) → ¬ (binding_owner db' n d ≡ ok id))
      × (count (pair_of_user db' id) db'.pairs ≡ 0)
unfolding authenticate_user network_owned binding_owner
disable_user-locks_out service id now db db' h =
    let (users, sessions, pairs, networks) = disable_user_ok id now db db' h in
    let off = disabled_user id now db db' h in
    (
      λ token later v k.
          elim (Option-cases (
            find
              (λ (u : UserRow).
                not u.disabled
                && any (λ s. s.user_id =s= u.id && is_session service token later s)
                    db'.user_sessions)
              db'.users)) [
                | inl missing ↦ absurd (ground arith)
                | inr (u, e) ↦
                    let holds = find_sound _ db'.users e in
                    let same : v.id ≡ u.id = ground arith in
                    elim (Bool-cases (u.id =s= id)) [
                      | inr ne ↦ rw same ne
                      | inl eq ↦
                          absurd
                            (ground (arith, no_session service id token later u db db' sessions eq))
                    ]
              ],
      λ n. elim (Option-cases (find (owns db' id n) db'.networks)) [
        | inl e ↦ rw e refl
        | inr (x, e) ↦
            let holds = find_sound (owns db' id n) db'.networks e in
            let same : x.user_id ≡ id = ground (arith, str_iff x.user_id id) in
            let on : user_enabled db' x.user_id ≡ true = ground arith in
            absurd (true_ne_false (ap (user_enabled db') (sym same) ∙ on) off)
      ],
      λ n d k. owner_enabled db' n d id off k,
      rw (pairs, networks)
          (count-update_none _ (pair_of_user db id) revoke_row db.pairs (λ x _. ground arith)
            (λ x k. ground arith)),
    )
