-- ===== src/Store/Users/Access.antt =====
-- internal/coordinator/users.go: what a login gives, and what ends it.
use Prim.Native.String.{len}
use dshker_server.Prelude.{
  Bool, Bool-cases, List, Option-cases, String, [], any, any-delete_none, any_of_found, arith,
  count, delete, err, false, find, find_of_any, find_sound, inl, inr, not, ok, some, str_iff,
  str_refl, sym, true, user_unauthorized, ℕ, ◌&&◌, ◌++◌, ◌+◌, ◌<◌, ◌==◌, ◌=s=◌, ◌∷◌, ◌≡◌,
}
use dshker_server.Protocol.Ids.{unix}
use dshker_server.Protocol.Service.{Service}
use dshker_server.Store.Schema.{Db, UserRow, UserSessionRow}
use dshker_server.Store.Users.{
  User, UserSession, authenticate_user, day, is_account, is_session, login, logout, to_user,
}

-- Appending one row to the sessions leaves the sessions of a hash that no old row has to the new.
only_new :
    (p q : UserSessionRow → Bool) (row : UserSessionRow) (rows : List UserSessionRow)
    → any p rows ≡ false
    → ((s : UserSessionRow) → q s ≡ true → p s ≡ true)
    → any q (rows ++ row ∷ []) ≡ q row
only_new p q row [] h k = ground arith
only_new p q row (s ∷ rows) h k = ground (arith, k s, only_new p q row rows)

-- What a login that succeeds has found and written.
login_ok :
    (service : Service) (busy : Bool) (secret username password : String) (now : ℕ) (db db' : Db)
    (session : UserSession)
    → login service busy secret username password now db ≡ ok (session, db')
    → (u : UserRow) × (find (is_account service username) db.users ≡ some u)
      × (service.password_matches u.password_hash password ≡ true)
      × (session.user ≡ to_user u)
      × (session.token ≡ secret)
      × (any (λ s. s.hash =s= service.digest secret) db.user_sessions ≡ false)
      × (db' ≡ record db {
        user_sessions =
            db.user_sessions
            ++ record {
              hash = service.digest secret;
              user_id = u.id;
              expires = unix (now + day service);
            }
              ∷ [];
      })
unfolding login
login_ok service busy secret username password now db db' session h =
    elim (Option-cases (find (is_account service username) db.users)) [
      | inl e ↦ absurd (ground arith)
      | inr (u, e) ↦ (u, e, ground arith, ground arith, ground arith, ground arith, ground arith)
    ]

-- A login that succeeds, with a secret of 64 bytes, gives a token that authenticates its account
-- in the tables that it leaves until a day has passed.
pub authenticate_user-login :
    (service : Service) (busy : Bool) (secret username password : String) (now later : ℕ)
    (db db' : Db) (session : UserSession)
    → login service busy secret username password now db ≡ ok (session, db')
    → len secret ≡ 64
    → unix later < unix (now + day service)
    → (v : User) × (authenticate_user service session.token later db' ≡ ok v)
      × (v.id ≡ session.user.id)
unfolding authenticate_user
authenticate_user-login service busy secret username password now later db db' session h long soon =
    let (u, found, matched, user, token, fresh, wrote) =
      login_ok service busy secret username password now db db' session h in
    let row : UserSessionRow = record {
      hash = service.digest secret;
      user_id = u.id;
      expires = unix (now + day service);
    } in
    let holds = find_sound (is_account service username) db.users found in
    let bearer : UserRow → Bool = λ v.
      not v.disabled
      && any (λ s. s.user_id =s= v.id && is_session service secret later s)
          (db.user_sessions ++ row ∷ []) in
    let only : (v : UserRow)
        → any (λ s. s.user_id =s= v.id && is_session service secret later s)
            (db.user_sessions ++ row ∷ [])
          ≡ (row.user_id =s= v.id && is_session service secret later row) =
      λ v.
        only_new (λ s. s.hash =s= service.digest secret) _ row db.user_sessions fresh
          (λ s k. ground arith) in
    let mine : bearer u ≡ true =
      ground (arith, only u, str_refl u.id, str_refl (service.digest secret)) in
    let (v, e) =
      find_of_any bearer db.users
        (any_of_found (is_account service username) bearer db.users found mine) in
    let same : u.id ≡ v.id =
      ground (arith, only v, find_sound bearer db.users e, str_iff u.id v.id) in
    (to_user v, rw (token, wrote) (ground (arith, long, e)), rw user (sym same))

-- After a logout that succeeds its token authenticates nobody, at any time.
pub logout-ends :
    (service : Service) (token : String) (later : ℕ) (db db' : Db)
    → logout service token db ≡ ok (tt, db')
    → authenticate_user service token later db' ≡ err user_unauthorized
unfolding logout authenticate_user
logout-ends service token later db db' h =
    elim (Bool-cases (count (λ s. s.hash =s= service.digest token) db.user_sessions == 1)) [
      | inr e ↦ absurd (ground arith)
      | inl e ↦
          elim (Option-cases (
            find
              (λ (u : UserRow).
                not u.disabled
                && any (λ s. s.user_id =s= u.id && is_session service token later s)
                    (delete (λ s. s.hash =s= service.digest token) db.user_sessions))
              db.users)) [
                | inl missing ↦ ground arith
                | inr (u, f) ↦ absurd (
                    ground (
                      arith,
                      find_sound _ db.users f,
                      any-delete_none (λ s. s.user_id =s= u.id && is_session service token later s)
                          (λ s. s.hash =s= service.digest token) db.user_sessions
                          (λ s k. ground arith),
                    ))
              ]
    ]
