-- ===== src/Store/Users.antt =====
-- internal/coordinator/users.go: accounts, logins and their bearer sessions.
pub mod Access
pub mod Disabled
use Prim.Native.String.{len}
use dshker_server.Prelude.{
  Bool, List, Option, Result, String, [], all, any, count, delete, err, false, find, if◌then◌else◌,
  invalid_user_credentials, leb, length, login_failed, ltb, none, not, ok, or_fail, rate_limited,
  reject, some, sql_error, true, update, user_conflict, user_not_found, user_unauthorized, ℕ, ◌&&◌,
  ◌++◌, ◌+◌, ◌==◌, ◌=s=◌, ◌>>=◌, ◌>>◌, ◌||◌, ◌∷◌,
}
use dshker_server.Prelude.Text.{codes}
use dshker_server.Protocol.Ids.{unix}
use dshker_server.Protocol.Service.{Service}
use dshker_server.Store.Bindings.{is_open, revoke_row}
use dshker_server.Store.Networks.{log}
use dshker_server.Store.Schema.{Db, PairRow, Tx, UserRow, UserSessionRow}

pub record User : Type 0 where
  pub id : String
  pub username : String

abbrev pub to_user : UserRow → User
to_user u = record { id = u.id; username = u.email }

pub record UserSession : Type 0 where
  pub user : User
  pub token : String
  pub expires_at : ℕ

is_alnum : ℕ → Bool
is_alnum c = (leb b'a' c && leb c b'z') || (leb b'A' c && leb c b'Z') || (leb b'0' c && leb c b'9')

is_alpha : ℕ → Bool
is_alpha c = (leb b'a' c && leb c b'z') || (leb b'A' c && leb c b'Z')

-- `[a-zA-Z0-9._%+-]`
is_local : ℕ → Bool
unfolding is_alnum
is_local c = is_alnum c || c == b'.' || c == b'_' || c == b'%' || c == b'+' || c == b'-'

-- `[a-zA-Z0-9.-]`
is_domain : ℕ → Bool
unfolding is_alnum
is_domain c = is_alnum c || c == b'.' || c == b'-'

-- `\.[a-zA-Z]{2,}$`, read at a position of the domain.
is_suffix : List ℕ → Bool
unfolding is_alpha
is_suffix [] = false
is_suffix (c ∷ s) = c == b'.' && leb 2 (length s) && all is_alpha s

-- `[a-zA-Z0-9.-]+\.[a-zA-Z]{2,}$`, after `n` characters of the domain.
domain_matches : Bool → List ℕ → Bool
unfolding is_domain is_suffix
domain_matches started [] = false
domain_matches started (c ∷ s) =
    (started && is_suffix (c ∷ s)) || (is_domain c && domain_matches true s)

-- The pattern from a position of the local part; no `@` can stand in either part.
local_matches : Bool → List ℕ → Bool
unfolding is_local domain_matches
local_matches started [] = false
local_matches started (c ∷ s) =
    if c == b'@' then started && domain_matches false s else is_local c && local_matches true s

-- `emailPattern.MatchString(email)`
unfoldable pub email_matches : String → Bool
unfolding local_matches
email_matches email = local_matches false (codes email)

module _ (service : Service) where
  -- `id` is what `protocol.NewID` mints. The primary key and the UNIQUE column refuse a second row.
  unfoldable pub create_user : String → String → String → Db → Tx User
  unfolding email_matches
  create_user id email password db = do
    reject
        (not (email_matches email)
          || ltb 254 (len email)
          || ltb (len password) 12
          || ltb 72 (len password))
        invalid_user_credentials
    reject (any (λ u. u.id =s= id || u.email =s= email) db.users) user_conflict
    let row : UserRow = record {
      id = id;
      email = email;
      password_hash = service.hash_password password;
      disabled = false;
    }
    ok (to_user row, record db { users = db.users ++ row ∷ [] })

  abbrev pub is_account : String → UserRow → Bool
  is_account email u = u.email =s= email && not u.disabled

  -- The account, or the check against a password that nobody has.
  abbrev pub check_login : Option UserRow → String → Result UserRow
  check_login none password = err login_failed
  check_login (some u) password =
      if service.password_matches u.password_hash password then ok u else err login_failed

  abbrev pub day : ℕ
  day = 86_400_000_000_000

  -- `busy` is whether four logins are under way, `secret` what `protocol.NewSecret` mints.
  unfoldable pub login : Bool → String → String → String → ℕ → Db → Tx UserSession
  login busy secret username password now db = do
    reject busy rate_limited
    reject (ltb 254 (len username) || ltb 72 (len password)) login_failed
    u ← check_login (find (is_account username) db.users) password
    reject (any (λ s. s.hash =s= service.digest secret) db.user_sessions) sql_error
    let row : UserSessionRow = record {
      hash = service.digest secret;
      user_id = u.id;
      expires = unix (now + day);
    }
    ok (
      record { user = to_user u; token = secret; expires_at = unix (now + day) },
      record db { user_sessions = db.user_sessions ++ row ∷ [] },
    )

  -- A session row that stands for the bearer of the token.
  abbrev pub is_session : String → ℕ → UserSessionRow → Bool
  is_session token now s = s.hash =s= service.digest token && ltb (unix now) s.expires

  unfoldable pub authenticate_user : String → ℕ → Db → Result User
  authenticate_user token now db = do
    reject (not (len token == 64)) user_unauthorized
    u ←
        or_fail
          (find
            (λ (u : UserRow).
              not u.disabled
              && any (λ s. s.user_id =s= u.id && is_session token now s) db.user_sessions)
            db.users)
          user_unauthorized
    ok (to_user u)

  unfoldable pub logout : String → Db → Tx (Unit {0})
  logout token db = do
    reject (not (count (λ s. s.hash =s= service.digest token) db.user_sessions == 1))
        user_unauthorized
    ok (
      tt,
      record db { user_sessions = delete (λ s. s.hash =s= service.digest token) db.user_sessions },
    )

abbrev pub disable_row : UserRow → UserRow
disable_row u = record u { disabled = true }

-- `network_id IN (SELECT id FROM networks WHERE user_id=?)`
abbrev pub pair_of_user : Db → String → PairRow → Bool
pair_of_user db id p =
    any (λ n. n.id =s= p.network_id && n.user_id =s= id) db.networks && is_open p.state

unfoldable pub disable_user : String → ℕ → Db → Tx (Unit {0})
disable_user id now db = do
  reject (not (count (λ u. u.id =s= id && not u.disabled) db.users == 1)) user_not_found
  ok (
    tt,
    log "user-disabled" id (unix now) (record db {
      users = update (λ u. u.id =s= id && not u.disabled) disable_row db.users;
      user_sessions = delete (λ s. s.user_id =s= id) db.user_sessions;
      pairs = update (pair_of_user db id) revoke_row db.pairs;
    }),
  )
