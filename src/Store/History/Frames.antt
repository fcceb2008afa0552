-- ===== src/Store/History/Frames.antt =====
-- The tables that the operations on accounts, networks and bindings can change.
use dshker_server.Prelude.{Bool, String, arith, commit, commit-all, ok, refl, ℕ, ◌≡◌}
use dshker_server.Protocol.Service.{Service}
use dshker_server.Store.Bindings.{bind_device, delete_network, delete_pair, unbind_device}
use dshker_server.Store.Networks.{create_network, rename_network, update_network_limit}
use dshker_server.Store.Schema.{Db, Tx}
use dshker_server.Store.Users.{create_user, disable_user, login, logout}

-- `f db db'` is `db` with the touched tables of `db'`.
pub framed :
    {A : Type 0} (f : Db → Db → Db) (r : Tx A) (db : Db)
    → db ≡ f db db
    → ((a : A) (db' : Db) → r ≡ ok (a, db') → db' ≡ f db db')
    → commit db r ≡ f db (commit db r)
framed f r db same h = commit-all (λ s. s ≡ f db s) db r same h

abbrev pub create_user_touched : Db → Db → Db
create_user_touched db s = record db { users = s.users }

pub create_user_frame :
    (service : Service) (id email password : String) (db : Db)
    → let s = commit db (create_user service id email password db) in s ≡ create_user_touched db s
unfolding create_user
create_user_frame service id email password db =
    framed create_user_touched (create_user service id email password db) db refl
      λ a s h. ground arith

abbrev pub login_touched : Db → Db → Db
login_touched db s = record db { user_sessions = s.user_sessions }

pub login_frame :
    (service : Service) (busy : Bool) (secret username password : String) (now : ℕ) (db : Db)
    → let s = commit db (login service busy secret username password now db) in
      s ≡ login_touched db s
unfolding login
login_frame service busy secret username password now db =
    framed login_touched (login service busy secret username password now db) db refl
      λ a s h. ground arith

abbrev pub logout_touched : Db → Db → Db
logout_touched db s = record db { user_sessions = s.user_sessions }

pub logout_frame :
    (service : Service) (token : String) (db : Db)
    → let s = commit db (logout service token db) in s ≡ logout_touched db s
unfolding logout
logout_frame service token db =
    framed logout_touched (logout service token db) db refl λ a s h. ground arith

abbrev pub disable_user_touched : Db → Db → Db
disable_user_touched db s = record db {
  users = s.users;
  user_sessions = s.user_sessions;
  pairs = s.pairs;
  audit = s.audit;
}

pub disable_user_frame :
    (id : String) (now : ℕ) (db : Db)
    → let s = commit db (disable_user id now db) in s ≡ disable_user_touched db s
unfolding disable_user
disable_user_frame id now db =
    framed disable_user_touched (disable_user id now db) db refl λ a s h. ground arith

abbrev pub create_network_touched : Db → Db → Db
create_network_touched db s = record db { networks = s.networks }

pub create_network_frame :
    (id user_id name : String) (db : Db)
    → let s = commit db (create_network id user_id name db) in s ≡ create_network_touched db s
unfolding create_network
create_network_frame id user_id name db =
    framed create_network_touched (create_network id user_id name db) db refl λ a s h. ground arith

abbrev pub rename_network_touched : Db → Db → Db
rename_network_touched db s = record db { networks = s.networks }

pub rename_network_frame :
    (user_id id name : String) (db : Db)
    → let s = commit db (rename_network user_id id name db) in s ≡ rename_network_touched db s
unfolding rename_network
rename_network_frame user_id id name db =
    framed rename_network_touched (rename_network user_id id name db) db refl λ a s h. ground arith

abbrev pub update_network_limit_touched : Db → Db → Db
update_network_limit_touched db s = record db { networks = s.networks; audit = s.audit }

pub update_network_limit_frame :
    (user_id id : String) (limit now : ℕ) (db : Db)
    → let s = commit db (update_network_limit user_id id limit now db) in
      s ≡ update_network_limit_touched db s
unfolding update_network_limit
update_network_limit_frame user_id id limit now db =
    framed update_network_limit_touched (update_network_limit user_id id limit now db) db refl
      λ a s h. ground arith

abbrev pub delete_network_touched : Db → Db → Db
delete_network_touched db s = record db {
  networks = s.networks;
  bindings = s.bindings;
  tokens = s.tokens;
  shares = s.shares;
  pairs = s.pairs;
  audit = s.audit;
}

pub delete_network_frame :
    (user_id id : String) (now : ℕ) (db : Db)
    → let s = commit db (delete_network user_id id now db) in s ≡ delete_network_touched db s
unfolding delete_network
delete_network_frame user_id id now db =
    framed delete_network_touched (delete_network user_id id now db) db refl λ a s h. ground arith

abbrev pub bind_device_touched : Db → Db → Db
bind_device_touched db s = record db { bindings = s.bindings }

pub bind_device_frame :
    (user_id network_id device_id : String) (db : Db)
    → let s = commit db (bind_device user_id network_id device_id db) in
      s ≡ bind_device_touched db s
unfolding bind_device
bind_device_frame user_id network_id device_id db =
    framed bind_device_touched (bind_device user_id network_id device_id db) db refl
      λ a s h. ground arith

abbrev pub unbind_device_touched : Db → Db → Db
unbind_device_touched db s = record db {
  bindings = s.bindings;
  pairs = s.pairs;
  shares = s.shares;
  audit = s.audit;
}

pub unbind_device_frame :
    (user_id network_id device_id : String) (now : ℕ) (db : Db)
    → let s = commit db (unbind_device user_id network_id device_id now db) in
      s ≡ unbind_device_touched db s
unfolding unbind_device
unbind_device_frame user_id network_id device_id now db =
    framed unbind_device_touched (unbind_device user_id network_id device_id now db) db refl
      λ a s h. ground arith

abbrev pub delete_pair_touched : Db → Db → Db
delete_pair_touched db s = record db { pairs = s.pairs; audit = s.audit }

pub delete_pair_frame :
    (user_id network_id pair_id : String) (now : ℕ) (db : Db)
    → let s = commit db (delete_pair user_id network_id pair_id now db) in
      s ≡ delete_pair_touched db s
unfolding delete_pair
delete_pair_frame user_id network_id pair_id now db =
    framed delete_pair_touched (delete_pair user_id network_id pair_id now db) db refl
      λ a s h. ground arith
