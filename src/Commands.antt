-- ===== src/Commands.antt =====
-- cmd/dshker-server/main.go: one run of the command, from its arguments to what it leaves on the
-- disk, and config.go, `ReadConfig`.
pub mod Runs
use Prim.Native.Char.{code}
use Prim.Native.String.{len}
use dshker_server.Config.{Config, Parsers, validate}
use dshker_server.Prelude.{
  Bool, List, Option, Result, String, [], any, command_required, config_required,
  config_unavailable, err, get, if◌then◌else◌, invalid_arguments, invalid_config, invalid_fields,
  invalid_user_credentials, length, ltb, none, not, ok, or_fail, reject, some, unknown_command,
  user_id_required, username_required, ℕ, ◌&&◌, ◌==◌, ◌=s=◌, ◌>>=◌, ◌>>◌, ◌||◌, ◌∷◌,
}
use dshker_server.Prelude.Text.{codes}
use dshker_server.Protocol.Ids.{Bytes}
use dshker_server.Protocol.Json.{max_control_bytes}
use dshker_server.Protocol.Service.{Service}
use dshker_server.Storage.{
  FileEntry, Files, Keys, Store, database, initialize, open_store, raw, save,
}
use dshker_server.Store.History.Lifecycle.{then}
use dshker_server.Store.Schema.{Tx}
use dshker_server.Store.Users.{User, create_user, disable_user}

pub data Action : Type 0 where
  serve_action init_action add_action disable_action : Action

unfoldable pub action_of : String → Option Action
action_of name =
    if name =s= "serve"
    then some serve_action
    else if name =s= "init"
    then some init_action
    else if name =s= "user-add"
    then some add_action
    else if name =s= "user-disable"
    then some disable_action
    else none

pub record Flags : Type 0 where
  pub config : String
  pub username : String
  pub user_id : String

-- What a run prints; `serving` is a server that answers from then on.
pub data Report : Type 0 where
  serving initialized disabled_user : Report
  created : User → Report

-- `flag.Parse` with no argument left over, the strict decoder of a configuration, `url.Parse` and
-- `net.ParseIP`, the keys, and the signing service of an open store.
pub record Machine : Type 0 where
  pub parse_flags : List String → Option Flags
  pub decode_config : Bytes → Option Config
  pub parsers : Parsers
  pub keys : Keys
  pub service_of : Store → Service

-- What a run finds: the time, an identifier and a key that it mints, and the text that the
-- password's limited read gives.
pub record Surroundings : Type 0 where
  pub now : ℕ
  pub id : String
  pub key : Bytes
  pub input : String

abbrev pub config_bytes : Option FileEntry → Result Bytes
config_bytes none = err config_unavailable
config_bytes (some f) =
    if not f.regular
    then err invalid_config
    -- A database has a page for each table, more than the limit together.
    else elim f.content [
      | raw b ↦ if ltb max_control_bytes (length b) then err invalid_config else ok b
      | database rows db ↦ err invalid_config
    ]

-- `strings.TrimSuffix` of one character.
unfoldable pub trim_suffix : ℕ → String → String
trim_suffix c String.[] = ""
trim_suffix c (String.◌∷◌ x String.[]) = if code x == c then "" else String.◌∷◌ x ""
trim_suffix c (String.◌∷◌ x (String.◌∷◌ y s)) = String.◌∷◌ x (trim_suffix c (String.◌∷◌ y s))

abbrev pub has_line_break : String → Bool
has_line_break s = any (λ c. c == 13 || c == 10) (codes s)

-- The password of `user-add`.
unfoldable pub read_password : String → Result String
read_password input = do
  let password = trim_suffix 13 (trim_suffix 10 input)
  reject (has_line_break password || ltb 72 (len password)) invalid_user_credentials
  ok password

-- A call of the store, whose tables are written where it succeeds.
unfoldable pub stored : {A : Type 0} → (A → Report) → String → Tx A → Files → Result Report × Files
stored report path (err c) files = (err c, files)
stored report path (ok (a, db)) files = (ok (report a), save path db files)

module _ (mc : Machine) where
  -- `ReadConfig`
  unfoldable pub read_config : Files → String → Result Config
  read_config files path = do
    body ← config_bytes (get path files)
    config ← or_fail (mc.decode_config body) invalid_fields
    validate mc.parsers config
    ok config

  -- The arguments, up to the configuration's path.
  unfoldable pub read_arguments : List String → Result (Action × Flags)
  read_arguments [] = err command_required
  read_arguments (name ∷ args) = do
    action ← or_fail (action_of name) unknown_command
    flags ← or_fail (mc.parse_flags args) invalid_arguments
    reject (flags.config =s= "") config_required
    reject
        ((not (name =s= "user-add") && not (flags.username =s= ""))
          || (not (name =s= "user-disable") && not (flags.user_id =s= "")))
        invalid_arguments
    ok (action, flags)

  unfoldable pub add_user :
      Config → Flags → Surroundings → Store → Result String → Files → Result Report × Files
  add_user config flags w store (err c) files = (err c, files)
  add_user config flags w store (ok password) files =
      stored created config.database_path
        (create_user (mc.service_of store) w.id flags.username password store.db) files

  -- The actions on an open store.
  unfoldable pub perform :
      Action → Config → Flags → Surroundings → Store → Files → Result Report × Files
  perform serve_action config flags w store files =
      (validate mc.parsers config >>= λ _. ok serving, files)
  perform init_action config flags w store files = (err unknown_command, files)
  perform add_action config flags w store files =
      if flags.username =s= ""
      then (err username_required, files)
      else add_user config flags w store (read_password w.input) files
  perform disable_action config flags w store files =
      if flags.user_id =s= ""
      then (err user_id_required, files)
      else stored (λ _. disabled_user) config.database_path
          (disable_user flags.user_id w.now store.db) files

  abbrev pub initialized_with : Result (Unit {0}) × Files → Result Report × Files
  initialized_with (r, files) = (r >>= λ _. ok initialized, files)

  unfoldable pub with_store :
      Action → Config → Flags → Surroundings → Result Store → Files → Result Report × Files
  with_store action config flags w (err c) files = (err c, files)
  with_store action config flags w (ok store) files = perform action config flags w store files

  unfoldable pub with_config :
      Action → Flags → Surroundings → Result Config → Files → Result Report × Files
  with_config action flags w (err c) files = (err c, files)
  with_config init_action flags w (ok config) files =
      initialized_with
        (initialize mc.keys w.key w.now config.database_path config.identity_key_path files)
  with_config action flags w (ok config) files =
      with_store action config flags w
        (open_store mc.keys config.database_path config.identity_key_path files) files

  unfoldable pub with_arguments :
      Surroundings → Result (Action × Flags) → Files → Result Report × Files
  with_arguments w (err c) files = (err c, files)
  with_arguments w (ok (action, flags)) files =
      with_config action flags w (read_config files flags.config) files

  -- `run`
  unfoldable pub run_command : List String → Surroundings → Files → Result Report × Files
  run_command args w files = with_arguments w (read_arguments args) files
