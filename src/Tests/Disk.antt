-- ===== src/Tests/Disk.antt =====
-- Files of a fresh store, its recovery, and runs of the command.
use dshker_server.Commands.{
  Machine, Surroundings, action_of, add_user, created, perform, read_arguments, read_config,
  read_password, run_command, stored, trim_suffix, with_arguments, with_config, with_store,
}
use dshker_server.Commands.Runs.{Configured, Initializes, SavesCall, run_command-moves}
use dshker_server.Config.{Config, turn_listen, valid_endpoint, validate, validate_relay}
use dshker_server.Prelude.{String, [], false, get, ok, refl, some, true, ◌=s=◌, ◌∷◌, ◌≡◌, ◌⊎◌}
use dshker_server.Protocol.Addresses.{atoi, split_first, split_host_port, split_last}
use dshker_server.Protocol.Ids.{Bytes}
use dshker_server.Storage.{
  FileEntry, Files, IsLawfulKeys, Keys, exclusive_file, initialize, open_store, raw, recover,
  validate_store,
}
use dshker_server.Storage.Fresh.{fresh_store, initialize-keeps, open_store-initialize}
use dshker_server.Storage.Recovery.{open_store-recover, recovered_db}
use dshker_server.Store.Users.{create_user, email_matches}
use dshker_server.Tests.Settings.{parsers, settings}
use dshker_server.Tests.Toy.{noon, toy}

abbrev keys : Keys
keys = record {
  public_of = λ key. key;
  encode_key = λ key. key;
  decode_key = λ pem. some pem;
  key_id = toy.key_id;
  self_signed = λ key now. key;
  parse_certificate = λ certificate. some (some certificate, true);
}

keys_lawful : IsLawfulKeys keys
keys_lawful = record { decode-encode = λ key. refl; parse-self_signed = λ key now. refl }

abbrev config_file : FileEntry
config_file = record { regular = true; restricted = false; content = raw (b'{' ∷ b'}' ∷ []) }

abbrev disk : Files
disk = ("/etc/d/config.json", config_file) ∷ []

abbrev fresh_key_bytes : Bytes
fresh_key_bytes = 7 ∷ []

open_store-initialize_example :
    let made = initialize keys fresh_key_bytes noon "/var/d/db" "/var/d/key" disk in
    (made.0 ≡ ok tt)
    × (open_store keys "/var/d/db" "/var/d/key" made.1 ≡ ok (fresh_store keys fresh_key_bytes noon))
    × ((other : String)
        → ("/var/d/db" =s= other) ≡ false
        → ("/var/d/key" =s= other) ≡ false
        → get other made.1 ≡ get other disk)
open_store-initialize_example =
    open_store-initialize keys fresh_key_bytes noon "/var/d/db" "/var/d/key" disk keys_lawful refl
      refl refl

initialize-keeps_example :
    get "/etc/d/config.json" (initialize keys fresh_key_bytes noon "/var/d/db" "/var/d/key" disk).1
    ≡ some config_file
initialize-keeps_example =
    initialize-keeps keys fresh_key_bytes noon "/var/d/db" "/var/d/key" "/etc/d/config.json" disk
      config_file refl

open_store-recover_example :
    let made = recover keys fresh_key_bytes "cccccccccccc" noon "/var/d/db" "/var/d/key" disk in
    (made.0 ≡ ok tt)
    × (open_store keys "/var/d/db" "/var/d/key" made.1
        ≡ ok (record (fresh_store keys fresh_key_bytes noon) {
          db = recovered_db keys "cccccccccccc" noon;
        }))
open_store-recover_example =
    open_store-recover keys fresh_key_bytes "cccccccccccc" noon "/var/d/db" "/var/d/key" disk
      keys_lawful refl refl refl

abbrev shell : Machine
shell = record {
  parse_flags = λ args.
      some (record { config = "/etc/d/config.json"; username = "ann@example.org"; user_id = "" });
  decode_config = λ body. some settings;
  parsers = parsers;
  keys = keys;
  service_of = λ store. toy;
}

abbrev typed : Surroundings
typed = record { now = noon; id = "a00000000000"; key = fresh_key_bytes; input = "correct horse\n" }

abbrev installed : Files
installed = (initialize keys fresh_key_bytes noon "/var/d/db" "/var/d/key" disk).1

added :
    (run_command shell ("user-add" ∷ []) typed installed).0
    ≡ ok (created (record { id = "a00000000000"; username = "ann@example.org" }))
unfolding run_command with_arguments read_arguments action_of with_config read_config validate
    validate_relay valid_endpoint split_host_port split_last split_first atoi turn_listen with_store
    open_store validate_store initialize exclusive_file perform add_user read_password trim_suffix
    stored create_user email_matches
added = refl

run_command-moves_example :
    let after = (run_command shell ("user-add" ∷ []) typed installed).1 in
    (after ≡ installed)
    ⊎ ((config : Config) × Configured shell installed config
        × (SavesCall shell typed installed config after
            ⊎ Initializes shell typed installed config after))
run_command-moves_example = run_command-moves shell ("user-add" ∷ []) typed installed
