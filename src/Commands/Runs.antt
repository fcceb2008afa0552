-- ===== src/Commands/Runs.antt =====
-- cmd/dshker-server/main.go: what a run may leave on the disk.
use dshker_server.Api.Devices.{opened}
use dshker_server.Commands.{
  Action, Flags, Machine, Report, Surroundings, add_action, add_user, config_bytes, created,
  disable_action, disabled_user, init_action, perform, read_arguments, read_config, read_password,
  run_command, serve_action, stored, with_arguments, with_config, with_store,
}
use dshker_server.Config.{Config, validate}
use dshker_server.Prelude.{
  Bool-cases, List, Result, Result-cases, String, ap, bind_ok, commit, err, get, inl, inr,
  invalid_fields, ok, ok_inj, or_fail, refl, ◌=s=◌, ◌≡◌, ◌⊎◌,
}
use dshker_server.Storage.{Files, Store, initialize, open_store, save}
use dshker_server.Store.History.{Call, creates_user, disables_user, step}
use dshker_server.Store.Schema.{Tx}
use dshker_server.Store.Users.{create_user, disable_user}

module _ (mc : Machine) where
  -- One call on the tables of the open store, at the time of the run.
  abbrev pub SavesCall : Surroundings → Files → Config → Files → Type 0
  SavesCall w files config after =
      (store : Store) × (c : Call) × (open_store mc.keys config.database_path
          config.identity_key_path files
        ≡ ok store)
      × (after ≡ save config.database_path (step (mc.service_of store) store.db (w.now, c)) files)

  -- The two files of a fresh store.
  abbrev pub Initializes : Surroundings → Files → Config → Files → Type 0
  Initializes w files config after =
      after ≡ (initialize mc.keys w.key w.now config.database_path config.identity_key_path files).1

  -- The configuration that the run has read is one that `Validate` accepts.
  abbrev pub Configured : Files → Config → Type 0
  Configured files config =
      (path : String) × (read_config mc files path ≡ ok config)
      × (validate mc.parsers config ≡ ok tt)

  read_config_ok :
      (files : Files) (path : String) (config : Config)
      → read_config mc files path ≡ ok config
      → validate mc.parsers config ≡ ok tt
  unfolding read_config
  read_config_ok files path config h =
      let (body, _, h1) = bind_ok (config_bytes (get path files)) _ h in
      let (read, _, h2) = bind_ok (or_fail (mc.decode_config body) invalid_fields) _ h1 in
      let (u, good, e) = bind_ok (validate mc.parsers read) (λ _. ok read) h2 in
      rw (← ok_inj e) good

  stored_moves :
      {A : Type 0} (report : A → Report) (w : Surroundings) (config : Config) (store : Store)
      (r : Tx A) (files : Files) (c : Call)
      → open_store mc.keys config.database_path config.identity_key_path files ≡ ok store
      → commit store.db r ≡ step (mc.service_of store) store.db (w.now, c)
      → ((stored report config.database_path r files).1 ≡ files)
        ⊎ SavesCall w files config (stored report config.database_path r files).1
  unfolding stored commit
  stored_moves report w config store (err e) files c opened same = inl refl
  stored_moves report w config store (ok (a, db)) files c opened same =
      inr (store, c, opened, ap (λ t. save config.database_path t files) same)

  perform_moves :
      (action : Action) (config : Config) (flags : Flags) (w : Surroundings) (store : Store)
      (files : Files)
      → open_store mc.keys config.database_path config.identity_key_path files ≡ ok store
      → ((perform mc action config flags w store files).1 ≡ files)
        ⊎ SavesCall w files config (perform mc action config flags w store files).1
  unfolding perform add_user step
  perform_moves serve_action config flags w store files opened = inl refl
  perform_moves init_action config flags w store files opened = inl refl
  perform_moves add_action config flags w store files opened =
      elim (Bool-cases (flags.username =s= "")) [
        | inl e ↦ inl (rw e refl)
        | inr e ↦ elim (Result-cases (read_password w.input)) [
          | inl (c, f) ↦ inl (rw (e, f) refl)
          | inr (password, f) ↦
              rw (e, f)
                (stored_moves created w config store
                  (create_user (mc.service_of store) w.id flags.username password store.db) files
                  (creates_user w.id flags.username password) opened refl)
        ]
      ]
  perform_moves disable_action config flags w store files opened =
      elim (Bool-cases (flags.user_id =s= "")) [
        | inl e ↦ inl (rw e refl)
        | inr e ↦ rw e (
            stored_moves (λ _. disabled_user) w config store
              (disable_user flags.user_id w.now store.db) files (disables_user flags.user_id) opened
              refl)
      ]

  with_store_moves :
      (action : Action) (config : Config) (flags : Flags) (w : Surroundings) (files : Files)
      (r : Result Store)
      → open_store mc.keys config.database_path config.identity_key_path files ≡ r
      → let after = (with_store mc action config flags w r files).1 in
        (after ≡ files) ⊎ (SavesCall w files config after ⊎ Initializes w files config after)
  unfolding with_store
  with_store_moves action config flags w files (err c) e = inl refl
  with_store_moves action config flags w files (ok store) e =
      elim (perform_moves action config flags w store files e) [
        | inl same ↦ inl same
        | inr saves ↦ inr (inl saves)
      ]

  with_config_moves :
      (action : Action) (config : Config) (flags : Flags) (w : Surroundings) (files : Files)
      → let after = (with_config mc action flags w (ok config) files).1 in
        (after ≡ files) ⊎ (SavesCall w files config after ⊎ Initializes w files config after)
  unfolding with_config
  with_config_moves init_action config flags w files = inr (inr refl)
  with_config_moves serve_action config flags w files =
      with_store_moves serve_action config flags w files _ refl
  with_config_moves add_action config flags w files =
      with_store_moves add_action config flags w files _ refl
  with_config_moves disable_action config flags w files =
      with_store_moves disable_action config flags w files _ refl

  read_moves :
      (action : Action) (flags : Flags) (w : Surroundings) (files : Files) (r : Result Config)
      → read_config mc files flags.config ≡ r
      → let after = (with_config mc action flags w r files).1 in
        (after ≡ files)
        ⊎ ((config : Config) × Configured files config
            × (SavesCall w files config after ⊎ Initializes w files config after))
  unfolding with_config
  read_moves action flags w files (err c) e = inl refl
  read_moves action flags w files (ok config) e =
      elim (with_config_moves action config flags w files) [
        | inl same ↦ inl same
        | inr moves ↦
            inr (config, (flags.config, e, read_config_ok files flags.config config e), moves)
      ]

  -- A run of the command leaves the disk as it was, or has read a configuration that `Validate`
  -- accepts and either writes the tables of the open store after one call at its time to the
  -- configured database, or does what `Initialize` does with the two configured paths.
  pub run_command-moves :
      (args : List String) (w : Surroundings) (files : Files)
      → let after = (run_command mc args w files).1 in
        (after ≡ files)
        ⊎ ((config : Config) × Configured files config
            × (SavesCall w files config after ⊎ Initializes w files config after))
  unfolding run_command with_arguments
  run_command-moves args w files = elim (Result-cases (read_arguments mc args)) [
    | inl (c, e) ↦ inl (rw e refl)
    | inr ((action, flags), e) ↦
        rw e (read_moves action flags w files (read_config mc files flags.config) refl)
  ]
