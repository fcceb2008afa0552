-- ===== src/Storage/Recovery.antt =====
-- internal/coordinator/certificates.go, `Recover`: the new store keeps no authorization.
use dshker_server.Prelude.{
  String, [], ap, arith, false, get, ok, put, refl, some, str_iff, str_refl, true, ℕ, ◌=s=◌, ◌∷◌,
  ◌≡◌,
}
use dshker_server.Protocol.Ids.{Bytes, unix}
use dshker_server.Storage.{
  FileEntry, Files, IsLawfulKeys, Keys, database, exists, fresh_metadata, open_store, recover, save,
  validate_store,
}
use dshker_server.Storage.Fresh.{
  bytes_refl, database_entry, fresh_database, fresh_files, fresh_key, fresh_store, initialize-ok,
  open_store-fresh, put_other, put_same,
}
use dshker_server.Store.History.{empty_db}
use dshker_server.Store.Networks.{log}
use dshker_server.Store.Schema.{Db}

module _ (k : Keys) where
  -- The tables of a recovered store: one line of the audit.
  abbrev pub recovered_db : String → ℕ → Db
  recovered_db service_id now =
      log "recovered-without-authorizations" service_id (unix now) empty_db

  recovered_entry : String → Bytes → ℕ → FileEntry
  recovered_entry service_id key now = record {
    regular = true;
    restricted = true;
    content = database (fresh_metadata k key now ∷ []) (recovered_db service_id now);
  }

  save_fresh :
      (path : String) (db : Db) (key : Bytes) (now : ℕ) (files : Files)
      → get path files ≡ some (database_entry k key now)
      → save path db files
        ≡ put path
            (record {
              regular = true;
              restricted = true;
              content = database (fresh_metadata k key now ∷ []) db;
            })
            files
  save_fresh path db key now files e = rw e refl

  recover_lem :
      (key : Bytes) (service_id : String) (now : ℕ) (database_path key_path : String)
      (files : Files)
      → IsLawfulKeys k
      → exists database_path files ≡ false
      → exists key_path files ≡ false
      → (database_path =s= key_path) ≡ false
      → recover k key service_id now database_path key_path files ≡ (
        ok tt,
        put database_path
            (recovered_entry service_id key now)
            (fresh_files k key now database_path key_path files),
      )
  unfolding recover recovered_entry
  recover_lem key service_id now database_path key_path files lawful no_db no_key apart =
      let back : (key_path =s= database_path) ≡ false =
        ground (arith, str_iff key_path database_path, str_iff database_path key_path, apart) in
      rw
        (
          initialize-ok k key now database_path key_path files no_db no_key back,
          open_store-fresh k key now database_path key_path files lawful apart,
        )
        (ap (λ f. (ok tt, f))
          (save_fresh database_path (recovered_db service_id now) key now
            (fresh_files k key now database_path key_path files)
            (fresh_database k key now database_path key_path files)))

  validate_recovered :
      (key : Bytes) (db : Db) (now : ℕ)
      → IsLawfulKeys k
      → validate_store k key (fresh_metadata k key now ∷ [], db)
        ≡ ok (record (fresh_store k key now) { db = db })
  unfolding validate_store
  validate_recovered key db now lawful =
      rw (lawful.parse-self_signed key now)
        (rw (bytes_refl (k.public_of key), str_refl (k.key_id (k.public_of key))) refl)

  -- With keys and certificates that are read as they were written, at two different paths where
  -- nothing is, `Recover` succeeds and leaves a store that opens under a new identity with no
  -- account, session, network or device, and one line in its audit.
  pub open_store-recover :
      (key : Bytes) (service_id : String) (now : ℕ) (database_path key_path : String)
      (files : Files)
      → IsLawfulKeys k
      → exists database_path files ≡ false
      → exists key_path files ≡ false
      → (database_path =s= key_path) ≡ false
      → let made = recover k key service_id now database_path key_path files in
        (made.0 ≡ ok tt)
        × (open_store k database_path key_path made.1
            ≡ ok (record (fresh_store k key now) { db = recovered_db service_id now }))
  unfolding open_store recovered_entry
  open_store-recover key service_id now database_path key_path files lawful no_db no_key apart =
      let fresh = fresh_files k key now database_path key_path files in
      let entry = recovered_entry service_id key now in
      rw (recover_lem key service_id now database_path key_path files lawful no_db no_key apart) (
        refl,
        rw
            (
              put_same database_path entry fresh,
              put_other database_path key_path entry fresh apart,
              fresh_key k key now database_path key_path files apart,
              lawful.decode-encode key,
            )
            (validate_recovered key (recovered_db service_id now) now lawful),
      )
