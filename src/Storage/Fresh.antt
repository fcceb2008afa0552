-- ===== src/Storage/Fresh.antt =====
-- internal/coordinator/store.go: a store that has been made opens, and nothing is overwritten.
use dshker_server.Prelude.{
  Bool, Bool-cases, Result-cases, String, [], ap, arith, false, file_error, get, get-put, inl, inr,
  is_some, ok, ok_inj, put, refl, reject_ok, some, str_iff, str_refl, true, ℕ, ◌=s=◌, ◌||◌, ◌∙◌,
  ◌∷◌, ◌≡◌,
}
use dshker_server.Protocol.Ids.{Bytes, bytes_eq}
use dshker_server.Storage.{
  FileEntry, Files, IsLawfulKeys, Keys, Store, database, database_made, exclusive_file, exists,
  fresh_metadata, initialize, open_store, raw, validate_store, with_schema,
}
use dshker_server.Store.History.{empty_db}

pub bytes_refl : (b : Bytes) → bytes_eq b b ≡ true
bytes_refl [] = refl
bytes_refl (x ∷ b) = ground (arith, bytes_refl b)

pub put_same :
    (path : String) (f : FileEntry) (files : Files) → get path (put path f files) ≡ some f
put_same path f files = ground (arith, str_refl path)

pub put_other :
    (path other : String) (f : FileEntry) (files : Files)
    → (path =s= other) ≡ false
    → get other (put path f files) ≡ get other files
put_other path other f files apart = get-put path other f files ∙ rw apart refl

abbrev pub empty_entry : FileEntry
empty_entry = record { regular = true; restricted = true; content = raw [] }

or_false : (a b : Bool) → (a || b) ≡ false → a ≡ false
or_false true b h = h
or_false false b h = refl

module _ (k : Keys) where
  -- The two files of a fresh store.
  abbrev pub fresh_files : Bytes → ℕ → String → String → Files → Files
  fresh_files key now database_path key_path files = with_schema k key now database_path (
      put database_path (empty_entry) (
        put key_path
          (record { regular = true; restricted = true; content = raw (k.encode_key key) }) files))

  pub initialize-ok :
      (key : Bytes) (now : ℕ) (database_path key_path : String) (files : Files)
      → exists database_path files ≡ false
      → exists key_path files ≡ false
      → (key_path =s= database_path) ≡ false
      → initialize k key now database_path key_path files
        ≡ (ok tt, fresh_files key now database_path key_path files)
  unfolding initialize exclusive_file
  initialize-ok key now database_path key_path files no_db no_key apart =
      rw (no_db, no_key)
        (rw
          (ap is_some (
            get-put key_path database_path
              (record { regular = true; restricted = true; content = raw (k.encode_key key) })
              files))
          (rw (apart, no_db) refl))

  abbrev pub fresh_store : Bytes → ℕ → Store
  fresh_store key now = record {
    db = empty_db;
    key = key;
    ca = k.self_signed key now;
    service_id = k.key_id (k.public_of key);
  }

  abbrev pub key_entry : Bytes → FileEntry
  key_entry key = record { regular = true; restricted = true; content = raw (k.encode_key key) }

  abbrev pub database_entry : Bytes → ℕ → FileEntry
  database_entry key now = record {
    regular = true;
    restricted = true;
    content = database (fresh_metadata k key now ∷ []) empty_db;
  }

  fresh_files-other :
      (key : Bytes) (now : ℕ) (database_path key_path other : String) (files : Files)
      → (database_path =s= other) ≡ false
      → (key_path =s= other) ≡ false
      → get other (fresh_files key now database_path key_path files) ≡ get other files
  fresh_files-other key now database_path key_path other files a b =
      let first = put key_path (key_entry key) files in
      let second = put database_path (empty_entry) first in
      put_other database_path other (database_entry key now) second a
      ∙ put_other database_path other empty_entry first a
      ∙ put_other key_path other (key_entry key) files b

  pub fresh_database :
      (key : Bytes) (now : ℕ) (database_path key_path : String) (files : Files)
      → get database_path (fresh_files key now database_path key_path files)
        ≡ some (database_entry key now)
  fresh_database key now database_path key_path files = ground (arith, str_refl database_path)

  pub fresh_key :
      (key : Bytes) (now : ℕ) (database_path key_path : String) (files : Files)
      → (database_path =s= key_path) ≡ false
      → get key_path (fresh_files key now database_path key_path files) ≡ some (key_entry key)
  fresh_key key now database_path key_path files apart =
      let first = put key_path (key_entry key) files in
      let second = put database_path (empty_entry) first in
      put_other database_path key_path (database_entry key now) second apart
      ∙ put_other database_path key_path empty_entry first apart
      ∙ put_same key_path (key_entry key) files

  validate_fresh :
      (key : Bytes) (now : ℕ)
      → IsLawfulKeys k
      → validate_store k key (fresh_metadata k key now ∷ [], empty_db) ≡ ok (fresh_store key now)
  unfolding validate_store
  validate_fresh key now lawful =
      rw (lawful.parse-self_signed key now)
        (rw (bytes_refl (k.public_of key), str_refl (k.key_id (k.public_of key))) refl)

  pub open_store-fresh :
      (key : Bytes) (now : ℕ) (database_path key_path : String) (files : Files)
      → IsLawfulKeys k
      → (database_path =s= key_path) ≡ false
      → open_store k database_path key_path (fresh_files key now database_path key_path files)
        ≡ ok (fresh_store key now)
  unfolding open_store
  open_store-fresh key now database_path key_path files lawful apart =
      rw
        (
          fresh_database key now database_path key_path files,
          fresh_key key now database_path key_path files apart,
          lawful.decode-encode key,
        )
        (validate_fresh key now lawful)

  -- With keys and certificates that are read as they were written, at two different paths where
  -- nothing is, `Initialize` succeeds and what it leaves opens as an empty store with the new
  -- key, its certificate and its identifier; every other path is as it was.
  pub open_store-initialize :
      (key : Bytes) (now : ℕ) (database_path key_path : String) (files : Files)
      → IsLawfulKeys k
      → exists database_path files ≡ false
      → exists key_path files ≡ false
      → (database_path =s= key_path) ≡ false
      → let made = initialize k key now database_path key_path files in
        (made.0 ≡ ok tt)
        × (open_store k database_path key_path made.1 ≡ ok (fresh_store key now))
        × ((other : String)
            → (database_path =s= other) ≡ false
            → (key_path =s= other) ≡ false
            → get other made.1 ≡ get other files)
  open_store-initialize key now database_path key_path files lawful no_db no_key apart =
      let back : (key_path =s= database_path) ≡ false =
        ground (arith, str_iff key_path database_path, str_iff database_path key_path, apart) in
      rw (initialize-ok key now database_path key_path files no_db no_key back) (
        refl,
        open_store-fresh key now database_path key_path files lawful apart,
        λ other a b. fresh_files-other key now database_path key_path other files a b,
      )

  absent_ne :
      (path other : String) (files : Files) (f : FileEntry)
      → exists path files ≡ false
      → get other files ≡ some f
      → (path =s= other) ≡ false
  absent_ne path other files f absent there = elim (Bool-cases (path =s= other)) [
    | inr e ↦ e
    | inl e ↦ absurd (some_absent (ap (λ p. get p files) ((str_iff path other).0 e) ∙ there))
  ]
    where
      some_absent : ¬ (get path files ≡ some f)
      some_absent h = ground arith

  exclusive_file-keeps :
      (path other : String) (content : Bytes) (files made : Files) (f : FileEntry)
      → exclusive_file path content files ≡ ok made
      → get other files ≡ some f
      → get other made ≡ some f
  unfolding exclusive_file
  exclusive_file-keeps path other content files made f h there =
      let written = record empty_entry { content = raw content } in
      let (absent, e) = reject_ok (exists path files) file_error (ok (put path written files)) h in
      rw (← ok_inj e)
        (put_other path other written files (absent_ne path other files f absent there) ∙ there)

  database_made-keeps :
      (key : Bytes) (now : ℕ) (path other : String) (made : Files) (f : FileEntry)
      → (path =s= other) ≡ false
      → get other made ≡ some f
      → get other (database_made k key now path made (exclusive_file path [] made)).1 ≡ some f
  database_made-keeps key now path other made f apart there =
      elim (Result-cases (exclusive_file path [] made)) [
        | inl (c, e) ↦ rw e there
        | inr (again, e) ↦ rw e (
            put_other path other (database_entry key now) again apart
            ∙ exclusive_file-keeps path other [] made again f e there)
      ]

  -- Whether it succeeds or fails, `Initialize` leaves every file that was there as it was.
  pub initialize-keeps :
      (key : Bytes) (now : ℕ) (database_path key_path other : String) (files : Files)
      (f : FileEntry)
      → get other files ≡ some f
      → get other (initialize k key now database_path key_path files).1 ≡ some f
  unfolding initialize
  initialize-keeps key now database_path key_path other files f there =
      elim (Bool-cases (exists database_path files || exists key_path files)) [
        | inl e ↦ rw e there
        | inr e ↦
            let apart =
              absent_ne database_path other files f
                (or_false (exists database_path files) (exists key_path files) e) there in
            rw e (elim (Result-cases (exclusive_file key_path (k.encode_key key) files)) [
              | inl (c, g) ↦ rw g there
              | inr (made, g) ↦ rw g (
                  database_made-keeps key now database_path other made f apart
                    (exclusive_file-keeps key_path other (k.encode_key key) files made f g there))
            ])
      ]
