-- ===== src/Storage.antt =====
-- internal/coordinator/store.go and certificates.go (Recover): the identity key and the database
-- as files.
pub mod Fresh
pub mod Recovery
use dshker_server.Prelude.{
  Bool, List, Map, Option, Result, String, [], err, false, file_error, get, identity_mismatch,
  if◌then◌else◌, invalid_database, invalid_identity, is_some, none, not, ok, or_fail, put, reject,
  some, state_already_exists, state_unavailable_or_insecure, true, unsupported_schema, ℕ, ◌&&◌,
  ◌==◌, ◌=s=◌, ◌>>=◌, ◌>>◌, ◌||◌, ◌∷◌, ◌≡◌,
}
use dshker_server.Protocol.Ids.{Bytes, bytes_eq, unix}
use dshker_server.Store.History.{empty_db}
use dshker_server.Store.Networks.{log}
use dshker_server.Store.Schema.{Db}

-- The row of the table `metadata`.
pub record Metadata : Type 0 where
  pub version : ℕ
  pub service_id : String
  pub ca : Bytes

pub data Content : Type 0 where
  raw : Bytes → Content
  -- A SQLite database with the schema.
  database : List Metadata → Db → Content

-- A file by its path. `restricted` is whether no one but the owner has any right to it.
pub record FileEntry : Type 0 where
  pub regular : Bool
  pub restricted : Bool
  pub content : Content

abbrev pub Files : Type 0
Files = Map FileEntry

-- Ed25519 keys, their PEM files and the certificate that the service signs for itself, from the
-- standard library and its crypto packages. A private key is its bytes.
pub record Keys : Type 0 where
  pub public_of : Bytes → Bytes
  pub encode_key : Bytes → Bytes
  -- `pem.Decode` with nothing after the block, and `ParsePKCS8PrivateKey` of an Ed25519 key.
  pub decode_key : Bytes → Option Bytes
  pub key_id : Bytes → String
  pub self_signed : Bytes → ℕ → Bytes
  -- `x509.ParseCertificate`: the Ed25519 key, where it is one, and whether the certificate is
  -- signed by itself.
  pub parse_certificate : Bytes → Option (Option Bytes × Bool)

-- What the code relies on of them.
pub record IsLawfulKeys (k : Keys) : Type 0 where
  pub decode-encode : (key : Bytes) → k.decode_key (k.encode_key key) ≡ some key
  pub parse-self_signed :
      (key : Bytes) (now : ℕ)
      → k.parse_certificate (k.self_signed key now) ≡ some (some (k.public_of key), true)

-- `Store`, as it is opened.
pub record Store : Type 0 where
  pub db : Db
  pub key : Bytes
  pub ca : Bytes
  pub service_id : String

abbrev pub schema_version : ℕ
schema_version = 6

abbrev pub exists : String → Files → Bool
exists path files = is_some (get path files)

-- `exclusiveFile`: `O_CREATE|O_EXCL`, mode 0600.
unfoldable pub exclusive_file : String → Bytes → Files → Result Files
exclusive_file path content files = do
  reject (exists path files) file_error
  ok (put path (record { regular = true; restricted = true; content = raw content }) files)

abbrev pub fresh_metadata : Keys → Bytes → ℕ → Metadata
fresh_metadata k key now = record {
  version = schema_version;
  service_id = k.key_id (k.public_of key);
  ca = k.self_signed key now;
}

-- The schema and its one row of metadata, in one transaction.
abbrev pub with_schema : Keys → Bytes → ℕ → String → Files → Files
with_schema k key now path files =
    put path
      (record {
        regular = true;
        restricted = true;
        content = database (fresh_metadata k key now ∷ []) empty_db;
      })
      files

-- What is left on the disk where the second file cannot be made: the first.
abbrev pub database_made :
    Keys → Bytes → ℕ → String → Files → Result Files → Result (Unit {0}) × Files
database_made k key now path files (err c) = (err c, files)
database_made k key now path files (ok made) = (ok tt, with_schema k key now path made)

abbrev pub key_made : Keys → Bytes → ℕ → String → Files → Result Files → Result (Unit {0}) × Files
key_made k key now path files (err c) = (err c, files)
key_made k key now path files (ok made) =
    database_made k key now path made (exclusive_file path [] made)

-- `Initialize`: `key` is what `ed25519.GenerateKey` gives. An error can leave the key's file.
unfoldable pub initialize : Keys → Bytes → ℕ → String → String → Files → Result (Unit {0}) × Files
initialize k key now database_path key_path files =
    if exists database_path files || exists key_path files
    then (err state_already_exists, files)
    else key_made k key now database_path files (exclusive_file key_path (k.encode_key key) files)

abbrev pub is_secure : Option FileEntry → Bool
is_secure none = false
is_secure (some f) = f.regular && f.restricted

abbrev pub plain_bytes : Option FileEntry → Option Bytes
plain_bytes none = none
plain_bytes (some f) = elim f.content [ raw b ↦ some b | database rows db ↦ none ]

abbrev pub tables_of : Option FileEntry → Option (List Metadata × Db)
tables_of none = none
tables_of (some f) = elim f.content [ raw b ↦ none | database rows db ↦ some (rows, db) ]

abbrev pub only_row : List Metadata → Option Metadata
only_row [] = none
only_row (row ∷ []) = some row
only_row (_ ∷ _ ∷ _) = none

abbrev pub is_own : Keys → Bytes → Metadata → Option Bytes × Bool → Bool
is_own k key row (none, self) = false
is_own k key row (some public, self) =
    bytes_eq public (k.public_of key) && row.service_id =s= k.key_id public && self

-- `validate`
unfoldable pub validate_store : Keys → Bytes → List Metadata × Db → Result Store
validate_store k key (rows, db) = do
  row ← or_fail (only_row rows) invalid_database
  reject (not (row.version == schema_version)) unsupported_schema
  certificate ← or_fail (k.parse_certificate row.ca) invalid_identity
  reject (not (is_own k key row certificate)) identity_mismatch
  ok (record { db = db; key = key; ca = row.ca; service_id = row.service_id })

-- `OpenStore`, on a POSIX system.
unfoldable pub open_store : Keys → String → String → Files → Result Store
open_store k database_path key_path files = do
  reject (not (is_secure (get database_path files) && is_secure (get key_path files)))
      state_unavailable_or_insecure
  encoded ← or_fail (plain_bytes (get key_path files)) invalid_identity
  key ← or_fail (k.decode_key encoded) invalid_identity
  tables ← or_fail (tables_of (get database_path files)) invalid_database
  validate_store k key tables

-- A write of the tables to their file.
abbrev pub saved : Db → FileEntry → FileEntry
saved db f = record f {
  content = elim f.content [ raw b ↦ raw b | database rows _ ↦ database rows db ];
}

abbrev pub save_entry : String → Db → Option FileEntry → Files → Files
save_entry path db none files = files
save_entry path db (some f) files = put path (saved db f) files

abbrev pub save : String → Db → Files → Files
save path db files = save_entry path db (get path files) files

abbrev pub recovered : String → String → ℕ → Files → Result Store → Result (Unit {0}) × Files
recovered path service_id now files (err c) = (err c, files)
recovered path service_id now files (ok store) =
    (ok tt, save path (log "recovered-without-authorizations" service_id (unix now) store.db) files)

abbrev pub after_initialize :
    Keys → String → String → String → ℕ → Result (Unit {0}) × Files → Result (Unit {0}) × Files
after_initialize k service_id database_path key_path now (err c, files) = (err c, files)
after_initialize k service_id database_path key_path now (ok _, files) =
    recovered database_path service_id now files (open_store k database_path key_path files)

-- `Recover`: a new store beside the old one, whose service id it only notes.
unfoldable pub recover :
    Keys → Bytes → String → ℕ → String → String → Files → Result (Unit {0}) × Files
recover k key service_id now database_path key_path files =
    after_initialize k service_id database_path key_path now
      (initialize k key now database_path key_path files)
