-- ===== src/Protocol/Service.antt =====
-- What the coordinator takes from the cryptographic libraries and from its identity file: hashes,
-- signatures, certificates. The functions are parameters; `Lawful` states what the code relies on.
use dshker_server.Prelude.{Bool, List, Option, Result, String, true, ℕ, ◌≡◌}
use dshker_server.Protocol.Ids.{Bytes, valid_id}

-- One entry of the JSON array that is signed.
pub data Scalar : Type 0 where
  text : String → Scalar
  num : ℕ → Scalar
  blob : Bytes → Scalar

pub record Service : Type 0 where
  -- `store.ServiceID`, and the public half of `store.key`.
  pub service_id : String
  pub public_key : Bytes
  -- `digest`: SHA-256, in hex.
  pub digest : String → String
  -- `protocol.KeyID`
  pub key_id : Bytes → String
  -- `base64(ed25519.Sign(store.key, json))` of the array's JSON.
  pub sign : List Scalar → String
  -- base64 decoding and `ed25519.Verify` under a public key of the right size.
  pub verify : Bytes → List Scalar → String → Bool
  -- `bcrypt.CompareHashAndPassword(hash, password) == nil`
  pub password_matches : Bytes → String → Bool
  -- `bcrypt.GenerateFromPassword(password, 12)`
  pub hash_password : String → Bytes
  -- `store.unknownPassword`
  pub unknown_password : Bytes
  -- `csrKey`: the Ed25519 key of a PEM request whose signature holds.
  pub csr_key : String → Result Bytes
  -- `issueCertificate`, and `NotAfter` of a certificate in nanoseconds, where it parses.
  pub issue_certificate : String → Bytes → ℕ → Bytes
  pub not_after : Bytes → Option ℕ

-- What the code relies on of the libraries.
pub record Lawful (s : Service) : Type 0 where
  -- A signature that the service made verifies under its own key.
  pub verify-sign : (m : List Scalar) → s.verify s.public_key m (s.sign m) ≡ true
  -- A key id has the shape of an identifier.
  pub key_id_valid : (k : Bytes) → valid_id (s.key_id k) ≡ true
