-- ===== src/Api/Requests.antt =====
-- internal/coordinator/server.go and user_api.go: a request, its body and who sent it.
use Prim.Native.Char.{code}
use dshker_server.Prelude.{
  Bool, List, Option, Result, String, [], device_unauthorized, err, if◌then◌else◌,
  invalid_content_type, invalid_pairing_code, none, not, ok, or_fail, reject, request_interrupted,
  some, suc, user_unauthorized, zero, ℕ, ◌+◌, ◌==◌, ◌=s=◌, ◌>>=◌, ◌>>◌, ◌∷◌,
}
use dshker_server.Prelude.Int.{ℤ}
use dshker_server.Prelude.Text.{codes}
use dshker_server.Protocol.Ids.{Bytes}
use dshker_server.Protocol.Json.{Token, decode, max_control_bytes}
use dshker_server.Protocol.Service.{Service}
use dshker_server.Store.Certificates.{
  Certificate, CertificateRecovery, EnrollmentQuery, Renewal, authenticate,
}
use dshker_server.Store.Enrollment.{DeviceTelemetry, Enrollment, NetworkJoin}
use dshker_server.Store.Pairing.{Device, Share}
use dshker_server.Store.Schema.{Db}
use dshker_server.Store.Users.{User, authenticate_user}

-- What gin and net/http hand on. `remote_ip` is what `net.SplitHostPort` makes of the remote
-- address, `path` the segments of the URL's path, `body` what can be read of the body.
pub record Request : Type 0 where
  pub remote_ip : Option String
  pub tls : Bool
  pub peer_certificates : List Certificate
  pub raw_query : String
  pub method : String
  pub path : List String
  pub authorization : List String
  pub origin : String
  pub content_type : String
  pub body : Option Bytes

pub record LoginRequest : Type 0 where
  pub username : String
  pub password : String

pub record RegisterRequest : Type 0 where
  pub email : String
  pub password : String

pub record PairActionRequest : Type 0 where
  pub pair_id : String
  pub action : String
  pub fingerprint : String

pub record BeginRequest : Type 0 where
  pub pair_id : String
  pub generation : ℕ

pub record LeaseRequest : Type 0 where
  pub pair_id : String
  pub attempt_id : String

pub record HeartbeatRequest : Type 0 where
  pub version : String
  pub platform : String
  pub architecture : String
  pub user_id : String

-- `heartbeatRequest.telemetry`
abbrev pub telemetry_of : HeartbeatRequest → DeviceTelemetry
telemetry_of r = record {
  version = r.version;
  platform = r.platform;
  architecture = r.architecture;
}

-- encoding/json over the bytes of a body: its tokens, the keys of a top-level object, and the
-- strict decoder of each type. A type with one text is read by `strict_text` of its field's name;
-- `strict_share` reads the bytes of a pairing code, which `decode_base64` gives.
pub record Bodies : Type 0 where
  pub tokens : Bytes → List Token
  pub fields : Bytes → Option (List String)
  pub strict_text : String → Bytes → Option String
  pub strict_nothing : Bytes → Option (Unit {0})
  pub strict_limit : Bytes → Option ℤ
  pub strict_login : Bytes → Option LoginRequest
  pub strict_register : Bytes → Option RegisterRequest
  pub strict_enrollment : Bytes → Option Enrollment
  pub strict_join : Bytes → Option NetworkJoin
  pub strict_query : Bytes → Option EnrollmentQuery
  pub strict_recovery : Bytes → Option CertificateRecovery
  pub strict_renewal : Bytes → Option Renewal
  pub strict_heartbeat : Bytes → Option HeartbeatRequest
  pub strict_action : Bytes → Option PairActionRequest
  pub strict_begin : Bytes → Option BeginRequest
  pub strict_lease : Bytes → Option LeaseRequest
  pub strict_share : Bytes → Option Share
  pub decode_base64 : String → Option Bytes

abbrev pub take : ℕ → Bytes → Bytes
take zero xs = []
take (suc n) [] = []
take (suc n) (x ∷ xs) = x ∷ take n xs

module _ (bodies : Bodies) where
  -- `readBody`: at most one byte more than the limit is read, which `Decode` then refuses.
  unfoldable pub read_body {ℓ} :
      {A : Type ℓ} → (Bytes → Option A) → List String → Request → Result A
  read_body strict names request = do
    reject (not (request.content_type =s= "application/json")) invalid_content_type
    body ← or_fail request.body request_interrupted
    decode bodies.tokens strict bodies.fields names (take (max_control_bytes + 1) body)

  -- The JSON names of a type's fields are its struct tags.
  abbrev pub read_text : String → Request → Result String
  read_text name = read_body (bodies.strict_text name) (name ∷ [])

  -- The code of `/v1/invite`: base64 of a share's JSON.
  abbrev pub read_share : String → Result Share
  read_share code = do
    encoded ← or_fail (bodies.decode_base64 code) invalid_pairing_code
    decode bodies.tokens bodies.strict_share bodies.fields
        ("version" ∷ "serviceId" ∷ "networkId" ∷ "deviceId" ∷ "fingerprint" ∷ "nonce" ∷ "expiresAt"
          ∷ "signature" ∷ [])
        encoded

-- `authenticate`: the device of the one certificate that the client showed.
abbrev pub authenticate_peer : Db → List Certificate → Result Device
authenticate_peer db [] = err device_unauthorized
authenticate_peer db (certificate ∷ []) = authenticate db (some certificate)
authenticate_peer db (_ ∷ _ ∷ _) = err device_unauthorized

unfoldable pub request_device : Db → Request → Result Device
request_device db request = do
  reject (not request.tls) device_unauthorized
  authenticate_peer db request.peer_certificates

-- `strings.TrimPrefix(header, "Bearer ")`, where the header begins so.
abbrev strip : List ℕ → String → Option String
strip [] s = some s
strip (p ∷ ps) String.[] = none
strip (p ∷ ps) (String.◌∷◌ c s) = if p == code c then strip ps s else none

-- The one `Authorization` header of a request.
abbrev pub bearer_token : List String → Result String
bearer_token [] = err user_unauthorized
bearer_token (header ∷ []) = or_fail (strip (codes "Bearer ") header) user_unauthorized
bearer_token (_ ∷ _ ∷ _) = err user_unauthorized

-- Who sends the request, by the middleware of the two groups of routes.
module _ (service : Service) where
  -- The account and the token of its session.
  unfoldable pub request_user : ℕ → Db → Request → Result (User × String)
  request_user now db request = do
    token ← bearer_token request.authorization
    user ← authenticate_user service token now db
    ok (user, token)
