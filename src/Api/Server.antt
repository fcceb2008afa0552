-- ===== src/Api/Server.antt =====
-- internal/coordinator/server.go: the server's state, what a request may find out, and answers.
use Prim.Native.Char.{code}
use dshker_server.Api.Errors.{Failure, error_text, write_error}
use dshker_server.Api.Hub.{Hub}
use dshker_server.Api.Requests.{Bodies, Request}
use dshker_server.Api.Views.{PairIdentity}
use dshker_server.Config.{Config, Parsers}
use dshker_server.Prelude.{Bool, Code, List, Result, String, [], commit, err, ok, ℕ, ◌∷◌}
use dshker_server.Protocol.Ids.{Bytes}
use dshker_server.Protocol.Leases.{Lease}
use dshker_server.Protocol.Service.{Scalar, Service, blob, num, text}
use dshker_server.Relay.Limiter.{Limiter}
use dshker_server.Sessions.{Presence, Sessions}
use dshker_server.Store.Bindings.{DeviceEntry}
use dshker_server.Store.Networks.{Network}
use dshker_server.Store.Pairing.{Device, Share}
use dshker_server.Store.Schema.{Db, PairRow}
use dshker_server.Store.Users.{User, UserSession}

-- `Server`, without its configuration: the tables, the sessions, the budgets and the hub.
pub record Server : Type 0 where
  pub db : Db
  pub sessions : Sessions
  pub budget : Limiter
  pub hub : Hub

-- The answer to `/v1/identity`.
pub record Identity : Type 0 where
  pub version : ℕ
  pub service_id : String
  pub public_key : Bytes
  pub certificate : Bytes
  pub nonce : String
  pub https_origin : String
  pub wss_url : String
  pub stun_address : String
  pub signature : String

-- `SigningBytes`
unfoldable pub identity_fields : Identity → List Scalar
identity_fields i =
    text "dshker.service.v1"
    ∷ num i.version
    ∷ text i.service_id
    ∷ blob i.public_key
    ∷ blob i.certificate
    ∷ text i.nonce
    ∷ text i.https_origin
    ∷ text i.wss_url
    ∷ text i.stun_address
    ∷ []

-- What the server is built with and what it takes from libraries: the signing service and the
-- certificate `store.CA.Raw`, encoding/json, the texts of foreign errors, the relay's credentials
-- (turn.GenerateLongTermTURNRESTCredentials), the JSON of what it sends on the signal socket, and
-- whether `websocket.Accept` agrees on the subprotocol.
pub record Deployment : Type 0 where
  pub service : Service
  pub ca : Bytes
  pub bodies : Bodies
  pub parsers : Parsers
  pub config : Config
  pub foreign : Code → String
  pub credentials : String → String → ℕ → Result (String × String)
  pub encode_lease : Lease → String
  pub encode_revoked : PairRow → String
  pub encode_ready : String → String
  pub accepts : Request → Bool

-- What a request finds out: the time, the identifiers and secrets that are minted for it, and
-- whether four logins are under way.
pub record Moment : Type 0 where
  pub now : ℕ
  pub id : String
  pub secret : String
  pub ids : ℕ → String
  pub busy : Bool

-- A device with its presence, as `withPresence` fills it in.
pub record ListedDevice : Type 0 where
  pub entry : DeviceEntry
  pub shown_as : Presence

-- What is written as JSON.
pub data Value : Type 0 where
  health_value : String → Value
  identity_value : Identity → Value
  user_value : User → Value
  session_value : UserSession → Value
  network_value : Network → Value
  networks_value : List Network → Value
  device_value : Device → Value
  devices_value : List ListedDevice → Value
  token_value : String → String → ℕ → Value
  pair_value : PairRow → Value
  pairs_value : List PairRow → Value
  pair_identity_value : PairIdentity → Value
  share_value : Share → Value
  certificate_value : Bytes → Value
  lease_value : Lease → Value
  -- The address of the relay, after "turn:", the user name and the credential.
  turn_value : List ℕ → String → String → Value
  heard_value : String → ℕ → Value
  ended_value : String → Value
  -- `{"loggedOut": true}` and the like.
  done_value : String → Value

pub data Answer : Type 0 where
  answered : Value → Answer
  failed : Failure → Answer
  -- The connection has become a WebSocket; `true` where it is kept.
  upgraded : Bool → Answer

abbrev pub mark : ℕ → String → Answer
mark status code = failed (record { status = status; code = code })

module _ (d : Deployment) where
  -- `respond`
  unfoldable pub respond {ℓ} : {A : Type ℓ} → (A → Value) → Result A → Answer
  respond value (err c) = failed (write_error (error_text d.foreign c))
  respond value (ok a) = answered (value a)

  -- A call that only reads.
  unfoldable pub on_read {ℓ} : {A : Type ℓ} → (A → Value) → Result A → Server → Answer × Server
  unfolding respond
  on_read value r s = (respond value r, s)

  abbrev pub first {ℓ κ} : {A : Type ℓ} {B : Type κ} → Result (A × B) → Result A
  first (err c) = err c
  first (ok (a, _)) = ok a

  -- A call of the store, whose error leaves the tables.
  unfoldable pub on_store {ℓ} :
      {A : Type ℓ} → (A → Value) → Result (A × Db) → Server → Answer × Server
  unfolding respond
  on_store value r s = (respond value (first r), record s { db = commit s.db r })

  -- `endpoint` and `userEndpoint`: the body is read before anything is done.
  unfoldable pub with_body {ℓ} :
      {A : Type ℓ} → Result A → (A → Server → Answer × Server) → Server → Answer × Server
  with_body (err c) next s = (failed (write_error (error_text d.foreign c)), s)
  with_body (ok body) next s = next body s
