-- ===== src/Api/Errors.antt =====
-- internal/coordinator/server.go, `writeError`, and cmd/dshker-server's main: which errors a client
-- or an operator is shown.
pub mod Shown
use Prim.Native.Char.{code}
use dshker_server.Prelude.{
  Bool, Code, List, String, [], any, attempt_not_found, binding_unauthorized,
  certificate_not_expired, command_required, config_required, config_unavailable, connection_busy,
  device_already_enrolled, device_busy, device_unauthorized, duplicate_field, enrollment_not_found,
  explicit_absolute_path_required, false, file_error, frame_scope_mismatch, identity_mismatch,
  identity_unavailable, if◌then◌else◌, invalid_arguments, invalid_candidate, invalid_challenge,
  invalid_config, invalid_content_type, invalid_csr, invalid_database, invalid_device_key,
  invalid_endpoint, invalid_enrollment, invalid_enrollment_token, invalid_fields, invalid_frame,
  invalid_generation, invalid_https_origin, invalid_identity, invalid_json, invalid_name,
  invalid_network_limit, invalid_pair_action, invalid_pairing_code, invalid_payload,
  invalid_relay_port_range, invalid_relay_public_ip, invalid_request, invalid_sdp,
  invalid_stun_binding, invalid_turn_shared_secret, invalid_user_credentials, invalid_wss_endpoint,
  json_error, lease_expired, lease_scope_mismatch, login_failed, missing_field, network_full,
  network_limit_reached, network_unauthorized, not, null_field, pair_revoked, pair_state_conflict,
  pair_unauthorized, pairing_busy, pairing_expired, path_conflict, peer_offline, protocol_limit,
  protocol_mismatch, rate_limited, relay_port_exhausted, relay_unconfigured, renewal_not_due,
  request_conflict, request_interrupted, sdp_binding_mismatch, signal_expired, signal_limit,
  signal_scope_mismatch, signal_state_conflict, sql_error, state_already_exists,
  state_unavailable_or_insecure, stun_error, tls_required, true, unknown_command, unknown_operation,
  unsupported_schema, user_conflict, user_id_required, user_not_found, user_unauthorized,
  username_required, ℕ, ◌&&◌, ◌==◌, ◌=s=◌, ◌||◌, ◌∷◌,
}
use dshker_server.Prelude.Text.{codes}
use dshker_server.Store.History.Lifecycle.{then}

abbrev pub has_prefix : List ℕ → List ℕ → Bool
has_prefix [] s = true
has_prefix (c ∷ p) [] = false
has_prefix (c ∷ p) (x ∷ s) = c == x && has_prefix p s

-- `strings.HasPrefix(code, "p2p.")`
abbrev pub is_code : String → Bool
is_code code = has_prefix (codes "p2p.") (codes code)

-- `strings.ContainsAny(code, " \n\r")`
abbrev pub has_blank : String → Bool
has_blank code = any (λ c. c == b' ' || c == 10 || c == 13) (codes code)

abbrev pub is_hidden : String → Bool
is_hidden code = not (is_code code) || has_blank code

-- The text of an error. `foreign` are the texts of the database driver, encoding/json and the
-- operating system.
unfoldable pub error_text : (Code → String) → Code → String
error_text foreign invalid_request = "p2p.invalid_request"
error_text foreign invalid_name = "p2p.invalid_name"
error_text foreign invalid_challenge = "p2p.invalid_challenge"
error_text foreign invalid_fields = "p2p.invalid_fields"
error_text foreign invalid_content_type = "p2p.invalid_content_type"
error_text foreign invalid_enrollment = "p2p.invalid_enrollment"
error_text foreign invalid_enrollment_token = "p2p.invalid_enrollment_token"
error_text foreign invalid_csr = "p2p.invalid_csr"
error_text foreign invalid_device_key = "p2p.invalid_device_key"
error_text foreign invalid_network_limit = "p2p.invalid_network_limit"
error_text foreign invalid_user_credentials = "p2p.invalid_user_credentials"
error_text foreign invalid_pairing_code = "p2p.invalid_pairing_code"
error_text foreign invalid_pair_action = "p2p.invalid_pair_action"
error_text foreign invalid_generation = "p2p.invalid_generation"
error_text foreign invalid_payload = "p2p.invalid_payload"
error_text foreign invalid_sdp = "p2p.invalid_sdp"
error_text foreign invalid_candidate = "p2p.invalid_candidate"
error_text foreign invalid_frame = "p2p.invalid_frame"
error_text foreign invalid_json = "p2p.invalid_json"
error_text foreign user_unauthorized = "p2p.user_unauthorized"
error_text foreign device_unauthorized = "p2p.device_unauthorized"
error_text foreign network_unauthorized = "p2p.network_unauthorized"
error_text foreign binding_unauthorized = "p2p.binding_unauthorized"
error_text foreign pair_unauthorized = "p2p.pair_unauthorized"
error_text foreign login_failed = "p2p.login_failed"
error_text foreign rate_limited = "p2p.rate_limited"
error_text foreign user_conflict = "p2p.user_conflict"
error_text foreign user_not_found = "p2p.user_not_found"
error_text foreign request_conflict = "p2p.request_conflict"
error_text foreign pair_state_conflict = "p2p.pair_state_conflict"
error_text foreign connection_busy = "p2p.connection_busy"
error_text foreign pairing_busy = "p2p.pairing_busy"
error_text foreign pairing_expired = "p2p.pairing_expired"
error_text foreign pair_revoked = "p2p.pair_revoked"
error_text foreign peer_offline = "p2p.peer_offline"
error_text foreign network_full = "p2p.network_full"
error_text foreign network_limit_reached = "p2p.network_limit_reached"
error_text foreign device_already_enrolled = "p2p.device_already_enrolled"
error_text foreign enrollment_not_found = "p2p.enrollment_not_found"
error_text foreign identity_mismatch = "p2p.identity_mismatch"
error_text foreign certificate_not_expired = "p2p.certificate_not_expired"
error_text foreign renewal_not_due = "p2p.renewal_not_due"
error_text foreign attempt_not_found = "p2p.attempt_not_found"
error_text foreign lease_expired = "p2p.lease_expired"
error_text foreign lease_scope_mismatch = "p2p.lease_scope_mismatch"
error_text foreign frame_scope_mismatch = "p2p.frame_scope_mismatch"
error_text foreign signal_scope_mismatch = "p2p.signal_scope_mismatch"
error_text foreign signal_expired = "p2p.signal_expired"
error_text foreign signal_state_conflict = "p2p.signal_state_conflict"
error_text foreign signal_limit = "p2p.signal_limit"
error_text foreign sdp_binding_mismatch = "p2p.sdp_binding_mismatch"
error_text foreign protocol_mismatch = "p2p.protocol_mismatch"
error_text foreign protocol_limit = "p2p.protocol_limit"
error_text foreign missing_field = "p2p.missing_field"
error_text foreign null_field = "p2p.null_field"
error_text foreign duplicate_field = "p2p.duplicate_field"
error_text foreign unknown_operation = "p2p.unknown_operation"
error_text foreign relay_unconfigured = "p2p.relay_unconfigured"
error_text foreign relay_port_exhausted = "p2p.relay_port_exhausted"
error_text foreign invalid_relay_public_ip = "p2p.invalid_relay_public_ip"
error_text foreign invalid_relay_port_range = "p2p.invalid_relay_port_range"
error_text foreign device_busy = "p2p.device_busy"
error_text foreign tls_required = "p2p.tls_required"
error_text foreign request_interrupted = "p2p.request_interrupted"
error_text foreign json_error = foreign json_error
error_text foreign sql_error = foreign sql_error
error_text foreign invalid_https_origin = "p2p.invalid_https_origin"
error_text foreign invalid_wss_endpoint = "p2p.invalid_wss_endpoint"
error_text foreign invalid_endpoint = "p2p.invalid_endpoint"
error_text foreign explicit_absolute_path_required = "p2p.explicit_absolute_path_required"
error_text foreign path_conflict = "p2p.path_conflict"
error_text foreign invalid_turn_shared_secret = "p2p.invalid_turn_shared_secret"
error_text foreign config_unavailable = "p2p.config_unavailable"
error_text foreign invalid_config = "p2p.invalid_config"
error_text foreign state_already_exists = "p2p.state_already_exists"
error_text foreign state_unavailable_or_insecure = "p2p.state_unavailable_or_insecure"
error_text foreign invalid_identity = "p2p.invalid_identity"
error_text foreign invalid_database = "p2p.invalid_database"
error_text foreign unsupported_schema = "p2p.unsupported_schema"
error_text foreign identity_unavailable = "p2p.identity_unavailable"
error_text foreign command_required = "p2p.command_required"
error_text foreign unknown_command = "p2p.unknown_command"
error_text foreign invalid_arguments = "p2p.invalid_arguments"
error_text foreign config_required = "p2p.config_required"
error_text foreign username_required = "p2p.username_required"
error_text foreign user_id_required = "p2p.user_id_required"
error_text foreign file_error = foreign file_error
error_text foreign invalid_stun_binding = "p2p.invalid_stun_binding"
error_text foreign stun_error = foreign stun_error

-- The body of a failure: its status and its code.
pub record Failure : Type 0 where
  pub status : ℕ
  pub code : String

abbrev pub one_of : List String → String → Bool
one_of codes code = any (λ c. c =s= code) codes

unfoldable pub status_of : String → ℕ
status_of code =
    if one_of ("p2p.user_unauthorized" ∷ "p2p.device_unauthorized" ∷ "p2p.login_failed" ∷ []) code
    then 401
    else if one_of
        ("p2p.network_unauthorized" ∷ "p2p.binding_unauthorized" ∷ "p2p.pair_unauthorized" ∷ [])
        code
    then 403
    else if code =s= "p2p.rate_limited"
    then 429
    else if one_of
        ("p2p.user_conflict" ∷ "p2p.request_conflict" ∷ "p2p.pair_state_conflict"
          ∷ "p2p.connection_busy" ∷ "p2p.pairing_busy" ∷ [])
        code
    then 409
    else 400

-- `writeError`, of the error's text.
unfoldable pub write_error : String → Failure
write_error code =
    if is_hidden code
    then record { status = 500; code = "p2p.internal_error" }
    else record { status = status_of code; code = code }

-- What `main` prints for an error of `run`.
unfoldable pub printed_code : String → String
printed_code code = if is_hidden code then "p2p.operation_failed" else code
