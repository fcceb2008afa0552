-- ===== src/Prelude/Outcome.antt =====
-- What a fallible operation returns: its value, or the error code that the client is sent.
use mathlib.Core.Path.{◌≡◌, refl}
use mathlib.Core.Logic.{◌⊎◌, inl, inr}
use mathlib.Core.Bool.{Bool, true, false}
use dshker_server.Prelude.Tests.{if◌then◌else◌}
use mathlib.Core.Option.{Option, none, some}

-- The suffix of an error string "p2p.<code>"; `sql_error` is an error of the database driver,
-- `json_error` one of encoding/json, `file_error` one of the operating system and `stun_error` one
-- of pion/stun, whose texts have no such prefix.
pub data Code : Type 0 where
  invalid_request invalid_name invalid_challenge invalid_fields invalid_content_type : Code
  invalid_enrollment invalid_enrollment_token invalid_csr invalid_device_key : Code
  invalid_network_limit invalid_user_credentials invalid_pairing_code invalid_pair_action : Code
  invalid_generation invalid_payload invalid_sdp invalid_candidate invalid_frame invalid_json : Code
  user_unauthorized device_unauthorized network_unauthorized binding_unauthorized : Code
  pair_unauthorized login_failed rate_limited user_conflict user_not_found request_conflict : Code
  pair_state_conflict connection_busy pairing_busy pairing_expired pair_revoked peer_offline : Code
  network_full network_limit_reached device_already_enrolled enrollment_not_found : Code
  identity_mismatch certificate_not_expired renewal_not_due attempt_not_found lease_expired : Code
  lease_scope_mismatch frame_scope_mismatch signal_scope_mismatch signal_expired : Code
  signal_state_conflict signal_limit sdp_binding_mismatch protocol_mismatch protocol_limit : Code
  missing_field null_field duplicate_field unknown_operation relay_unconfigured : Code
  relay_port_exhausted invalid_relay_public_ip invalid_relay_port_range : Code
  device_busy tls_required request_interrupted json_error sql_error : Code
  invalid_https_origin invalid_wss_endpoint invalid_endpoint explicit_absolute_path_required : Code
  path_conflict invalid_turn_shared_secret config_unavailable invalid_config : Code
  state_already_exists state_unavailable_or_insecure invalid_identity invalid_database : Code
  unsupported_schema identity_unavailable command_required unknown_command : Code
  invalid_arguments config_required username_required user_id_required file_error : Code
  invalid_stun_binding stun_error : Code

pub data Result {ℓ} (A : Type ℓ) : Type ℓ where
  err : Code → Result A
  ok : A → Result A

-- `if bad { return errors.New(code) }`
abbrev pub reject : Bool → Code → Result (Unit {0})
reject true c = err c
reject false c = ok tt

-- A query that must find a row.
abbrev pub or_fail {ℓ} : {A : Type ℓ} → Option A → Code → Result A
or_fail none c = err c
or_fail (some a) c = ok a

-- `if err != nil { return err }` after a call.
infixl 5 ◌>>=◌
abbrev pub ◌>>=◌ {ℓ κ} : {A : Type ℓ} {B : Type κ} → Result A → (A → Result B) → Result B
err c >>= next = err c
ok a >>= next = next a

-- The same after a call for its checks alone.
infixl 5 ◌>>◌
abbrev pub ◌>>◌ {ℓ κ} : {A : Type ℓ} {B : Type κ} → Result A → Result B → Result B
m >> k = m >>= λ _. k

-- The state that a call leaves: an error rolls the transaction back.
unfoldable pub commit {ℓ κ} : {S : Type ℓ} {A : Type κ} → S → Result (A × S) → S
commit s (ok (_, s')) = s'
commit s (err _) = s

-- Rules for what a transaction leaves: by its first step, which fails or hands on a value.
module _ {ℓ κ μ} {S : Type ℓ} {B : Type κ} (P : S → Type μ) (s : S) where
  pub commit-bind {ν} :
      {A : Type ν} (r : Result A) (f : A → Result (B × S))
      → P s
      → ((a : A) → r ≡ ok a → P (commit s (f a)))
      → P (commit s (r >>= f))
  unfolding commit
  commit-bind (ok a) f same next = next a refl
  commit-bind (err c) f same next = same

  pub commit-then {ν} :
      {A : Type ν} (r : Result A) (k : Result (B × S))
      → P s
      → ((a : A) → r ≡ ok a → P (commit s k))
      → P (commit s (r >> k))
  unfolding commit
  commit-then (ok a) k same next = next a refl
  commit-then (err c) k same next = same

  pub commit-reject :
      (b : Bool) (c : Code) (k : Result (B × S))
      → P s
      → (b ≡ false → P (commit s k))
      → P (commit s (reject b c >> k))
  unfolding commit
  commit-reject true c k same next = same
  commit-reject false c k same next = next refl

  pub commit-ok : (b : B) (s' : S) → P s' → P (commit s (ok (b, s')))
  unfolding commit
  commit-ok b s' h = h

  pub commit-if :
      (t : Bool) (r r' : Result (B × S))
      → (t ≡ true → P (commit s r))
      → (t ≡ false → P (commit s r'))
      → P (commit s (if t then r else r'))
  commit-if true r r' h h' = h refl
  commit-if false r r' h h' = h' refl

  -- A transaction by its results.
  pub commit-all :
      (r : Result (B × S)) → P s → ((b : B) (s' : S) → r ≡ ok (b, s') → P s') → P (commit s r)
  unfolding commit
  commit-all (ok (b, s')) same done = done b s' refl
  commit-all (err c) same done = same

pub Result-cases {ℓ} :
    {A : Type ℓ} (r : Result A) → ((c : Code) × (r ≡ err c)) ⊎ ((a : A) × (r ≡ ok a))
Result-cases (err c) = inl (c, refl)
Result-cases (ok a) = inr (a, refl)

-- The steps of a chain that returned a value.
module _ {ℓ κ} {A : Type ℓ} {B : Type κ} where
  pub bind_ok :
      (first : Result A) (next : A → Result B) {end : B}
      → (first >>= next) ≡ ok end
      → (value : A) × (first ≡ ok value) × (next value ≡ ok end)
  bind_ok (err c) next h = cc
  bind_ok (ok value) next h = (value, refl, h)

pub reject_ok {ℓ} :
    {B : Type ℓ} (t : Bool) (c : Code) (k : Result B) {b : B}
    → (reject t c >> k) ≡ ok b
    → (t ≡ false) × (k ≡ ok b)
reject_ok true c k h = cc
reject_ok false c k h = (refl, h)

pub err_ne_ok {ℓ} : {A : Type ℓ} {r : Result A} {c : Code} {a : A} → r ≡ err c → r ≡ ok a → ⊥
err_ne_ok h k = cc

pub ok_inj {ℓ} : {A : Type ℓ} {a b : A} → ok a ≡ ok b → a ≡ b
ok_inj h = cc
