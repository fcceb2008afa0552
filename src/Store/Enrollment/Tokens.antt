-- ===== src/Store/Enrollment/Tokens.antt =====
-- internal/coordinator/enrollment.go: an enrollment token is good for one enrollment.
use Prim.Native.String.{len}
use dshker_server.Prelude.{
  Bool-cases, List, Option-cases, String, any, any-append, any-update-true, ap, arith, bind_ok, err,
  err_ne_ok, find, find-update-none, inl, inr, invalid_enrollment, invalid_enrollment_token, not,
  ok, refl, reject_ok, str_refl, sym, true, update, ℕ, ◌&&◌, ◌==◌, ◌=s=◌, ◌∙◌, ◌≡◌, ◌≤◌,
}
use dshker_server.Protocol.Ids.{Bytes, unix_mono, valid_id, valid_name}
use dshker_server.Protocol.Service.{Service}
use dshker_server.Store.Bindings.{bind_row, is_binding, is_bound, set_active, spend_token}
use dshker_server.Store.Enrollment.{
  Enrollment, admit_to, consume_token, enroll, known_device, link_row, new_device, token_scope,
  unspent, upsert_device, usable_token,
}
use dshker_server.Store.Networks.{binding_fits_capacity, require_capacity}
use dshker_server.Store.Pairing.{Device, links}
use dshker_server.Store.Schema.{BindingRow, Db, DeviceUserRow}

-- The upsert leaves the device bound.
pub bind_row-binds :
    (n d : String) (rows : List BindingRow)
    → any (λ b. is_binding n d b && b.active) (bind_row n d rows) ≡ true
unfolding bind_row
bind_row-binds n d rows = elim (Bool-cases (any (is_binding n d) rows)) [
  | inl old ↦
      rw (old, bind_row)
        (any-update-true (λ b. is_binding n d b && b.active) (is_binding n d) (set_active true) rows
          (λ x k. ground arith) old)
  | inr new ↦
      rw (new, bind_row)
        (any-append (λ b. is_binding n d b && b.active) rows _
          (ground (arith, str_refl n, str_refl d)))
]

-- The link is there, whether it is new or not.
link_row-links :
    (d u : String) (rows : List DeviceUserRow)
    → any (λ du. du.device_id =s= d && du.user_id =s= u) (link_row d u rows) ≡ true
link_row-links d u rows =
    elim (Bool-cases (any (λ du. du.device_id =s= d && du.user_id =s= u) rows)) [
      | inl old ↦ rw old old
      | inr new ↦ rw new (
          any-append (λ du. du.device_id =s= d && du.user_id =s= u) rows _
            (ground (arith, str_refl d, str_refl u)))
    ]

module _ (service : Service) where
  -- A token that was consumed stands for nothing from then on.
  consume_token-spends :
      (token : String) (now later : ℕ) (db : Db) (spent : Unit {0} × Db) (tables : Db)
      → consume_token service token now db ≡ ok spent
      → now ≤ later
      → tables.tokens ≡ spent.1.tokens
      → token_scope service tables token later ≡ err invalid_enrollment_token
  unfolding consume_token token_scope
  consume_token-spends token now later db spent tables h le same =
      let wrote : spent.1.tokens ≡ update (unspent service token now) spend_token db.tokens =
        ground arith in
      rw (ap (find (usable_token service tables token later)) (same ∙ wrote), token_scope)
        (rw
          (find-update-none (usable_token service tables token later) (unspent service token now)
            spend_token db.tokens (λ t _. ground arith) (λ t k. ground (arith, unix_mono le)))
          refl)

  -- The upsert and the binding leave the tokens.
  upsert_device-tokens :
      (dev : Device) (request_id : String) (db : Db) (entered : Device × Db)
      → upsert_device dev request_id db ≡ ok entered
      → entered.1.tokens ≡ db.tokens
  unfolding upsert_device
  upsert_device-tokens dev request_id db entered h =
      elim (Option-cases (known_device dev.public_key db)) [
        | inl missing ↦ ground arith
        | inr (d, e) ↦ ground arith
      ]

  upsert_device-key :
      (dev : Device) (request_id : String) (db : Db) (entered : Device × Db)
      → upsert_device dev request_id db ≡ ok entered
      → entered.0.public_key ≡ dev.public_key
  unfolding upsert_device
  upsert_device-key dev request_id db entered h =
      elim (Option-cases (known_device dev.public_key db)) [
        | inl missing ↦ ground arith
        | inr (d, e) ↦ ground arith
      ]

  -- The steps of an enrollment that succeeded.
  pub record Enrolled (request : Enrollment) (now : ℕ) (db : Db) (dev : Device) (db' : Db)
      : Type 0 where
    pub key : Bytes
    pub scope : String × String
    pub spent : Unit {0} × Db
    pub entered : Device × Db
    pub key_ok : service.csr_key request.csr ≡ ok key
    pub scope_ok : token_scope service db request.token now ≡ ok scope
    pub room : require_capacity (binding_fits_capacity db scope.1) ≡ ok tt
    pub spent_ok : consume_token service request.token now db ≡ ok spent
    pub entered_ok :
        upsert_device (new_device service key scope.0 request.name now) request.request_id spent.1
        ≡ ok entered
    pub done : admit_to "enrolled" scope.0 scope.1 now entered ≡ ok (dev, db')

  pub enroll-Enrolled :
      (request : Enrollment) (now : ℕ) (db : Db) (dev : Device) (db' : Db)
      → enroll service request now db ≡ ok (dev, db')
      → Enrolled request now db dev db'
  unfolding enroll
  enroll-Enrolled request now db dev db' h =
      let (_, h₀) =
        reject_ok
          (not (valid_id request.request_id && len request.token == 64 && valid_name request.name))
          invalid_enrollment _ h in
      let (key, key_ok, h₁) = bind_ok (service.csr_key request.csr) _ h₀ in
      let (scope, scope_ok, h₂) = bind_ok (token_scope service db request.token now) _ h₁ in
      let (_, room, h₃) = bind_ok (require_capacity (binding_fits_capacity db scope.1)) _ h₂ in
      let (spent, spent_ok, h₄) = bind_ok (consume_token service request.token now db) _ h₃ in
      let (entered, entered_ok, h₅) =
        bind_ok
          (upsert_device (new_device service key scope.0 request.name now) request.request_id
            spent.1)
          _ h₄ in
      record {
        key = key;
        scope = scope;
        spent = spent;
        entered = entered;
        key_ok = key_ok;
        scope_ok = scope_ok;
        room = room;
        spent_ok = spent_ok;
        entered_ok = entered_ok;
        done = h₅;
      }

  -- Once an enrollment has succeeded, no enrollment with its token succeeds in the tables that it
  -- leaves, then or later, whoever asks.
  pub enroll-once :
      (request again : Enrollment) (now later : ℕ) (db db' : Db) (dev : Device)
      (other : Device × Db)
      → enroll service request now db ≡ ok (dev, db')
      → again.token ≡ request.token
      → now ≤ later
      → ¬ (enroll service again later db' ≡ ok other)
  enroll-once request again now later db db' dev other h same le k =
      let e = enroll-Enrolled request now db dev db' h in
      let f = enroll-Enrolled again later db' other.0 other.1 k in
      let left : db'.tokens ≡ e.entered.1.tokens = ground (arith, e.done) in
      let gone =
        consume_token-spends request.token now later db e.spent db' e.spent_ok le
          (left ∙ upsert_device-tokens _ request.request_id e.spent.1 e.entered e.entered_ok) in
      err_ne_ok (ap (λ t. token_scope service db' t later) same ∙ gone) f.scope_ok

  -- A device that enrolled is bound to the token's network and linked to the token's user, and
  -- its public key is the one of its certificate request.
  pub enroll-binds :
      (request : Enrollment) (now : ℕ) (db db' : Db) (dev : Device)
      → enroll service request now db ≡ ok (dev, db')
      → (user_id network_id : String) × (token_scope service db request.token now
          ≡ ok (user_id, network_id))
        × (is_bound db' network_id dev.id ≡ true)
        × (any (λ du. du.device_id =s= dev.id && du.user_id =s= user_id) db'.device_users ≡ true)
        × (service.csr_key request.csr ≡ ok dev.public_key)
  enroll-binds request now db db' dev h =
      let e = enroll-Enrolled request now db dev db' h in
      let wrote : (dev ≡ e.entered.0)
          × (db'.bindings ≡ bind_row e.scope.1 e.entered.0.id e.entered.1.bindings)
          × (db'.device_users ≡ link_row e.entered.0.id e.scope.0 e.entered.1.device_users) =
        ground (arith, e.done) in
      let (same, bindings, links) = wrote in
      (
        e.scope.0,
        e.scope.1,
        e.scope_ok,
        rw (bindings, same) (bind_row-binds e.scope.1 e.entered.0.id e.entered.1.bindings),
        rw (links, same) (link_row-links e.entered.0.id e.scope.0 e.entered.1.device_users),
        e.key_ok
            ∙ ap ok (
                sym (
                  ap (λ d. d.public_key) same
                  ∙ upsert_device-key _ request.request_id e.spent.1 e.entered e.entered_ok)),
      )
