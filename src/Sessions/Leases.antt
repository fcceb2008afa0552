-- ===== src/Sessions/Leases.antt =====
-- The leases that the coordinator hands out are the leases that a client accepts.
use dshker_server.Prelude.{
  Option-cases, Result-cases, String, all, all-find, any_of_any, any_of_found, arith, bind_ok,
  connection_busy, false, find, find_sound, get, inl, inr, length, not, ok, refl, reject_ok, some,
  str_iff, str_refl, true, ℕ, ◌&&◌, ◌+◌, ◌=s=◌, ◌≡◌,
}
use dshker_server.Protocol.Addresses.{before}
use dshker_server.Protocol.Ids.{minute, second, unix, valid_id}
use dshker_server.Protocol.Leases.{Lease, SignalScope, lease_fields, lease_ids_valid, verify_lease}
use dshker_server.Protocol.Service.{Lawful, Service}
use dshker_server.Sessions.{
  Attempt, Sessions, authorize, begin, extend, grant, is_busy, may_begin, new_lease, prune, renew,
}
use dshker_server.Sessions.Checks.{authorize-get}
use dshker_server.Store.Bindings.{is_binding, is_bound}
use dshker_server.Store.PairActions.{shared, shared_network_id}
use dshker_server.Store.Pairing.{Device, device}
use dshker_server.Store.Schema.{BindingRow, Db, DeviceRow, user_enabled}

-- What the service's identity file and the minted identifiers provide.
pub record IsIdentity (service : Service) : Type 0 where
  pub key_size : length service.public_key ≡ 32
  pub named : service.service_id ≡ service.key_id service.public_key

-- The scope that the two ends of an attempt expect of its lease.
abbrev pub scope_of_lease : Lease → SignalScope
scope_of_lease l = record {
  attempt_id = l.attempt_id;
  from_device_id = l.from_device_id;
  to_device_id = l.to_device_id;
  pair_id = l.pair_id;
  generation = l.generation;
  next_sequence = 0;
}

-- A lease that was signed by the service, with well-formed names, two ends and a minute to run.
pub record IsIssued (service : Service) (l : Lease) (now : ℕ) : Type 0 where
  pub version_one : l.version ≡ 1
  pub by_service : l.service_id ≡ service.service_id
  pub for_sessions : l.permission ≡ "dsh-session"
  pub first_revision : l.revision ≡ 1
  pub ids : lease_ids_valid l ≡ true
  pub owner : valid_id l.user_id ≡ true
  pub network : valid_id l.network_id ≡ true
  pub fresh : l.expires_at ≡ unix (now + minute)
  pub signed : l.signature ≡ service.sign (lease_fields l)

-- The client that expects its scope, its account and its network accepts it at that time.
pub issued-verify_lease :
    (service : Service) (l : Lease) (now : ℕ) (scope : SignalScope) (user_id network_id : String)
    → Lawful service
    → IsIdentity service
    → IsIssued service l now
    → scope_of_lease l ≡ scope
    → l.user_id ≡ user_id
    → l.network_id ≡ network_id
    → verify_lease service l service.public_key scope user_id network_id 1 now ≡ ok tt
unfolding verify_lease
issued-verify_lease service l now scope user_id network_id lawful identity i same user network =
    rw⁻¹ (same, user, network)
      (ground (
        arith,
        str_refl l.user_id,
        str_refl l.network_id,
        str_refl l.attempt_id,
        str_refl l.pair_id,
        str_refl l.from_device_id,
        str_refl l.to_device_id,
        str_iff l.service_id (service.key_id service.public_key),
        str_iff l.permission "dsh-session",
        lawful.verify-sign (lease_fields l),
      ))

-- The lease of a new attempt is issued, for the two devices that asked for it.
grant-IsIssued :
    (service : Service) (s : Sessions) (db : Db) (attempt_id sender target : String)
    (generation now : ℕ) {l : Lease}
    → valid_id attempt_id ≡ true
    → valid_id sender ≡ true
    → valid_id target ≡ true
    → (sender =s= target) ≡ false
    → ((d : Device) → device db sender ≡ ok d → valid_id d.user_id ≡ true)
    → ((n : String) → shared_network_id db sender target ≡ ok n → valid_id n ≡ true)
    → grant service s db attempt_id sender target generation now ≡ ok l
    → IsIssued service l now
unfolding grant
grant-IsIssued service s db attempt_id sender target generation now {l} va vs vt ne vu vn h =
    let (_, h₁) = reject_ok (is_busy sender target s.attempts) connection_busy _ h in
    let (d, ed, h₂) = bind_ok (device db sender) _ h₁ in
    let (n, en, h₃) = bind_ok (shared_network_id db sender target) _ h₂ in
    let e : l ≡ new_lease service attempt_id d.user_id n sender target generation now =
      ground arith in
    rw e (record {
      version_one = refl;
      by_service = refl;
      for_sessions = refl;
      first_revision = refl;
      ids = rw (va, vs, vt, ne) refl;
      owner = vu d ed;
      network = vn n en;
      fresh = refl;
      signed = unfold lease_fields in refl;
    })

-- The identifiers in the tables that a lease repeats are well-formed.
pub record HasNames (db : Db) : Type 0 where
  pub owners : all (λ (d : DeviceRow). valid_id d.user_id) db.devices ≡ true
  pub networks : all (λ (b : BindingRow). valid_id b.network_id) db.bindings ≡ true

device_owner_valid :
    (db : Db) (id : String) (d : Device)
    → HasNames db
    → device db id ≡ ok d
    → valid_id d.user_id ≡ true
unfolding device
device_owner_valid db id d names h =
    elim (Option-cases
      (find (λ d. d.id =s= id && not d.revoked && user_enabled db d.user_id) db.devices)) [
        | inl e ↦ ground arith
        | inr (row, e) ↦ ground (
          arith,
          all-find (λ d. d.id =s= id && not d.revoked && user_enabled db d.user_id)
              (λ (d : DeviceRow). valid_id d.user_id) db.devices {x = row} e names.owners,
        )
      ]

shared_network_valid :
    (db : Db) (a b n : String) → HasNames db → shared_network_id db a b ≡ ok n → valid_id n ≡ true
unfolding shared_network_id
shared_network_valid db a b n names h = elim (Option-cases (find (shared db a b) db.bindings)) [
  | inl e ↦ ground arith
  | inr (row, e) ↦ ground (
    arith,
    all-find (shared db a b) (λ (b : BindingRow). valid_id b.network_id) db.bindings {x = row} e
        names.networks,
  )
]

-- The scope that a dial asks for: the pair of an attempt is named by its target.
abbrev pub dialled : String → String → String → ℕ → SignalScope
dialled attempt_id sender target generation = record {
  attempt_id = attempt_id;
  from_device_id = sender;
  to_device_id = target;
  pair_id = target;
  generation = generation;
  next_sequence = 0;
}

-- The network of a lease has both of its ends bound to it.
shared_network-bound :
    (db : Db) (a b n : String)
    → shared_network_id db a b ≡ ok n
    → (is_bound db n a ≡ true) × (is_bound db n b ≡ true)
unfolding shared_network_id
shared_network-bound db a b n h = elim (Option-cases (find (shared db a b) db.bindings)) [
  | inl e ↦ absurd (ground arith)
  | inr (x, e) ↦
      let same : x.network_id ≡ n = ground arith in
      let found = find_sound (shared db a b) db.bindings {x = x} e in
      rw⁻¹ same (
        any_of_found (shared db a b) (λ y. is_binding x.network_id a y && y.active) db.bindings
            {x = x} e (ground (arith, found, str_refl x.network_id)),
        any_of_any (λ y. y.network_id =s= x.network_id && y.device_id =s= b && y.active)
            (λ y. is_binding x.network_id b y && y.active) db.bindings (λ y h. ground arith)
            (ground (arith, found)),
      )
]

-- What `grant` puts into a lease.
granted_scope :
    (service : Service) (s : Sessions) (db : Db) (attempt_id sender target : String)
    (generation now : ℕ) {l : Lease}
    → grant service s db attempt_id sender target generation now ≡ ok l
    → (d : Device) × (network_id : String) × (device db sender ≡ ok d)
      × (shared_network_id db sender target ≡ ok network_id)
      × (scope_of_lease l ≡ dialled attempt_id sender target generation)
      × (l.user_id ≡ d.user_id)
      × (l.network_id ≡ network_id)
unfolding grant
granted_scope service s db attempt_id sender target generation now {l} h =
    let (_, h₁) = reject_ok (is_busy sender target s.attempts) connection_busy _ h in
    let (d, ed, h₂) = bind_ok (device db sender) _ h₁ in
    let (n, en, h₃) = bind_ok (shared_network_id db sender target) _ h₂ in
    let e : l ≡ new_lease service attempt_id d.user_id n sender target generation now =
      ground arith in
    (d, n, ed, en, rw e refl, rw e refl, rw e refl)

-- What `begin` returns is what `grant` returns, once its checks have passed.
pub begin_ok :
    (service : Service) (attempt_id sender target : String) (generation now : ℕ) (db : Db)
    (s : Sessions) {l : Lease}
    → (begin service attempt_id sender target generation now db s).0 ≡ ok l
    → (may_begin service s db sender target generation now ≡ ok tt)
      × (grant service (prune now s) db attempt_id sender target generation now ≡ ok l)
unfolding begin
begin_ok service attempt_id sender target generation now db s h = ground arith

may_begin_facts :
    (service : Service) (s : Sessions) (db : Db) (sender target : String) (generation now : ℕ)
    → may_begin service s db sender target generation now ≡ ok tt
    → (valid_id target ≡ true) × ((sender =s= target) ≡ false)
unfolding may_begin
may_begin_facts service s db sender target generation now h =
    ground (arith, str_iff sender target, str_iff target sender)

-- Where the service is named by its own key, the identifiers in the tables, of the caller and of
-- the attempt are well-formed, and signatures verify under the key that made them, a lease that
-- `Begin` returns passes the client's `Verify` at that time, under the service's key, with what
-- the dial asked for: the attempt, the caller, the target, the generation and the first revision,
-- the account that the caller belongs to, and a network to which both devices are bound.
pub begin-verify_lease :
    (service : Service) (attempt_id sender target : String) (generation now : ℕ) (db : Db)
    (s : Sessions) (l : Lease)
    → Lawful service
    → IsIdentity service
    → HasNames db
    → valid_id attempt_id ≡ true
    → valid_id sender ≡ true
    → (begin service attempt_id sender target generation now db s).0 ≡ ok l
    → (d : Device) × (network_id : String) × (device db sender ≡ ok d)
      × (is_bound db network_id sender ≡ true)
      × (is_bound db network_id target ≡ true)
      × (verify_lease service l service.public_key
            (dialled attempt_id sender target generation)
            d.user_id
            network_id
            1
            now
          ≡ ok tt)
begin-verify_lease service attempt_id sender target generation now db s l lawful identity names va
      vs h =
    let (may, granted) = begin_ok service attempt_id sender target generation now db s h in
    let (vt, ne) = may_begin_facts service s db sender target generation now may in
    let issued =
      grant-IsIssued service (prune now s) db attempt_id sender target generation now va vs vt ne
        (λ d e. device_owner_valid db sender d names e)
        (λ n e. shared_network_valid db sender target n names e) granted in
    let (d, n, ed, en, scope, user, network) =
      granted_scope service (prune now s) db attempt_id sender target generation now granted in
    let (first, second) = shared_network-bound db sender target n en in
    (
      d,
      n,
      ed,
      first,
      second,
      issued-verify_lease service l now (dialled attempt_id sender target generation) d.user_id n
          lawful identity issued scope user network,
    )

-- A renewal of an attempt whose lease the service issued gives a lease that expires a minute from
-- the renewal and passes the client's `Verify` again, with the scope, the account and the network
-- of the lease before it.
pub renew-verify_lease :
    (service : Service) (sender pair_id attempt_id : String) (now before : ℕ) (db : Db)
    (s : Sessions) (current : Attempt) (l : Lease)
    → Lawful service
    → IsIdentity service
    → get pair_id s.attempts ≡ some current
    → IsIssued service current.lease before
    → (renew service sender pair_id attempt_id now db s).0 ≡ ok l
    → (verify_lease service l service.public_key
          (scope_of_lease current.lease)
          current.lease.user_id
          current.lease.network_id
          1
          now
        ≡ ok tt)
      × (l.expires_at ≡ unix (now + minute))
unfolding renew
renew-verify_lease service sender pair_id attempt_id now before db s current l lawful identity there
      i h =
    elim (Result-cases (authorize s db sender pair_id attempt_id now)) [
      | inl (c, e) ↦ ground arith
      | inr (a, e) ↦
          let same = authorize-get s db sender pair_id attempt_id now e in
          let renewed : l ≡ extend service now current.lease = ground arith in
          rw renewed (
            issued-verify_lease service (extend service now current.lease) now
                (scope_of_lease current.lease) current.lease.user_id current.lease.network_id lawful
                identity
                (record {
                  version_one = i.version_one;
                  by_service = i.by_service;
                  for_sessions = i.for_sessions;
                  first_revision = i.first_revision;
                  ids = i.ids;
                  owner = i.owner;
                  network = i.network;
                  fresh = refl;
                  signed = unfold lease_fields in refl;
                })
                refl refl refl,
            refl,
          )
    ]
