-- ===== src/Sessions/Reports.antt =====
-- internal/coordinator/sessions.go: presence as heartbeats make it.
use dshker_server.Prelude.{
  Bool, Bool-cases, List, Result-cases, String, [], ap, arith, delete, false, find, get,
  if◌then◌else◌, inl, inr, leb, none, ok, refl, str_iff, str_refl, true, ℕ, ◌+◌, ◌=s=◌, ◌∙◌, ◌∷◌,
  ◌≡◌,
}
use dshker_server.Protocol.Ids.{minute}
use dshker_server.Sessions.{
  PresenceRow, Sessions, go_offline, half_minute, heartbeat, heartbeat_allowed, is_past,
  is_presence, last_seen_of, offline, online, presence, set_presence, shown, stale,
}
use dshker_server.Store.Enrollment.{DeviceTelemetry}
use dshker_server.Store.Schema.{Db}

module _ {ℓ} {A : Type ℓ} where
  -- Rows that a deletion leaves are found as before, those that it takes are not found.
  find-delete_same :
      (p q : A → Bool) (xs : List A)
      → ((x : A) → p x ≡ true → q x ≡ false)
      → find p (delete q xs) ≡ find p xs
  find-delete_same p q [] h = refl
  find-delete_same p q (x ∷ xs) h = ground (arith, h x, find-delete_same p q xs h)

  find-delete-none :
      (p q : A → Bool) (xs : List A)
      → ((x : A) → p x ≡ true → q x ≡ true)
      → find p (delete q xs) ≡ none
  find-delete-none p q [] h = refl
  find-delete-none p q (x ∷ xs) h = ground (arith, h x, find-delete-none p q xs h)

heartbeat-presence :
    (id user_id : String) (telemetry : DeviceTelemetry) (now : ℕ) (s : Sessions) (db : Db)
    → (heartbeat id user_id telemetry now s db).0 ≡ ok tt
    → (user_id =s= "") ≡ false
    → (heartbeat id user_id telemetry now s db).1.presence ≡ set_presence id user_id now s.presence
unfolding heartbeat
heartbeat-presence id user_id telemetry now s db h named =
    elim (Result-cases (heartbeat_allowed db id user_id)) [
      | inl (c, e) ↦ absurd (ground arith)
      | inr (u, e) ↦ elim (Bool-cases (is_past (get id s.seen_saved) minute now)) [
        | inl f ↦ rw (e, heartbeat) (rw (f, named) refl)
        | inr f ↦ rw (e, heartbeat) (rw (f, named) refl)
      ]
    ]

found :
    (id user_id : String) (now later : ℕ) (rows : List PresenceRow)
    → shown (last_seen_of (find (is_presence id user_id) (set_presence id user_id now rows))) later
      ≡ (if leb (now + half_minute) later then stale else online)
found id user_id now later rows = rw (str_refl id, str_refl user_id) refl

find-set_other :
    (id user_id other account : String) (now : ℕ) (rows : List PresenceRow)
    → is_presence id user_id (record { device_id = other; user_id = account; seen = 0 }) ≡ false
    → find (is_presence other account) (set_presence id user_id now rows)
      ≡ find (is_presence other account) rows
find-set_other id user_id other account now rows ne = ground (
  arith,
  ne,
  find-delete_same (is_presence other account) (is_presence id user_id) rows (λ p k. ground (
    arith,
    str_iff p.device_id id,
    str_iff p.device_id other,
    str_iff p.user_id user_id,
    str_iff p.user_id account,
    str_iff other id,
    str_iff account user_id,
  )),
  str_iff id other,
  str_iff user_id account,
  str_iff other id,
  str_iff account user_id,
)

-- A heartbeat for an account that succeeds makes the device online for that account until half a
-- minute has passed, and stale from then on; for every other device or account the presence is as
-- it was.
pub heartbeat-online :
    (id user_id : String) (telemetry : DeviceTelemetry) (now : ℕ) (s : Sessions) (db : Db)
    → (heartbeat id user_id telemetry now s db).0 ≡ ok tt
    → (user_id =s= "") ≡ false
    → ((later : ℕ)
        → presence (heartbeat id user_id telemetry now s db).1 id user_id later
          ≡ (if leb (now + half_minute) later then stale else online))
      × ((other account : String) (later : ℕ)
          → is_presence id user_id (record { device_id = other; user_id = account; seen = 0 })
            ≡ false
          → presence (heartbeat id user_id telemetry now s db).1 other account later
            ≡ presence s other account later)
unfolding presence
heartbeat-online id user_id telemetry now s db h named =
    let rows = heartbeat-presence id user_id telemetry now s db h named in
    (
      λ later.
          ap (λ r. shown (last_seen_of (find (is_presence id user_id) r)) later) rows
          ∙ found id user_id now later s.presence,
      λ other account later ne.
          ap (λ r. shown (last_seen_of (find (is_presence other account) r)) later) rows
          ∙ ap (λ o. shown (last_seen_of o) later)
              (find-set_other id user_id other account now s.presence ne),
    )

-- A device that goes offline for an account is offline for it at once, and so it is for every
-- account where it names none; other devices keep their presence.
pub go_offline-offline :
    (id user_id : String) (s : Sessions)
    → ((later : ℕ) → presence (go_offline id user_id s) id user_id later ≡ offline)
      × ((account : String) (later : ℕ) → presence (go_offline id "" s) id account later ≡ offline)
      × ((other account : String) (later : ℕ)
          → (other =s= id) ≡ false
          → presence (go_offline id user_id s) other account later ≡ presence s other account later)
unfolding presence go_offline
go_offline-offline id user_id s =
    let goes : PresenceRow → Bool =
      λ p. if user_id =s= "" then p.device_id =s= id else is_presence id user_id p in
    (
      λ later.
          ap (λ o. shown (last_seen_of o) later)
            (find-delete-none (is_presence id user_id) goes s.presence (λ p k. ground arith)),
      λ account later.
          ap (λ o. shown (last_seen_of o) later)
            (find-delete-none (is_presence id account) (λ (p : PresenceRow). p.device_id =s= id)
              s.presence (λ p k. ground arith)),
      λ other account later ne.
          ap (λ o. shown (last_seen_of o) later)
            (find-delete_same (is_presence other account) goes s.presence (λ p k.
              ground (arith, str_iff p.device_id id, str_iff p.device_id other, str_iff other id))),
    )
