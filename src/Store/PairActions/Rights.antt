-- ===== src/Store/PairActions/Rights.antt =====
-- internal/coordinator/pairing.go: who may act on a pair, and what an action needs.
use dshker_server.Prelude.{
  Result-cases, String, ap, arith, bind_ok, count, false, inl, inr, invalid_pair_action, not, ok,
  or_fail, pair_state_conflict, reject_ok, some, str_iff, sym, update, ℕ, ◌<◌, ◌==◌, ◌||◌, ◌∙◌, ◌≡◌,
}
use dshker_server.Protocol.Ids.{unix}
use dshker_server.Protocol.Service.{Service}
use dshker_server.Store.PairActions.{
  PairAction, act_on_pair, advance, authorize_pair, confirm, end_revoked, get_pair, next_state,
  pair_action, same_revision,
}
use dshker_server.Store.Pairing.{Device, device}
use dshker_server.Store.Schema.{Db, PairRow, PairState, approved}

module _ (service : Service) where
  -- The steps of an action that succeeded.
  pub record Acted (device_id pair_id action fingerprint : String) (now : ℕ) (db : Db)
      (updated : PairRow) (db' : Db) : Type 0 where
    pub pair : PairRow
    pub chosen : PairAction
    pub next : PairState
    pub found : get_pair db device_id pair_id ≡ ok pair
    pub authorized : authorize_pair db pair ≡ ok tt
    pub named : pair_action action ≡ some chosen
    pub allowed : next_state service db device_id pair chosen fingerprint now ≡ ok next
    pub unique : count (same_revision pair) db.pairs ≡ 1
    pub live : end_revoked db pair ≡ false
    pub wrote : db' ≡ record db { pairs = update (same_revision pair) (advance next) db.pairs }
    pub read : get_pair db' device_id pair_id ≡ ok updated

  pub act_on_pair-Acted :
      (device_id pair_id action fingerprint : String) (now : ℕ) (db : Db) (updated : PairRow)
      (db' : Db)
      → act_on_pair service device_id pair_id action fingerprint now db ≡ ok (updated, db')
      → Acted device_id pair_id action fingerprint now db updated db'
  unfolding act_on_pair
  act_on_pair-Acted device_id pair_id action fingerprint now db updated db' h =
      let (pair, found, h₁) = bind_ok (get_pair db device_id pair_id) _ h in
      let (_, authorized, h₂) = bind_ok (authorize_pair db pair) _ h₁ in
      let (chosen, named, h₃) = bind_ok (or_fail (pair_action action) invalid_pair_action) _ h₂ in
      let (next, allowed, h₄) =
        bind_ok (next_state service db device_id pair chosen fingerprint now) _ h₃ in
      let (one, h₅) =
        reject_ok (end_revoked db pair || not (count (same_revision pair) db.pairs == 1))
          pair_state_conflict _ h₄ in
      let changed = record db { pairs = update (same_revision pair) (advance next) db.pairs } in
      let (_, read, h₆) = bind_ok (get_pair changed device_id pair_id) _ h₅ in
      record {
        pair = pair;
        chosen = chosen;
        next = next;
        found = found;
        authorized = authorized;
        named = ground arith;
        allowed = allowed;
        unique = ground arith;
        live = ground arith;
        wrote = ground arith;
        read = ground arith;
      }

  -- What a confirmation has checked.
  confirm_checked :
      (db : Db) (device_id : String) (pair : PairRow) (fingerprint : String) (now : ℕ)
      (next : PairState)
      → next_state service db device_id pair confirm fingerprint now ≡ ok next
      → (target : Device) × (pair.initiator ≡ device_id)
        × (pair.state ≡ approved)
        × (unix now < pair.expires)
        × (device db pair.target ≡ ok target)
        × (fingerprint ≡ service.key_id target.public_key)
  unfolding next_state
  confirm_checked db device_id pair fingerprint now next h =
      elim (Result-cases (device db pair.target)) [
        | inl (c, e) ↦ absurd (ground arith)
        | inr (target, e) ↦ (
          target,
          ground (arith, str_iff pair.initiator device_id),
          ground arith,
          ground arith,
          e,
          ground (arith, str_iff fingerprint (service.key_id target.public_key)),
        )
      ]

  -- A confirmation succeeds only for the initiator of a pair that is approved and has not
  -- expired, and only with the fingerprint of the target's own key.
  pub confirm-pinned :
      (device_id pair_id fingerprint : String) (now : ℕ) (db : Db) (updated : PairRow) (db' : Db)
      → act_on_pair service device_id pair_id "confirm" fingerprint now db ≡ ok (updated, db')
      → (pair : PairRow) × (target : Device) × (get_pair db device_id pair_id ≡ ok pair)
        × (pair.initiator ≡ device_id)
        × (pair.state ≡ approved)
        × (unix now < pair.expires)
        × (device db pair.target ≡ ok target)
        × (fingerprint ≡ service.key_id target.public_key)
  unfolding pair_action
  confirm-pinned device_id pair_id fingerprint now db updated db' h =
      let a = act_on_pair-Acted device_id pair_id "confirm" fingerprint now db updated db' h in
      let chosen : a.chosen ≡ confirm = ground (arith, a.named) in
      let (target, mine, was, live, known, same) =
        confirm_checked db device_id a.pair fingerprint now a.next (
          ap (λ c. next_state service db device_id a.pair c fingerprint now) (sym chosen)
          ∙ a.allowed) in
      (a.pair, target, a.found, mine, was, live, known, same)
