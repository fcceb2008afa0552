-- ===== src/Api/Views/Identity.antt =====
-- internal/coordinator/pair_identity.go: whom a pair is shown to.
use dshker_server.Api.Routes.{at}
use dshker_server.Api.Views.{PairIdentity, pair_identity}
use dshker_server.Prelude.{
  Result-cases, String, and_left, arith, bind_ok, false, find, find-select, find_sound, inl, inr,
  invalid_request, leb, not, ok, pair_unauthorized, pairing_expired, reject_ok, select, some, sym,
  true, ℕ, ◌&&◌, ◌=s=◌, ◌∙◌, ◌≡◌,
}
use dshker_server.Protocol.Ids.{second, unix, valid_id}
use dshker_server.Sessions.{Sessions}
use dshker_server.Store.Bindings.{is_open}
use dshker_server.Store.PairActions.{authorize_pair, get_pair, list_pairs, takes_part}
use dshker_server.Store.Pairing.{Device, device, is_active_state, is_live_at}
use dshker_server.Store.Schema.{Db, PairRow}

live_now :
    (p : PairRow) (at : ℕ)
    → not (is_open p.state) ≡ false
    → (not (is_active_state p.state) && leb p.expires at) ≡ false
    → is_live_at at p ≡ true
live_now p at o l = ground arith

get_pair-takes_part :
    (db : Db) (device_id pair_id : String) {p : PairRow}
    → get_pair db device_id pair_id ≡ ok p
    → takes_part device_id p ≡ true
unfolding get_pair list_pairs
get_pair-takes_part db device_id pair_id {p} h = elim (Result-cases (device db device_id)) [
  | inl (c, e) ↦ absurd (ground arith)
  | inr (d, e) ↦
      let there : find (λ x. x.id =s= pair_id) (select (takes_part device_id) db.pairs) ≡ some p =
        ground arith in
      and_left _ (p.id =s= pair_id) (
        find_sound (λ x. takes_part device_id x && x.id =s= pair_id) db.pairs
          (sym (find-select (λ x. x.id =s= pair_id) (takes_part device_id) db.pairs) ∙ there))
]

-- The identities of a pair are shown only to an end of it, while it is active, or invited or
-- approved and not expired, and both ends are bound to the same owner's network; they name the
-- account of the device that asks.
pub pair_identity-authorized :
    (s : Sessions) (db : Db) (device_id pair_id : String) (now : ℕ) (shown_to : PairIdentity)
    → pair_identity s db device_id pair_id now ≡ ok shown_to
    → (takes_part device_id shown_to.pair ≡ true)
      × (is_live_at (unix now) shown_to.pair ≡ true)
      × (authorize_pair db shown_to.pair ≡ ok tt)
      × (viewer : Device) × (device db device_id ≡ ok viewer)
      × (shown_to.initiator.user_id ≡ viewer.user_id)
      × (shown_to.target.user_id ≡ viewer.user_id)
unfolding pair_identity
pair_identity-authorized s db device_id pair_id now shown_to h =
    let (valid, h₀) = reject_ok (not (valid_id pair_id)) invalid_request _ h in
    let (pair, found, h₁) = bind_ok (get_pair db device_id pair_id) _ h₀ in
    let (opened, h₂) = reject_ok (not (is_open pair.state)) pair_unauthorized _ h₁ in
    let (live, h₃) =
      reject_ok (not (is_active_state pair.state) && leb pair.expires (unix now)) pairing_expired _
        h₂ in
    let (_, authorized, h₄) = bind_ok (authorize_pair db pair) _ h₃ in
    let (first, e₁, h₅) = bind_ok (device db pair.initiator) _ h₄ in
    let (second, e₂, h₆) = bind_ok (device db pair.target) _ h₅ in
    let (viewer, e₃, h₇) = bind_ok (device db device_id) _ h₆ in
    let same : pair ≡ shown_to.pair = ground (arith, h₇) in
    let parts = get_pair-takes_part db device_id pair_id found in
    (
      rw (← same) parts,
      rw (← same) (live_now pair (unix now) opened live),
      rw (← same) authorized,
      viewer,
      e₃,
      ground (arith, h₇),
      ground (arith, h₇),
    )
