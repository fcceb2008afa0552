-- ===== src/Store/History/Pairs.antt =====
-- Every call changes the pairs as their state machine allows.
use Prim.Native.Char.{code}
use dshker_server.Prelude.{String, ap, inl, inr, length, refl, ℕ, ◌≡◌, ◌≤◌, ◌⊎◌}
use dshker_server.Protocol.Ids.{unix}
use dshker_server.Protocol.Service.{Service}
use dshker_server.Store.History.{
  Call, acts_on_pair, adopts_network, binds_device, creates_network, creates_user, deletes_network,
  deletes_pair, disables_user, enrolls, invites, issues_token, joins_network, limits_network,
  logs_in, logs_out, recovers_certificate, renames_network, renews_certificate, reports_seen,
  revokes_device, shares, step, unbinds_device,
}
use dshker_server.Store.History.DeviceFrames.{
  enroll_frame, issue_enrollment_token_frame, join_network_frame, record_device_seen_frame,
  recover_certificate_frame, renew_certificate_frame, share_frame,
}
use dshker_server.Store.History.Frames.{
  bind_device_frame, create_network_frame, create_user_frame, login_frame, logout_frame,
  rename_network_frame, update_network_limit_frame,
}
use dshker_server.Store.History.Machine.{Adoptions, PairMove, PairMoves, done, more}
use dshker_server.Store.History.PairSteps.{
  delete_network-PairMove, delete_pair-PairMove, disable_user-PairMove, invite-PairMove,
  revoke_device-PairMove, unbind_device-PairMove,
}
use dshker_server.Store.History.PairSteps.Actions.{act_on_pair-PairMove}
use dshker_server.Store.History.PairSteps.Adoptions.{Adoptions-PairMoves, adopt_network-Adoptions}
use dshker_server.Store.Schema.{Db}

pub step-PairMove :
    (service : Service) (db : Db) (now : ℕ) (c : Call)
    → PairMove (unix now) db (step service db (now, c))
      ⊎ ((ids : ℕ → String) × (me : String) × (c ≡ adopts_network ids me)
          × (rounds : ℕ) × (rounds ≤ length db.bindings)
          × Adoptions me (unix now) db rounds (step service db (now, c)))
unfolding step
step-PairMove service db now (creates_user id email password) =
    inl (PairMove.keep (ap (λ s. s.pairs) (create_user_frame service id email password db)))
step-PairMove service db now (logs_in busy secret username password) =
    inl
      (PairMove.keep (ap (λ s. s.pairs) (login_frame service busy secret username password now db)))
step-PairMove service db now (logs_out token) =
    inl (PairMove.keep (ap (λ s. s.pairs) (logout_frame service token db)))
step-PairMove service db now (disables_user id) = inl (disable_user-PairMove id now db)
step-PairMove service db now (creates_network id user_id name) =
    inl (PairMove.keep (ap (λ s. s.pairs) (create_network_frame id user_id name db)))
step-PairMove service db now (renames_network user_id id name) =
    inl (PairMove.keep (ap (λ s. s.pairs) (rename_network_frame user_id id name db)))
step-PairMove service db now (limits_network user_id id limit) =
    inl (PairMove.keep (ap (λ s. s.pairs) (update_network_limit_frame user_id id limit now db)))
step-PairMove service db now (deletes_network user_id id) =
    inl (delete_network-PairMove user_id id now db)
step-PairMove service db now (binds_device user_id network_id device_id) =
    inl (PairMove.keep (ap (λ s. s.pairs) (bind_device_frame user_id network_id device_id db)))
step-PairMove service db now (unbinds_device user_id network_id device_id) =
    inl (unbind_device-PairMove user_id network_id device_id now db)
step-PairMove service db now (deletes_pair user_id network_id pair_id) =
    inl (delete_pair-PairMove user_id network_id pair_id now db)
step-PairMove service db now (issues_token secret user_id network_id) = inl (
    PairMove.keep
      (ap (λ s. s.pairs) (issue_enrollment_token_frame service secret user_id network_id now db)))
step-PairMove service db now (enrolls request) =
    inl (PairMove.keep (ap (λ s. s.pairs) (enroll_frame service request now db)))
step-PairMove service db now (joins_network request) =
    inl (PairMove.keep (ap (λ s. s.pairs) (join_network_frame service request now db)))
step-PairMove service db now (reports_seen id telemetry) =
    inl (PairMove.keep (ap (λ s. s.pairs) (record_device_seen_frame id telemetry now db)))
step-PairMove service db now (shares nonce id network_id) =
    inl (PairMove.keep (ap (λ s. s.pairs) (share_frame service nonce id network_id now db)))
step-PairMove service db now (invites id sender code) =
    inl (invite-PairMove service id sender code now db)
step-PairMove service db now (adopts_network ids device_id) =
    let (rounds, few, made) = adopt_network-Adoptions ids device_id now db in
    inr (ids, device_id, refl, rounds, few, made)
step-PairMove service db now (acts_on_pair device_id pair_id action fingerprint) =
    inl (act_on_pair-PairMove service device_id pair_id action fingerprint now db)
step-PairMove service db now (renews_certificate certificate request) =
    inl (
      PairMove.keep
        (ap (λ s. s.pairs) (renew_certificate_frame service certificate request now db)))
step-PairMove service db now (recovers_certificate request) =
    inl (PairMove.keep (ap (λ s. s.pairs) (recover_certificate_frame service request now db)))
step-PairMove service db now (revokes_device id) = inl (revoke_device-PairMove id now db)

pub step-PairMoves :
    (service : Service) (db : Db) (now : ℕ) (c : Call)
    → PairMoves (unix now) db (step service db (now, c))
step-PairMoves service db now c = elim (step-PairMove service db now c) [
  | inl m ↦ more (done refl) m
  | inr (_, _, _, _, _, rounds) ↦ Adoptions-PairMoves rounds
]
