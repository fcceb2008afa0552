-- ===== src/Sessions/Links.antt =====
-- Every call on the sessions keeps the attempts orderly.
use dshker_server.Prelude.{
  Bool-cases, List, Result-cases, String, [], all_entries-get, all_entries-remove, ap, arith,
  count_values-remove_le, get, inl, inr, refl, ℕ, ◌∷◌, ◌≡◌,
}
use dshker_server.Protocol.Ids.{minute}
use dshker_server.Protocol.Service.{Service}
use dshker_server.Protocol.Signals.{Codec, Signal}
use dshker_server.Sessions.{
  Sessions, authorize, begin, connects, end_attempt, endable, go_offline, grant, heartbeat,
  heartbeat_allowed, is_past, may_begin, prune, renew,
}
use dshker_server.Sessions.Admission.{admit, admitted}
use dshker_server.Sessions.Checks.{admitted_facts, authorize-get, grant_facts, may_begin_ne}
use dshker_server.Sessions.Orderly.{
  IsOrderly, is_sound, open-IsOrderly, prune-IsOrderly, replace-IsOrderly,
}
use dshker_server.Store.Enrollment.{DeviceTelemetry}
use dshker_server.Store.Schema.{Db}

-- A call on the sessions; the tables may have changed in any way before it.
pub data SessionCall : Type 0 where
  heartbeats : String → String → DeviceTelemetry → SessionCall
  goes_offline : String → String → SessionCall
  begins : String → String → String → ℕ → SessionCall
  renews : String → String → String → SessionCall
  ends : String → String → String → SessionCall
  admits : String → Signal → SessionCall

module _ (service : Service) (codec : Codec) where
  -- The sessions after a call at a time.
  unfoldable pub session_step : Sessions → Db × ℕ × SessionCall → Sessions
  session_step s (db, now, heartbeats id user_id telemetry) =
      (heartbeat id user_id telemetry now s db).1
  session_step s (db, now, goes_offline id user_id) = go_offline id user_id s
  session_step s (db, now, begins attempt_id sender target generation) =
      (begin service attempt_id sender target generation now db s).1
  session_step s (db, now, renews sender pair_id attempt_id) =
      (renew service sender pair_id attempt_id now db s).1
  session_step s (db, now, ends sender pair_id attempt_id) =
      (end_attempt sender pair_id attempt_id s).1
  session_step s (db, now, admits sender signal) = (admit service codec sender signal now db s).1

  unfoldable pub session_run : Sessions → List (Db × ℕ × SessionCall) → Sessions
  session_run s [] = s
  session_run s (c ∷ cs) = session_run (session_step s c) cs

begin-IsOrderly :
    (service : Service) (attempt_id sender target : String) (generation now : ℕ) (db : Db)
    (s : Sessions)
    → IsOrderly s
    → IsOrderly (begin service attempt_id sender target generation now db s).1
unfolding begin
begin-IsOrderly service attempt_id sender target generation now db s o =
    elim (Result-cases (may_begin service s db sender target generation now)) [
      | inl (c, e) ↦ rw (e, begin) o
      | inr (u, e) ↦
          rw (e, begin)
            (elim (Result-cases
              (grant service (prune now s) db attempt_id sender target generation now)) [
                | inl (c, f) ↦ rw f (prune-IsOrderly now s o)
                | inr (l, f) ↦
                    let (from, to, pair, free) =
                      grant_facts service (prune now s) db attempt_id sender target generation now
                        f in
                    rw f (
                      open-IsOrderly (prune now s) l sender target (prune-IsOrderly now s o) from to
                        pair (may_begin_ne service s db sender target generation now e) free)
              ])
    ]

renew-IsOrderly :
    (service : Service) (sender pair_id attempt_id : String) (now : ℕ) (db : Db) (s : Sessions)
    → IsOrderly s
    → IsOrderly (renew service sender pair_id attempt_id now db s).1
unfolding renew
renew-IsOrderly service sender pair_id attempt_id now db s o =
    elim (Result-cases (authorize s db sender pair_id attempt_id now)) [
      | inl (c, e) ↦ rw (e, renew) o
      | inr (a, e) ↦
          let there = authorize-get s db sender pair_id attempt_id now e in
          let sound = all_entries-get is_sound pair_id s.attempts o.sound there in
          rw (e, renew)
            (replace-IsOrderly s pair_id a _ o there refl refl refl (ground (arith, sound)))
    ]

end-IsOrderly :
    (sender pair_id attempt_id : String) (s : Sessions)
    → IsOrderly s
    → IsOrderly (end_attempt sender pair_id attempt_id s).1
unfolding end_attempt
end-IsOrderly sender pair_id attempt_id s o =
    elim (Bool-cases (endable sender attempt_id (get pair_id s.attempts))) [
      | inl e ↦
          rw (e, end_attempt)
            (record {
              sound = all_entries-remove is_sound pair_id s.attempts o.sound;
              one_link = λ a b.
                  omega (
                    arith,
                    o.one_link a b,
                    count_values-remove_le (connects a b) pair_id s.attempts,
                  );
            })
      | inr e ↦ rw (e, end_attempt) o
    ]

admit-IsOrderly :
    (service : Service) (codec : Codec) (sender : String) (signal : Signal) (now : ℕ) (db : Db)
    (s : Sessions)
    → IsOrderly s
    → IsOrderly (admit service codec sender signal now db s).1
unfolding admit
admit-IsOrderly service codec sender signal now db s o =
    elim (Result-cases (admitted service codec s db sender signal now)) [
      | inl (c, e) ↦ rw (e, admit) o
      | inr (a, e) ↦
          let (current, there, same, counted, few) =
            admitted_facts service codec s db sender signal now e in
          rw (e, admit)
            (replace-IsOrderly s signal.pair_id current a o there (ap (λ l. l.from_device_id) same)
              (ap (λ l. l.to_device_id) same) (ap (λ l. l.pair_id) same)
              (omega (arith, counted, few)))
    ]

heartbeat-attempts :
    (id user_id : String) (telemetry : DeviceTelemetry) (now : ℕ) (s : Sessions) (db : Db)
    → (heartbeat id user_id telemetry now s db).1.attempts ≡ s.attempts
unfolding heartbeat
heartbeat-attempts id user_id telemetry now s db =
    elim (Result-cases (heartbeat_allowed db id user_id)) [
      | inl (c, e) ↦ rw (e, heartbeat)
      | inr (u, e) ↦ elim (Bool-cases (is_past (get id s.seen_saved) minute now)) [
        | inl f ↦ rw (e, heartbeat) (rw f)
        | inr f ↦ rw (e, heartbeat) (rw f)
      ]
    ]

attempts-IsOrderly : (s t : Sessions) → t.attempts ≡ s.attempts → IsOrderly s → IsOrderly t
attempts-IsOrderly s t e o = record {
  sound = rw e o.sound;
  one_link = λ a b. rw e (o.one_link a b);
}

module _ (service : Service) (codec : Codec) where
  -- Every call keeps the attempts orderly, whether it succeeds or fails and whatever the tables hold.
  pub session_step-IsOrderly :
      (s : Sessions) (c : Db × ℕ × SessionCall)
      → IsOrderly s
      → IsOrderly (session_step service codec s c)
  unfolding session_step go_offline
  session_step-IsOrderly s (db, now, heartbeats id user_id telemetry) o =
      attempts-IsOrderly s (heartbeat id user_id telemetry now s db).1
        (heartbeat-attempts id user_id telemetry now s db) o
  session_step-IsOrderly s (db, now, goes_offline id user_id) o = record {
    sound = o.sound;
    one_link = o.one_link;
  }
  session_step-IsOrderly s (db, now, begins attempt_id sender target generation) o =
      begin-IsOrderly service attempt_id sender target generation now db s o
  session_step-IsOrderly s (db, now, renews sender pair_id attempt_id) o =
      renew-IsOrderly service sender pair_id attempt_id now db s o
  session_step-IsOrderly s (db, now, ends sender pair_id attempt_id) o =
      end-IsOrderly sender pair_id attempt_id s o
  session_step-IsOrderly s (db, now, admits sender signal) o =
      admit-IsOrderly service codec sender signal now db s o

  -- After any calls on the sessions, whatever the tables hold at each, the attempts that were
  -- orderly still are: each is keyed by its target, which is also its pair, links two different
  -- devices and has admitted 512 messages at most, and no two devices have more than one attempt
  -- between them, in either direction.
  pub session_run-IsOrderly :
      (s : Sessions) (cs : List (Db × ℕ × SessionCall))
      → IsOrderly s
      → IsOrderly (session_run service codec s cs)
  unfolding session_run
  session_run-IsOrderly s [] o = o
  session_run-IsOrderly s (c ∷ cs) o =
      session_run-IsOrderly (session_step service codec s c) cs (session_step-IsOrderly s c o)
