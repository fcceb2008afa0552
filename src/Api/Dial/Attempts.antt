-- ===== src/Api/Dial/Attempts.antt =====
-- internal/coordinator/server.go: what a dial leaves behind.
use dshker_server.Api.Dial.{announce, dial, dial_begun}
use dshker_server.Api.Hub.{Hub, send}
use dshker_server.Api.Hub.Queues.{send_ok}
use dshker_server.Api.Routes.{named}
use dshker_server.Prelude.{
  Bool, Code, List, Map, Result, Result-cases, String, [], ap, arith, count_values,
  count_values-keep_if_le, count_values-remove_le, err, err_ne_ok, get, inl, inr, ok, ok_inj, put,
  refl, remove, some, str_iff, str_refl, sym, true, ℕ, ◌++◌, ◌∙◌, ◌∷◌, ◌≡◌, ◌≤◌, ◌⊎◌,
}
use dshker_server.Protocol.Leases.{Lease}
use dshker_server.Protocol.Service.{Service}
use dshker_server.Sessions.{
  Attempt, Sessions, begin, end_attempt, endable, grant, may_begin, prune, start_attempt, unexpired,
}
use dshker_server.Store.Schema.{Db}

module _ (service : Service) (encode : Lease → String) where
  -- A begun attempt is the one that its lease names.
  begun_facts :
      (attempt_id sender target : String) (generation now : ℕ) (db : Db) (s : Sessions)
      (lease : Lease)
      → grant service (prune now s) db attempt_id sender target generation now ≡ ok lease
      → (lease.attempt_id ≡ attempt_id)
        × (lease.from_device_id ≡ sender)
        × (lease.to_device_id ≡ target)
        × (lease.pair_id ≡ target)
  unfolding grant
  begun_facts attempt_id sender target generation now db s lease h = ground arith

  -- The end takes out the attempt that was put in.
  end_attempt-put :
      (sender : String) (lease : Lease) (m : Map Attempt) (s : Sessions)
      → lease.from_device_id ≡ sender
      → s.attempts ≡ put lease.pair_id (start_attempt lease) m
      → (end_attempt sender lease.pair_id lease.attempt_id s).1.attempts
        ≡ remove lease.pair_id (remove lease.pair_id m)
  unfolding end_attempt
  end_attempt-put sender lease m s from wrote =
      let mine : endable sender lease.attempt_id (get lease.pair_id s.attempts) ≡ true = ground (
        arith,
        str_refl lease.pair_id,
        str_refl lease.attempt_id,
        str_iff lease.from_device_id sender,
      ) in
      rw (mine, end_attempt) (ground (arith, str_refl lease.pair_id))

  -- A dial by the result of the attempt's beginning.
  dial_cases :
      (attempt_id sender target : String) (generation now : ℕ) (db : Db) (s : Sessions) (hub : Hub)
      → ((c : Code) × (dial service encode attempt_id sender target generation now db s hub
            ≡ (err c, s, hub)))
        ⊎ (((c : Code) × (dial service encode attempt_id sender target generation now db s hub
                ≡ (err c, prune now s, hub)))
            ⊎ ((lease : Lease) × (grant service
                    (prune now s)
                    db
                    attempt_id
                    sender
                    target
                    generation
                    now
                  ≡ ok lease)
                × (dial service encode attempt_id sender target generation now db s hub
                    ≡ announce service encode sender lease
                        (record s {
                          attempts = put target (start_attempt lease) (prune now s).attempts;
                        })
                        hub
                        (send lease.to_device_id (encode lease) hub))))
  unfolding dial begin
  dial_cases attempt_id sender target generation now db s hub =
      let after : Result Lease × Sessions → Result Lease × Sessions × Hub =
        λ b. dial_begun service encode sender b.0 b.1 hub in
      elim (Result-cases (may_begin service s db sender target generation now)) [
        | inl (c, e) ↦
            let b : begin service attempt_id sender target generation now db s ≡ (err c, s) =
              rw (e, begin) refl in
            inl (c, ap after b)
        | inr (u, e) ↦
            elim (Result-cases
              (grant service (prune now s) db attempt_id sender target generation now)) [
                | inl (c, f) ↦
                    let b : begin service attempt_id sender target generation now db s
                        ≡ (err c, prune now s) =
                      rw (e, f, begin) refl in
                    inr (inl (c, ap after b))
                | inr (lease, f) ↦
                    let b : begin service attempt_id sender target generation now db s ≡ (
                      ok lease,
                      record s {
                        attempts = put target (start_attempt lease) (prune now s).attempts;
                      },
                    ) =
                      rw (e, f, begin) refl in
                    inr (inr (lease, f, ap after b))
              ]
      ]

  announce_ok :
      (sender : String) (lease l : Lease) (s s' : Sessions) (hub hub' : Hub) (r : Result Hub)
      → announce service encode sender lease s hub r ≡ (ok l, s', hub')
      → (l ≡ lease) × (s' ≡ s) × (r ≡ ok hub')
  announce_ok sender lease l s s' hub hub' (err c) h = absurd (err_ne_ok refl (ap (λ r. r.0) h))
  announce_ok sender lease l s s' hub hub' (ok sent) h =
      (ok_inj (ap (λ r. r.0) (sym h)), ap (λ r. r.1) (sym h), ap (λ r. ok r.2) h)

  announce_err :
      (sender : String) (lease : Lease) (s s' : Sessions) (hub hub' : Hub) (r : Result Hub)
      (c : Code)
      → announce service encode sender lease s hub r ≡ (err c, s', hub')
      → (s' ≡ (end_attempt sender lease.pair_id lease.attempt_id s).1) × (hub' ≡ hub)
  announce_err sender lease s s' hub hub' (err d) c h =
      (ap (λ r. r.1) (sym h), ap (λ r. r.2) (sym h))
  announce_err sender lease s s' hub hub' (ok sent) c h = absurd (err_ne_ok (ap (λ r. r.0) h) refl)

  -- A dial that succeeds leaves an attempt under the target with the lease that it returns, which
  -- names the attempt and the caller, and the lease as the last message in the target's queue.
  pub dial-announced :
      (attempt_id sender target : String) (generation now : ℕ) (db : Db) (s s' : Sessions)
      (hub hub' : Hub) (lease : Lease)
      → dial service encode attempt_id sender target generation now db s hub ≡ (ok lease, s', hub')
      → (get target s'.attempts ≡ some (start_attempt lease))
        × (lease.attempt_id ≡ attempt_id)
        × (lease.from_device_id ≡ sender)
        × (queue : List String) × (get target hub ≡ some queue)
        × (get target hub' ≡ some (queue ++ encode lease ∷ []))
  dial-announced attempt_id sender target generation now db s s' hub hub' lease h =
      elim (dial_cases attempt_id sender target generation now db s hub) [
        | inl (c, e) ↦ absurd (err_ne_ok (ap (λ r. r.0) e) (ap (λ r. r.0) h))
        | inr (inl (c, e)) ↦ absurd (err_ne_ok (ap (λ r. r.0) e) (ap (λ r. r.0) h))
        | inr (inr (l, g, e)) ↦
            let begun = record s {
              attempts = put target (start_attempt l) (prune now s).attempts;
            } in
            let (is_lease, left, sent) =
              announce_ok sender l lease begun s' hub hub' (send l.to_device_id (encode l) hub)
                (sym e ∙ h) in
            let (named, from, to, _) =
              begun_facts attempt_id sender target generation now db s l g in
            let (queue, there, _, wrote) = send_ok l.to_device_id (encode l) hub hub' sent in
            (
              rw (left, is_lease) (ground (arith, str_refl target)),
              ap (λ x. x.attempt_id) is_lease ∙ named,
              ap (λ x. x.from_device_id) is_lease ∙ from,
              queue,
              rw (← to) there,
              rw (wrote, is_lease, ← to) (ground (arith, str_refl l.to_device_id)),
            )
      ]

  -- A dial that fails, for whatever reason, leaves the queues as they were and no attempt that
  -- was not there: of the attempts that pass any test there are no more than before.
  pub dial-failed :
      (attempt_id sender target : String) (generation now : ℕ) (db : Db) (s s' : Sessions)
      (hub hub' : Hub) (c : Code)
      → dial service encode attempt_id sender target generation now db s hub ≡ (err c, s', hub')
      → (hub' ≡ hub)
        × ((p : Attempt → Bool) → count_values p s'.attempts ≤ count_values p s.attempts)
  dial-failed attempt_id sender target generation now db s s' hub hub' c h =
      elim (dial_cases attempt_id sender target generation now db s hub) [
        | inl (d, e) ↦
            (ap (λ r. r.2) (sym h ∙ e), λ p. rw (ap (λ r. r.1) (sym h ∙ e)) (omega arith))
        | inr (inl (d, e)) ↦ (
          ap (λ r. r.2) (sym h ∙ e),
          λ p.
              rw (ap (λ r. r.1) (sym h ∙ e)) (count_values-keep_if_le p (unexpired now) s.attempts),
        )
        | inr (inr (l, g, e)) ↦
            let begun = record s {
              attempts = put target (start_attempt l) (prune now s).attempts;
            } in
            let (left, same) =
              announce_err sender l begun s' hub hub' (send l.to_device_id (encode l) hub) c
                (sym e ∙ h) in
            let (_, from, _, pair) = begun_facts attempt_id sender target generation now db s l g in
            let ended =
              end_attempt-put sender l (prune now s).attempts begun from
                (ap (λ t. put t (start_attempt l) (prune now s).attempts) (sym pair)) in
            (
              same,
              λ p. rw (ap (λ x. x.attempts) left ∙ ended) (
                  omega (
                    arith,
                    count_values-remove_le p l.pair_id (remove l.pair_id (prune now s).attempts),
                    count_values-remove_le p l.pair_id (prune now s).attempts,
                    count_values-keep_if_le p (unexpired now) s.attempts,
                  )),
            )
      ]
