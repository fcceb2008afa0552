-- ===== src/Relay/Stun/Rate.antt =====
-- internal/coordinator/stun.go: how many answers `ServeSTUN` can write in a second.
use dshker_server.Prelude.{
  Bool, Bool-cases, List, Option-cases, Result, String, [], all, arith, err, false, if◌then◌else◌,
  inl, inr, leb, length, ltb, none, ok, some, true, ℕ, ◌&&◌, ◌+◌, ◌-◌, ◌∷◌, ◌≡◌, ◌≤◌,
}
use dshker_server.Protocol.Ids.{Bytes, second}
use dshker_server.Relay.Limiter.{Limiter, SourceBudget, allow, renewed}
use dshker_server.Relay.Limiter.Budget.{IsWithin, within}
use dshker_server.Relay.Stun.{
  Ending, Read, Reply, Source, StunLibrary, Turn, bad_size, broken, buffer_size, packet, passes,
  replied, serve_stun, serve_turn, stun_response, take,
}

-- The window of the budget has begun since a time.
abbrev begun : ℕ → SourceBudget → Bool
begun t b = elim b.at [ none ↦ false | some at ↦ leb t at ]

-- What is left of the window, and of the one that may follow it within the second from `t`.
abbrev quota : ℕ → SourceBudget → ℕ
quota t b = (1000 - b.count) + (if begun t b then 0 else 1000)

abbrev pub in_second : ℕ → ℕ → Bool
in_second t now = leb t now && ltb now (t + second)

renewed-quota :
    (t now : ℕ) (b : SourceBudget)
    → in_second t now ≡ true
    → b.count ≤ 1000
    → (quota t (renewed now b) ≤ quota t b) × ((renewed now b).count ≤ 1000)
renewed-quota t now b h k = elim (Option-cases b.at) [
  | inl e ↦ (ground (arith, e), ground (arith, e))
  | inr (at, e) ↦ (ground (arith, e), ground (arith, e))
]

-- An answer is taken off what is left.
allow-quota :
    (t : ℕ) (ip : String) (now : ℕ) (budget : Limiter)
    → in_second t now ≡ true
    → budget.global.count ≤ 1000
    → ((if (allow ip now budget).0 then 1 else 0) + quota t (allow ip now budget).1.global
        ≤ quota t budget.global)
      × ((allow ip now budget).1.global.count ≤ 1000)
unfolding allow
allow-quota t ip now budget h k =
    let (less, within) = renewed-quota t now budget.global h k in
    (ground (arith, less, within), ground (arith, less, within))

passes-quota :
    (t : ℕ) (bytes : Bytes) (source : Source) (now : ℕ) (budget : Limiter)
    → in_second t now ≡ true
    → budget.global.count ≤ 1000
    → ((if (passes bytes source now budget).0 then 1 else 0)
          + quota t (passes bytes source now budget).1.global
        ≤ quota t budget.global)
      × ((passes bytes source now budget).1.global.count ≤ 1000)
unfolding passes
passes-quota t bytes source now budget h k = elim (Bool-cases (bad_size bytes)) [
  | inl e ↦ rw e (omega arith, k)
  | inr e ↦ rw e (allow-quota t source.ip now budget h k)
]

module _ (lib : StunLibrary) where
  replied-length :
      (r : Result Bytes) (written : Bool) (source : Source) (rest : Ending × List Reply)
      → length (replied lib r written source rest).1 ≤ 1 + length rest.1
  replied-length (err c) written source rest = omega arith
  replied-length (ok response) true source rest = omega arith
  replied-length (ok response) false source rest = omega arith

  turn-quota :
      (t : ℕ) (turn : Turn) (r : Read) (next : Limiter → Ending × List Reply) (budget : Limiter)
      → in_second t turn.now ≡ true
      → budget.global.count ≤ 1000
      → ((budget : Limiter)
          → budget.global.count ≤ 1000
          → length (next budget).1 ≤ quota t budget.global)
      → length (serve_turn lib turn r next budget).1 ≤ quota t budget.global
  turn-quota t turn broken next budget h k rest = omega arith
  turn-quota t turn (packet sent source) next budget h k rest =
      let bytes = take buffer_size sent in
      let test = passes bytes source turn.now budget in
      let (less, within) = passes-quota t bytes source turn.now budget h k in
      ground (
        arith,
        less,
        rest test.1 within,
        replied-length (stun_response lib bytes source) turn.written source (next test.1),
      )

  serve_stun-quota :
      (t : ℕ) (turns : List Turn) (budget : Limiter)
      → all (λ turn. in_second t turn.now) turns ≡ true
      → budget.global.count ≤ 1000
      → length (serve_stun lib turns budget).1 ≤ quota t budget.global
  unfolding serve_stun
  serve_stun-quota t [] budget h k = omega arith
  serve_stun-quota t (turn ∷ turns) budget h k =
      turn-quota t turn turn.read (serve_stun lib turns) budget (ground arith) k
        (λ next. serve_stun-quota t turns next (ground arith))

  -- Of the datagrams of any one second, however many, at most two thousand are answered, from
  -- budgets within their bounds.
  pub serve_stun-rate :
      (t : ℕ) (turns : List Turn) (budget : Limiter)
      → all (λ turn. in_second t turn.now) turns ≡ true
      → IsWithin budget
      → length (serve_stun lib turns budget).1 ≤ 2000
  serve_stun-rate t turns budget h w =
      ground (arith, serve_stun-quota t turns budget h w.all_of_them)
