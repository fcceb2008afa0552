-- ===== src/Relay/Ports/Walk.antt =====
-- internal/coordinator/turn.go: an allocation fails only when every port of the range is refused.
use Prim.Native.Char.{code}
use native.Mathlib.Nat.{add-mod_right, mod-eq_of_lt, mod-lt}
use dshker_server.Prelude.{
  Bool, Bool-cases, Code, Result-cases, ap, arith, err, err_ne_ok, false, inl, inr, leb, ok, refl,
  relay_port_exhausted, suc, sym, true, zero, ℕ, ◌%◌, ◌+◌, ◌-◌, ◌<◌, ◌∙◌, ◌≡◌, ◌≤◌, ◌⊎◌,
}
use dshker_server.Relay.Ports.{PortRange, allocate, takes_requested, walk}

-- A residue is met again within so many steps from anywhere below the modulus.
residue_reached :
    (start d span : ℕ)
    → start < span
    → d < span
    → (i : ℕ) × (i < span) × ((start + (0 + i)) % span ≡ d)
residue_reached start d span s l = elim (Bool-cases (leb start d)) [
  | inl e ↦ (d - start, ground arith, ap (λ n. n % span) (there (ground arith)) ∙ mod-eq_of_lt l)
  | inr e ↦ (
    d + span - start,
    ground arith,
    ap (λ n. n % span) (around (ground arith)) ∙ add-mod_right d span ∙ mod-eq_of_lt l,
  )
]
  where
    there : start ≤ d → start + (0 + (d - start)) ≡ d
    there le = omega arith

    around : start ≤ span + d → start + (0 + (d + span - start)) ≡ d + span
    around le = omega arith

module _ (bind_one : ℕ → Bool) where
  abbrev port_at : PortRange → ℕ → ℕ
  port_at g n = g.min_port + n % (g.max_port - g.min_port + 1)

  port_at-in_range :
      (g : PortRange) (n : ℕ)
      → g.min_port ≤ g.max_port
      → (g.min_port ≤ port_at g n) × (port_at g n ≤ g.max_port)
  port_at-in_range g n le =
      let small : n % (g.max_port - g.min_port + 1) < g.max_port - g.min_port + 1 =
        mod-lt n (omega arith) in
      (omega arith, omega (arith, small))

  -- A port that the walk returns is in the range and free.
  walk-in_range :
      (g : PortRange) (start offset rest port : ℕ)
      → g.min_port ≤ g.max_port
      → walk bind_one g start offset rest ≡ ok port
      → (g.min_port ≤ port) × (port ≤ g.max_port) × (bind_one port ≡ true)
  unfolding walk
  walk-in_range g start offset zero port le h = cc
  walk-in_range g start offset (suc rest) port le h =
      elim (Bool-cases (bind_one (port_at g (start + offset)))) [
        | inl e ↦
            let same : port_at g (start + offset) ≡ port = ground arith in
            let (low, high) = port_at-in_range g (start + offset) le in rw (← same) (low, high, e)
        | inr e ↦ walk-in_range g start (offset + 1) rest port le (ground arith)
      ]

  ended :
      (g : PortRange) (start offset rest : ℕ) {c : Code}
      → walk bind_one g start offset rest ≡ err c
      → c ≡ relay_port_exhausted
  unfolding walk
  ended g start offset zero h = ground arith
  ended g start offset (suc rest) {c} h =
      elim (Bool-cases (bind_one (port_at g (start + offset)))) [
        | inl e ↦ absurd (err_ne_ok {a = port_at g (start + offset)} h (rw (e, walk) refl))
        | inr e ↦ ended g start (offset + 1) rest (sym (rw (e, walk) refl) ∙ h)
      ]

  -- A walk that fails has been refused every port that it came to.
  walk-refused :
      (g : PortRange) (start offset rest i : ℕ) {c : Code}
      → walk bind_one g start offset rest ≡ err c
      → i < rest
      → (c ≡ relay_port_exhausted) × (bind_one (port_at g (start + (offset + i))) ≡ false)
  unfolding walk
  walk-refused g start offset zero i h lt = absurd (omega arith)
  walk-refused g start offset (suc rest) zero {c} h lt =
      elim (Bool-cases (bind_one (port_at g (start + offset)))) [
        | inl e ↦ absurd (ground arith)
        | inr e ↦ (
          ended g start (offset + 1) rest (ground arith),
          ap (λ n. bind_one (port_at g (start + n))) (omega arith) ∙ e,
        )
      ]
  walk-refused g start offset (suc rest) (suc i) {c} h lt =
      elim (Bool-cases (bind_one (port_at g (start + offset)))) [
        | inl e ↦ absurd (ground arith)
        | inr e ↦
            let few : i < rest = omega (arith, lt) in
            let moved : offset + suc i ≡ offset + 1 + i = omega arith in
            let (code, refused) = walk-refused g start (offset + 1) rest i (ground arith) few in
            (code, ap (λ n. bind_one (port_at g (start + n))) moved ∙ refused)
      ]

  restored : {m p : ℕ} → m ≤ p → m + (p - m) ≡ p
  restored h = omega arith

  -- In a range that is not empty an allocation gives a port of the range that is free, or fails,
  -- and then because no port of the range is free.
  pub allocate_complete :
      (g : PortRange) (requested nanosecond : ℕ)
      → g.min_port ≤ g.max_port
      → ((port : ℕ) × (allocate bind_one g requested nanosecond ≡ ok port)
          × (g.min_port ≤ port)
          × (port ≤ g.max_port)
          × (bind_one port ≡ true))
        ⊎ ((allocate bind_one g requested nanosecond ≡ err relay_port_exhausted)
            × ((port : ℕ) → g.min_port ≤ port → port ≤ g.max_port → bind_one port ≡ false))
  unfolding allocate
  allocate_complete g requested nanosecond le =
      let span = g.max_port - g.min_port + 1 in
      elim (Bool-cases (takes_requested bind_one g requested)) [
        | inl e ↦ inl (requested, rw e refl, ground arith, ground arith, ground arith)
        | inr e ↦ elim (Result-cases (walk bind_one g (nanosecond % span) 0 span)) [
          | inr (port, f) ↦
              let (low, high, free) = walk-in_range g (nanosecond % span) 0 span port le f in
              inl (port, rw (e, f) refl, low, high, free)
          | inl (c, f) ↦ inr (
            rw (e, f) (ap err (ended g (nanosecond % span) 0 span f)),
            λ port low high.
                let (i, few, at) =
                  residue_reached (nanosecond % span) (port - g.min_port) span
                    (mod-lt nanosecond (omega arith)) (omega arith) in
                let (_, refused) = walk-refused g (nanosecond % span) 0 span i f few in
                ap bind_one (sym (ap (λ n. g.min_port + n) at ∙ restored low)) ∙ refused,
          )
        ]
      ]
