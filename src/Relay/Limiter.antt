-- ===== src/Relay/Limiter.antt =====
-- internal/coordinator/stun.go: how many requests the STUN socket answers.
pub mod Budget
use dshker_server.Prelude.{
  Bool, Map, Option, String, [], count, false, get, if◌then◌else◌, is_some, keep_if, leb, none, not,
  put, some, suc, true, ℕ, ◌&&◌, ◌+◌, ◌∷◌,
}
use dshker_server.Protocol.Ids.{minute, second}
use dshker_server.Store.History.Lifecycle.{then}

-- `none` is the zero time.
pub record SourceBudget : Type 0 where
  pub at : Option ℕ
  pub count : ℕ

pub record Limiter : Type 0 where
  pub sources : Map SourceBudget
  pub global : SourceBudget

unfoldable pub new_limiter : Limiter
new_limiter = record { sources = []; global = record { at = none; count = 0 } }

-- `!value.at.Add(interval).After(now)`
abbrev pub is_over : ℕ → ℕ → SourceBudget → Bool
is_over interval now b = elim b.at [ none ↦ true | some at ↦ leb (at + interval) now ]

abbrev pub renewed : ℕ → SourceBudget → SourceBudget
renewed now b = if is_over second now b then record { at = some now; count = 0 } else b

abbrev pub size : Map SourceBudget → ℕ
size [] = 0
size (_ ∷ m) = suc (size m)

-- The entries that are at most a minute old.
abbrev pub recent : ℕ → Map SourceBudget → Map SourceBudget
recent now sources = keep_if (λ b. not (is_over minute now b)) sources

abbrev pub budget_of : Option SourceBudget → SourceBudget
budget_of none = record { at = none; count = 0 }
budget_of (some b) = b

abbrev pub spent_one : SourceBudget → SourceBudget
spent_one b = record b { count = b.count + 1 }

-- `allow`: the answer and the budgets after it.
unfoldable pub allow : String → ℕ → Limiter → Bool × Limiter
allow source now l =
    let global = renewed now l.global in
    let sources = recent now l.sources in
    let value = renewed now (budget_of (get source sources)) in
    if leb 1000 global.count
    then (false, record { sources = l.sources; global = global })
    else if not (is_some (get source sources)) && leb 1024 (size sources)
    then (false, record { sources = sources; global = global })
    else if leb 20 value.count
    then (false, record { sources = sources; global = global })
    else (
      true,
      record { sources = put source (spent_one value) sources; global = spent_one global },
    )
