-- ===== src/Api/Serve/Steps.antt =====
-- internal/coordinator/server.go: what a request may do to the tables, the sessions and the hub.
use dshker_server.Api.Devices.{on_sessions}
use dshker_server.Api.Hub.Queues.{IsShort}
use dshker_server.Api.Server.{Answer, Deployment, Server, Value, on_read, on_store, with_body}
use dshker_server.Prelude.{List, Result, [], commit, err, inl, inr, ok, refl, ℕ, ◌∷◌, ◌≡◌, ◌⊎◌}
use dshker_server.Protocol.Service.{Service}
use dshker_server.Protocol.Signals.{Codec}
use dshker_server.Sessions.{Sessions}
use dshker_server.Sessions.Links.{SessionCall, session_run, session_step}
use dshker_server.Store.History.{Call, step}
use dshker_server.Store.Schema.{Db}

-- At most one call of the store, calls of the sessions, and queues that stay short.
pub record Steps (service : Service) (codec : Codec) (now : ℕ) (s s' : Server) : Type 0 where
  pub tables : (s'.db ≡ s.db) ⊎ ((c : Call) × (s'.db ≡ step service s.db (now, c)))
  pub calls : List (Db × ℕ × SessionCall)
  pub sessions : s'.sessions ≡ session_run service codec s.sessions calls
  pub queues : IsShort s.hub → IsShort s'.hub

module _ (d : Deployment) (codec : Codec) (now : ℕ) where
  pub keeps-Steps : (s : Server) → Steps d.service codec now s s
  unfolding session_run
  keeps-Steps s = record { tables = inl refl; calls = []; sessions = refl; queues = λ h. h }

  pub on_store-Steps {ℓ} :
      {A : Type ℓ} (value : A → Value) (r : Result (A × Db)) (s : Server) (c : Call)
      → commit s.db r ≡ step d.service s.db (now, c)
      → Steps d.service codec now s (on_store d value r s).1
  unfolding session_run on_store
  on_store-Steps value r s c e = record {
    tables = inr (c, e);
    calls = [];
    sessions = refl;
    queues = λ h. h;
  }

  pub with_body-Steps {ℓ} :
      {A : Type ℓ} (r : Result A) (next : A → Server → Answer × Server) (s : Server)
      → ((a : A) → Steps d.service codec now s (next a s).1)
      → Steps d.service codec now s (with_body d r next s).1
  unfolding with_body
  with_body-Steps (err c) next s h = keeps-Steps s
  with_body-Steps (ok a) next s h = h a

  pub on_read-Steps {ℓ} :
      {A : Type ℓ} (value : A → Value) (r : Result A) (s : Server)
      → Steps d.service codec now s (on_read d value r s).1
  unfolding on_read
  on_read-Steps value r s = keeps-Steps s

  -- One call of the sessions.
  pub on_sessions-Steps {ℓ} :
      {A : Type ℓ} (value : A → Value) (r : Result A × Sessions) (s : Server)
      (c : Db × ℕ × SessionCall)
      → r.1 ≡ session_step d.service codec s.sessions c
      → Steps d.service codec now s (on_sessions d value r s).1
  unfolding session_run on_sessions
  on_sessions-Steps value r s c e = record {
    tables = inl refl;
    calls = c ∷ [];
    sessions = e;
    queues = λ h. h;
  }
