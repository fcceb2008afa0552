-- ===== src/Api/Serve/Sound.antt =====
-- The server after any requests, messages and ends of connections.
use dshker_server.Api.Channel.{read_signal}
use dshker_server.Api.Hub.{disconnect, send}
use dshker_server.Api.Hub.Queues.{IsShort, disconnect-IsShort, receive-IsShort, send-appends}
use dshker_server.Api.Serve.{Event, arrives, leaves, new_server, react, react_all, reads, writes}
use dshker_server.Api.Serve.Machine.{serve-Steps}
use dshker_server.Api.Serve.Steps.{Steps, keeps-Steps}
use dshker_server.Api.Server.{Deployment, Moment, Server}
use dshker_server.Prelude.{
  List, Option, Result-cases, String, [], arith, inl, inr, none, refl, some, ℕ, ◌∷◌, ◌≡◌, ◌≤◌, ◌⊎◌,
}
use dshker_server.Protocol.Ids.{unix, unix_mono}
use dshker_server.Protocol.Signals.{Codec, Signal}
use dshker_server.Sessions.Admission.{admit}
use dshker_server.Sessions.Links.{
  admits, goes_offline, session_run, session_run-IsOrderly, session_step,
}
use dshker_server.Sessions.Orderly.{IsOrderly, new-IsOrderly}
use dshker_server.Store.History.{Call, run, step}
use dshker_server.Store.History.Bounds.{IsBounded}
use dshker_server.Store.History.Capacity.{empty-IsBounded, step-IsBounded}
use dshker_server.Store.History.Exclusive.{IsExclusive, IsExclusive-later, run-IsExclusive}
use dshker_server.Store.Schema.{Db}

module _ (d : Deployment) (codec : Codec) (encode : Signal → String) where
  read_calls :
      (sender : String) (read : Option Signal) (now : ℕ) (s : Server)
      → Steps d.service codec now s (record s {
        sessions = (read_signal d.service codec encode sender read now s.db s.sessions s.hub).1;
        hub = (read_signal d.service codec encode sender read now s.db s.sessions s.hub).2;
      })
  unfolding read_signal session_run session_step
  read_calls sender none now s = keeps-Steps d codec now s
  read_calls sender (some signal) now s =
      elim (Result-cases (admit d.service codec sender signal now s.db s.sessions).0) [
        | inl (c, e) ↦ record {
          tables = inl refl;
          calls = (s.db, now, admits sender signal) ∷ [];
          sessions = rw e refl;
          queues = rw e (λ h. h);
        }
        | inr (u, e) ↦ elim (Result-cases (send signal.to_device_id (encode signal) s.hub)) [
          | inl (c, f) ↦ record {
            tables = inl refl;
            calls = (s.db, now, admits sender signal) ∷ [];
            sessions = rw (e, f) refl;
            queues = rw (e, f) (λ h. h);
          }
          | inr (hub, f) ↦ record {
            tables = inl refl;
            calls = (s.db, now, admits sender signal) ∷ [];
            sessions = rw (e, f) refl;
            queues =
                rw (e, f) (λ h. (send-appends signal.to_device_id (encode signal) s.hub hub h f).0);
          }
        ]
      ]

  react-Steps :
      (s : Server) (m : Moment) (e : Event)
      → Steps d.service codec m.now s (react d codec encode s (m, e))
  unfolding react session_run session_step disconnect
  react-Steps s m (arrives request) = serve-Steps d codec request m s
  react-Steps s m (reads sender signal) = read_calls sender signal m.now s
  react-Steps s m (writes id) = record {
    tables = inl refl;
    calls = [];
    sessions = refl;
    queues = receive-IsShort id s.hub;
  }
  react-Steps s m (leaves id) = record {
    tables = inl refl;
    calls = (s.db, m.now, goes_offline id "") ∷ [];
    sessions = refl;
    queues = disconnect-IsShort id s.hub s.sessions;
  }

-- The invariant of a server at a time, of its tables, its sessions and its hub.
pub record IsSound (at : ℕ) (s : Server) : Type 0 where
  pub bounded : IsBounded s.db
  pub exclusive : IsExclusive (unix at) s.db
  pub orderly : IsOrderly s.sessions
  pub short : IsShort s.hub

-- Events that come in the order of time.
abbrev pub InTime : ℕ → List (Moment × Event) → Type 0
InTime from [] = Unit {0}
InTime from ((m, _) ∷ es) = (from ≤ m.now) × InTime m.now es

abbrev pub end_time : ℕ → List (Moment × Event) → ℕ
end_time from [] = from
end_time from ((m, _) ∷ es) = end_time m.now es

module _ (d : Deployment) (codec : Codec) where
  tables_sound :
      (from now : ℕ) (db db' : Db)
      → from ≤ now
      → (db' ≡ db) ⊎ ((c : Call) × (db' ≡ step d.service db (now, c)))
      → IsBounded db
      → IsExclusive (unix from) db
      → IsBounded db' × IsExclusive (unix now) db'
  unfolding run
  tables_sound from now db db' le (inl e) b x = rw e (b, IsExclusive-later db (unix_mono le) x)
  tables_sound from now db db' le (inr (c, e)) b x = rw e (
    step-IsBounded d.service db (now, c) b,
    run-IsExclusive d.service db from ((now, c) ∷ []) (le, tt) x,
  )

  Steps-IsSound :
      (from now : ℕ) (s t : Server)
      → from ≤ now
      → Steps d.service codec now s t
      → IsSound from s
      → IsSound now t
  Steps-IsSound from now s t le steps i =
      let (b, x) = tables_sound from now s.db t.db le steps.tables i.bounded i.exclusive in
      record {
        bounded = b;
        exclusive = x;
        orderly =
            rw steps.sessions
              (session_run-IsOrderly d.service codec s.sessions steps.calls i.orderly);
        short = steps.queues i.short;
      }

module _ (d : Deployment) (codec : Codec) (encode : Signal → String) where
  react_all-IsSound :
      (from : ℕ) (s : Server) (es : List (Moment × Event))
      → InTime from es
      → IsSound from s
      → IsSound (end_time from es) (react_all d codec encode s es)
  unfolding react_all
  react_all-IsSound from s [] ordered i = i
  react_all-IsSound from s ((m, e) ∷ es) ordered i =
      react_all-IsSound m.now (react d codec encode s (m, e)) es ordered.1 (
        Steps-IsSound d codec from m.now s (react d codec encode s (m, e)) ordered.0
          (react-Steps d codec encode s m e) i)

  -- Whatever requests, messages on the sockets and ends of connections a new server meets, in the
  -- order of time, its store stays bounded, at most one live pair links any two devices of a
  -- network, its attempts stay orderly and every queue of its hub holds 32 messages at most.
  pub new_server-IsSound :
      (es : List (Moment × Event))
      → InTime 0 es
      → IsSound (end_time 0 es) (react_all d codec encode new_server es)
  new_server-IsSound es ordered = react_all-IsSound 0 new_server es ordered (record {
    bounded = empty-IsBounded;
    exclusive = record { one_live = λ network_id a b. omega arith };
    orderly = new-IsOrderly;
    short = refl_short;
  })
    where
      refl_short : IsShort []
      refl_short = record { short = refl }
