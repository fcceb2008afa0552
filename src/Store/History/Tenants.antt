-- ===== src/Store/History/Tenants.antt =====
-- internal/coordinator/networks.go, users.go and enrollment.go: the rows that an account's own calls
-- change.
pub mod Networks
pub mod Members
use dshker_server.Prelude.{
  Bool, Option-cases, String, any, any_of_found, arith, false, find, find_sound, inl, inr, not, ok,
  refl, select, str_iff, true, ◌&&◌, ◌=s=◌, ◌||◌, ◌≡◌,
}
use dshker_server.Store.Networks.{network_owned, owns}
use dshker_server.Store.Schema.{
  BindingRow, Db, NetworkRow, PairRow, ShareRow, TokenRow, UserSessionRow,
}

-- A network of the account has the identifier.
abbrev pub holds : Db → String → String → Bool
holds db user_id id = any (λ n. n.id =s= id && n.user_id =s= user_id) db.networks

-- Neither the account's nor under the identifier of one that is.
abbrev pub foreign_network : Db → String → NetworkRow → Bool
foreign_network db user_id n = not (n.user_id =s= user_id || holds db user_id n.id)

abbrev pub foreign_token : Db → String → TokenRow → Bool
foreign_token db user_id t = not (holds db user_id t.network_id)

abbrev pub foreign_binding : Db → String → BindingRow → Bool
foreign_binding db user_id b = not (holds db user_id b.network_id)

abbrev pub foreign_share : Db → String → ShareRow → Bool
foreign_share db user_id s = not (holds db user_id s.network_id)

abbrev pub foreign_pair : Db → String → PairRow → Bool
foreign_pair db user_id p = not (holds db user_id p.network_id)

abbrev pub foreign_session : String → UserSessionRow → Bool
foreign_session user_id s = not (s.user_id =s= user_id)

-- What an account has changed: no account, no device, no link of a device, no renewal, of the
-- sessions its own, and of the rest what belongs to its networks.
pub record KeepsOthers (user_id : String) (db db' : Db) : Type 0 where
  pub rest : db' ≡ record db {
    user_sessions = db'.user_sessions;
    networks = db'.networks;
    tokens = db'.tokens;
    bindings = db'.bindings;
    shares = db'.shares;
    pairs = db'.pairs;
    audit = db'.audit;
  }
  pub user_sessions :
      select (foreign_session user_id) db'.user_sessions
      ≡ select (foreign_session user_id) db.user_sessions
  pub networks :
      select (foreign_network db user_id) db'.networks
      ≡ select (foreign_network db user_id) db.networks
  pub tokens :
      select (foreign_token db user_id) db'.tokens ≡ select (foreign_token db user_id) db.tokens
  pub bindings :
      select (foreign_binding db user_id) db'.bindings
      ≡ select (foreign_binding db user_id) db.bindings
  pub shares :
      select (foreign_share db user_id) db'.shares ≡ select (foreign_share db user_id) db.shares
  pub pairs : select (foreign_pair db user_id) db'.pairs ≡ select (foreign_pair db user_id) db.pairs

pub same-KeepsOthers : (user_id : String) (db : Db) → KeepsOthers user_id db db
same-KeepsOthers user_id db = record {
  rest = refl;
  user_sessions = refl;
  networks = refl;
  tokens = refl;
  bindings = refl;
  shares = refl;
  pairs = refl;
}

pub held_of_owned :
    (db : Db) (user_id id : String) (network : NetworkRow)
    → network_owned db user_id id ≡ ok network
    → holds db user_id id ≡ true
unfolding network_owned
held_of_owned db user_id id network h =
    elim (Option-cases (find (owns db user_id id) db.networks)) [
      | inl e ↦ absurd (ground arith)
      | inr (n, e) ↦
          any_of_found (owns db user_id id) (λ n. n.id =s= id && n.user_id =s= user_id) db.networks
            e (ground (arith, find_sound (owns db user_id id) db.networks e))
    ]

-- Rows of a network of the account are not kept.
pub held :
    (db : Db) (user_id id x : String)
    → holds db user_id id ≡ true
    → (x =s= id) ≡ true
    → not (holds db user_id x) ≡ false
held db user_id id x mine same = rw ((str_iff x id).0 same, mine) refl
