-- ===== src/Tests/Toy.antt =====
-- A service whose signature is the text that it signs, and the tables of two devices in a network.
use dshker_server.Prelude.{
  Bool-cases, List, String, [], err, false, if◌then◌else◌, inl, inr, invalid_csr, none, ok, refl,
  str_refl, true, ℕ, ◌==◌, ◌=s=◌, ◌∷◌, ◌≡◌,
}
use dshker_server.Prelude.Text.{codes, itoa, ◌+s+◌}
use dshker_server.Protocol.Ids.{Bytes, bytes_eq, valid_id}
use dshker_server.Protocol.Service.{Lawful, Scalar, Service, blob, num, text}
use dshker_server.Store.History.{empty_db}
use dshker_server.Store.Schema.{BindingRow, Db, DeviceRow, NetworkRow, UserRow}

abbrev scalar_text : Scalar → String
scalar_text (text s) = s +s+ ";"
scalar_text (num n) = itoa n +s+ ";"
scalar_text (blob b) = ";"

abbrev join : List Scalar → String
join [] = ""
join (x ∷ xs) = scalar_text x +s+ join xs

-- The key id is told by the first byte.
abbrev toy_key_id : Bytes → String
toy_key_id [] = "cccccccccccc"
toy_key_id (b ∷ _) =
    if b == 1
    then "111111111111"
    else if b == 2
    then "222222222222"
    else if b == 3
    then "333333333333"
    else "cccccccccccc"

abbrev pub service_key : Bytes
service_key =
    9 ∷ 0 ∷ 0 ∷ 0 ∷ 0 ∷ 0 ∷ 0 ∷ 0 ∷ 0 ∷ 0 ∷ 0 ∷ 0 ∷ 0 ∷ 0 ∷ 0 ∷ 0 ∷ 0 ∷ 0 ∷ 0 ∷ 0 ∷ 0 ∷ 0 ∷ 0 ∷ 0
    ∷ 0 ∷ 0 ∷ 0 ∷ 0 ∷ 0 ∷ 0 ∷ 0 ∷ 0 ∷ []

abbrev pub toy : Service
toy = record {
  service_id = "cccccccccccc";
  public_key = service_key;
  digest = λ s. s;
  key_id = toy_key_id;
  sign = join;
  verify = λ key m signature. signature =s= join m;
  password_matches = λ hash password. bytes_eq hash (codes password);
  hash_password = λ password. codes password;
  unknown_password = [];
  csr_key = λ csr.
      if csr =s= "csr-3"
      then ok (3 ∷ [])
      else if csr =s= "csr-1"
      then ok (1 ∷ [])
      else err invalid_csr;
  issue_certificate = λ id key now. now ∷ [];
  not_after = λ certificate. none;
}

pub toy-Lawful : Lawful toy
unfolding valid_id
toy-Lawful = record { verify-sign = λ m. str_refl (join m); key_id_valid = key_id_valid_toy }
  where
    key_id_valid_toy : (k : Bytes) → valid_id (toy_key_id k) ≡ true
    key_id_valid_toy [] = refl
    key_id_valid_toy (b ∷ k) = elim (Bool-cases (b == 1)) [
      | inl e ↦ rw e refl
      | inr e ↦ elim (Bool-cases (b == 2)) [
        | inl f ↦ rw (e, f) refl
        | inr f ↦ elim (Bool-cases (b == 3)) [
          | inl g ↦ rw (e, f, g) refl
          | inr g ↦ rw (e, f, g) refl
        ]
      ]
    ]

-- Ten thousand seconds.
abbrev pub noon : ℕ
noon = 10_000_000_000_000

abbrev pub ann : UserRow
ann = record {
  id = "a00000000000";
  email = "ann@example.org";
  password_hash = codes "correct horse";
  disabled = false;
}

abbrev pub home : String
home = "b00000000000"

abbrev pub first_id : String
first_id = "111111111111"

abbrev pub second_id : String
second_id = "222222222222"

abbrev machine : String → Bytes → String → DeviceRow
machine id key request_id = record {
  id = id;
  user_id = "a00000000000";
  public_key = key;
  name = "box";
  certificate = [];
  revoked = false;
  request_id = request_id;
  last_seen = 0;
  version = "";
  platform = "";
  architecture = "";
}

abbrev pub network_row : String → NetworkRow
network_row id = record {
  id = id;
  user_id = "a00000000000";
  name = "home";
  deleted = false;
  max_devices = 10;
}

abbrev pub bound : String → String → BindingRow
bound network_id device_id = record {
  network_id = network_id;
  device_id = device_id;
  active = true;
}

-- Ann's network, with her two devices bound to it.
abbrev pub house : Db
house = record empty_db {
  users = ann ∷ [];
  networks = network_row home ∷ [];
  devices =
      machine first_id (1 ∷ []) "e10000000000" ∷ machine second_id (2 ∷ []) "e20000000000" ∷ [];
  device_users =
      record { device_id = first_id; user_id = "a00000000000" }
      ∷ record { device_id = second_id; user_id = "a00000000000" }
      ∷ [];
  bindings = bound home first_id ∷ bound home second_id ∷ [];
}
