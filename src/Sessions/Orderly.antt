-- ===== src/Sessions/Orderly.antt =====
-- What holds of the attempts between two calls, and the changes that keep it.
use dshker_server.Prelude.{
  Bool, Bool-cases, String, all_entries, all_entries-get, all_entries-keep_if, all_entries-remove,
  arith, count_of_not-any_value, count_values, count_values-keep_if_le, count_values-le_of_imp,
  count_values-remove-get, count_values-remove_le, false, get, inl, inr, leb, not, put, refl, some,
  str_iff, true, ℕ, ◌&&◌, ◌=s=◌, ◌≡◌, ◌≤◌,
}
use dshker_server.Protocol.Leases.{Lease}
use dshker_server.Sessions.{
  Attempt, Sessions, connects, is_busy, new_sessions, prune, start_attempt, unexpired,
}

-- An entry of the map: the key is the target, the link has two ends, the messages are counted.
abbrev pub is_sound : String → Attempt → Bool
is_sound key a =
    a.lease.to_device_id =s= key
    && a.lease.pair_id =s= key
    && not (a.lease.from_device_id =s= a.lease.to_device_id)
    && leb a.message_count 512

pub record IsOrderly (s : Sessions) : Type 0 where
  pub sound : all_entries is_sound s.attempts ≡ true
  -- One attempt at most between two devices, in either direction.
  pub one_link : (a b : String) → count_values (connects a b) s.attempts ≤ 1

pub new-IsOrderly : IsOrderly new_sessions
unfolding new_sessions
new-IsOrderly = record { sound = refl; one_link = λ a b. omega arith }

pub prune-IsOrderly : (now : ℕ) (s : Sessions) → IsOrderly s → IsOrderly (prune now s)
prune-IsOrderly now s o = record {
  sound = all_entries-keep_if is_sound (unexpired now) s.attempts o.sound;
  one_link = λ a b.
      omega
        (arith, o.one_link a b, count_values-keep_if_le (connects a b) (unexpired now) s.attempts);
}

-- An attempt that takes an entry's place on the same link, with no message more than is allowed.
pub replace-IsOrderly :
    (s : Sessions) (key : String) (old a : Attempt)
    → IsOrderly s
    → get key s.attempts ≡ some old
    → a.lease.from_device_id ≡ old.lease.from_device_id
    → a.lease.to_device_id ≡ old.lease.to_device_id
    → a.lease.pair_id ≡ old.lease.pair_id
    → a.message_count ≤ 512
    → IsOrderly (record s { attempts = put key a s.attempts })
replace-IsOrderly s key old a o e from to pair few = record {
  sound = ground (
    arith,
    all_entries-remove is_sound key s.attempts o.sound,
    all_entries-get is_sound key s.attempts {v = old} o.sound e,
  );
  one_link = λ x y.
      ground
        (arith, o.one_link x y, count_values-remove-get (connects x y) key s.attempts {v = old} e);
}

-- Whatever links the ends of a link links the same devices.
connects_same :
    (x y a b : String) (t u : Attempt)
    → t.lease.from_device_id ≡ a
    → t.lease.to_device_id ≡ b
    → connects x y t ≡ true
    → connects x y u ≡ true
    → connects a b u ≡ true
connects_same x y a b t u from to h k =
    ground (arith, str_iff a x, str_iff a y, str_iff b x, str_iff b y)

-- A new attempt over a link that nothing uses.
pub open-IsOrderly :
    (s : Sessions) (lease : Lease) (sender target : String)
    → IsOrderly s
    → lease.from_device_id ≡ sender
    → lease.to_device_id ≡ target
    → lease.pair_id ≡ target
    → (sender =s= target) ≡ false
    → is_busy sender target s.attempts ≡ false
    → IsOrderly (record s { attempts = put target (start_attempt lease) s.attempts })
open-IsOrderly s lease sender target o from to pair ne free = record {
  sound = ground (
    arith,
    all_entries-remove is_sound target s.attempts o.sound,
    str_iff lease.to_device_id target,
    str_iff lease.pair_id target,
    str_iff lease.from_device_id lease.to_device_id,
    str_iff sender target,
  );
  one_link = λ x y. elim (Bool-cases (connects x y (start_attempt lease))) [
    | inl on ↦ ground (
      arith,
      count_values-remove_le (connects x y) target s.attempts,
      count_values-le_of_imp (connects x y) (connects sender target) s.attempts
          (λ u k. connects_same x y sender target (start_attempt lease) u from to on k),
      count_of_not-any_value (connects sender target) s.attempts,
    )
    | inr off ↦
        ground (arith, o.one_link x y, count_values-remove_le (connects x y) target s.attempts)
  ];
}
