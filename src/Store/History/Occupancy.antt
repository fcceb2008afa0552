-- ===== src/Store/History/Occupancy.antt =====
-- The moves of the bindings keep the key of their table and the thirty devices of a network.
use dshker_server.Prelude.{
  Bool-cases, List, Option-cases, String, [], all, all-find, and_left, any, arith, count,
  count-append, count-le_of_imp, count-split, count-update_add, count-update_le, count-update_same,
  count_of_any, count_of_not-any, false, find, if◌then◌else◌, inl, inr, not, refl, some, str_iff,
  true, update, ℕ, ◌&&◌, ◌+◌, ◌<◌, ◌=s=◌, ◌∷◌, ◌≡◌, ◌≤◌,
}
use dshker_server.Store.Bindings.{bind_row, is_binding, set_active}
use dshker_server.Store.History.Bindings.{BindingMove, enter, release}
use dshker_server.Store.History.Bounds.{IsBounded}
use dshker_server.Store.Networks.{
  active_binding_count, binding_fits_capacity, is_active_binding, valid_network_limit,
}
use dshker_server.Store.Schema.{BindingRow, Db}

-- A valid capacity is thirty at most.
limit_le : (limit : ℕ) → valid_network_limit limit ≡ true → limit ≤ 30
unfolding valid_network_limit
limit_le limit h = ground arith

-- Where the network has room, it has fewer than thirty active devices.
room_lt :
    (db : Db) (network_id : String)
    → all (λ n. valid_network_limit n.max_devices) db.networks ≡ true
    → binding_fits_capacity db network_id ≡ some true
    → active_binding_count db network_id < 30
unfolding binding_fits_capacity
room_lt db network_id limits h =
    elim (Option-cases (find (λ n. n.id =s= network_id && not n.deleted) db.networks)) [
      | inl missing ↦ ground arith
      | inr (n, e) ↦ ground (
        arith,
        limit_le n.max_devices,
        all-find (λ n. n.id =s= network_id && not n.deleted)
            (λ n. valid_network_limit n.max_devices) db.networks {x = n} e limits,
      )
    ]

-- The upsert keeps one row to a key.
bind_row-one_row :
    (n d m e : String) (rows : List BindingRow)
    → count (is_binding m e) rows ≤ 1
    → count (is_binding m e) (bind_row n d rows) ≤ 1
unfolding bind_row
bind_row-one_row n d m e rows h = elim (Bool-cases (any (is_binding n d) rows)) [
  | inl old ↦ ground (
    arith,
    count-update_same (is_binding m e) (is_binding n d) (set_active true) rows (λ x _. refl),
  )
  | inr new ↦ ground (
    arith,
    count-append (is_binding m e) rows
        (record { network_id = n; device_id = d; active = true } ∷ []),
    count_of_not-any (is_binding n d) rows new,
    str_iff n m,
    str_iff d e,
  )
]

-- Activating the rows of one network leaves the count of another.
other_network :
    (n d m : String) (rows : List BindingRow)
    → (n =s= m) ≡ false
    → count (is_active_binding m) (update (is_binding n d) (set_active true) rows)
      ≡ count (is_active_binding m) rows
other_network n d m rows ne =
    count-update_same (is_active_binding m) (is_binding n d) (set_active true) rows
      λ x h. ground (arith, str_iff x.network_id n, str_iff x.network_id m, str_iff n m)

-- The upsert adds one active row at most, and none to another network.
bind_row-active_le :
    (n d m : String) (rows : List BindingRow)
    → count (is_binding n d) rows ≤ 1
    → count (is_active_binding m) (bind_row n d rows)
      ≤ count (is_active_binding m) rows + (if n =s= m then 1 else 0)
unfolding bind_row
bind_row-active_le n d m rows h = elim (Bool-cases (any (is_binding n d) rows)) [
  | inl old ↦ ground (
    arith,
    other_network n d m rows,
    count-update_add (is_active_binding m) (is_binding n d) (set_active true) rows,
    count-split (is_active_binding m) (is_binding n d) rows,
  )
  | inr new ↦ ground (
    arith,
    count-append (is_active_binding m) rows
        (record { network_id = n; device_id = d; active = true } ∷ []),
  )
]

-- A bound device has no inactive row of its own.
no_inactive :
    (n d : String) (rows : List BindingRow)
    → count (is_binding n d) rows ≤ 1
    → any (λ b. is_binding n d b && b.active) rows ≡ true
    → count (λ b. is_binding n d b && not (is_active_binding n b)) rows ≡ 0
no_inactive n d rows h bound = omega (
  arith,
  count-split (is_active_binding n) (is_binding n d) rows,
  count_of_any (λ b. is_binding n d b && b.active) rows bound,
  count-le_of_imp (λ b. is_binding n d b && b.active)
      (λ b. is_binding n d b && is_active_binding n b) rows (λ x e. ground arith),
)

-- It adds none where the device is bound already.
bind_row-active_same :
    (n d m : String) (rows : List BindingRow)
    → count (is_binding n d) rows ≤ 1
    → any (λ b. is_binding n d b && b.active) rows ≡ true
    → count (is_active_binding m) (bind_row n d rows) ≤ count (is_active_binding m) rows
unfolding bind_row
bind_row-active_same n d m rows h bound = elim (Bool-cases (any (is_binding n d) rows)) [
  | inl old ↦ elim (Bool-cases (n =s= m)) [
    | inl e ↦
        let same : n ≡ m = (str_iff n m).0 e in
        rw (old, ← same)
          (omega (
            arith,
            no_inactive n d rows h bound,
            count-update_add (is_active_binding n) (is_binding n d) (set_active true) rows,
          ))
    | inr ne ↦ ground (arith, other_network n d m rows)
  ]
  | inr new ↦ absurd (
      omega (
        arith,
        count_of_not-any (is_binding n d) rows new,
        count_of_any (λ b. is_binding n d b && b.active) rows bound,
        count-le_of_imp (λ b. is_binding n d b && b.active) (is_binding n d) rows
            (λ x e. and_left _ _ e),
      ))
]

-- Bindings: each move keeps the key and the thirty.
pub BindingMove-one_row :
    (db db' : Db)
    → BindingMove db db'
    → (n d : String) → count (is_binding n d) db.bindings ≤ 1
    → count (is_binding n d) db'.bindings ≤ 1
BindingMove-one_row db db' (BindingMove.keep e) n d h = rw e h
BindingMove-one_row db db' (enter m f room e) n d h = rw e (bind_row-one_row m f n d db.bindings h)
BindingMove-one_row db db' (release p e) n d h = rw e (
    omega
      (arith, count-update_same (is_binding n d) p (set_active false) db.bindings (λ x _. refl)))

pub BindingMove-thirty :
    (db db' : Db)
    → BindingMove db db'
    → IsBounded db
    → (n : String) → active_binding_count db' n ≤ 30
unfolding active_binding_count
BindingMove-thirty db db' (BindingMove.keep e) b n = rw e (b.thirty n)
BindingMove-thirty db db' (release p e) b n = rw e (
    omega (
      arith,
      b.thirty n,
      count-update_le (is_active_binding n) p (set_active false) db.bindings
          (λ x _ k. ground arith),
    ))
BindingMove-thirty db db' (enter m f (inl bound) e) b n =
    rw e (omega (arith, b.thirty n, bind_row-active_same m f n db.bindings (b.one_row m f) bound))
BindingMove-thirty db db' (enter m f (inr room) e) b n = rw e (
    ground (
      arith,
      b.thirty n,
      bind_row-active_le m f n db.bindings (b.one_row m f),
      room_lt db m b.limits room,
      str_iff m n,
    ))
