-- ===== src/Api/Hub/Queues.antt =====
-- internal/coordinator/signaling.go: the queues stay short, and keep their messages in order.
use dshker_server.Api.Hub.{Hub, connect, disconnect, queue_size, receive, send}
use dshker_server.Prelude.{
  Bool, List, Option-cases, String, [], all_entries, all_entries-get, all_entries-remove, ap, arith,
  device_busy, false, get, get-remove, inl, inr, is_some, leb, length, ok, ok_inj, put, refl,
  reject_ok, some, str_refl, true, ◌++◌, ◌+◌, ◌<◌, ◌=s=◌, ◌∙◌, ◌∷◌, ◌≡◌, ◌≤◌,
}
use dshker_server.Sessions.{Sessions}

abbrev pub is_short : String → List String → Bool
is_short id queue = leb (length queue) queue_size

-- No queue holds more than 32 messages.
pub record IsShort (hub : Hub) : Type 0 where
  pub short : all_entries is_short hub ≡ true

put-IsShort :
    (id : String) (queue : List String) (hub : Hub)
    → length queue ≤ queue_size
    → IsShort hub
    → IsShort (put id queue hub)
put-IsShort id queue hub few s = record {
  short = ground (arith, all_entries-remove is_short id hub s.short);
}

length-insert : (xs : List String) (x : String) → length (xs ++ x ∷ []) ≡ length xs + 1
length-insert [] x = refl
length-insert (y ∷ xs) x = omega (arith, length-insert xs x)

-- What a message that was sent has found and left.
pub send_ok :
    (id message : String) (hub hub' : Hub)
    → send id message hub ≡ ok hub'
    → (queue : List String) × (get id hub ≡ some queue)
      × (length queue < queue_size)
      × (hub' ≡ put id (queue ++ message ∷ []) hub)
unfolding send
send_ok id message hub hub' h = elim (Option-cases (get id hub)) [
  | inl e ↦ absurd (ground arith)
  | inr (queue, e) ↦ (queue, e, ground arith, ground arith)
]

-- From queues of 32 messages at most, a message that is sent leaves such queues: it stands at the
-- end of the queue of the device that it is for, which is connected, and the other queues are as
-- they were.
pub send-appends :
    (id message : String) (hub hub' : Hub)
    → IsShort hub
    → send id message hub ≡ ok hub'
    → IsShort hub'
      × (queue : List String) × (get id hub ≡ some queue)
      × (get id hub' ≡ some (queue ++ message ∷ []))
      × ((other : String) → (id =s= other) ≡ false → get other hub' ≡ get other hub)
send-appends id message hub hub' s h =
    let (queue, there, few, wrote) = send_ok id message hub hub' h in
    (
      rw wrote (
          put-IsShort id (queue ++ message ∷ []) hub
            (omega (arith, length-insert queue message, few)) s),
      queue,
      there,
      rw wrote (ground (arith, str_refl id)),
      λ other ne. ap (get other) wrote ∙ ground (arith, get-remove id other hub, ne),
    )

-- A connection begins with an empty queue, and a message taken off makes one shorter.
pub connect-IsShort :
    (id : String) (hub hub' : Hub) → IsShort hub → connect id hub ≡ ok hub' → IsShort hub'
unfolding connect
connect-IsShort id hub hub' s h =
    let (_, e) = reject_ok (is_some (get id hub)) device_busy (ok (put id [] hub)) h in
    rw (← ok_inj e) (put-IsShort id [] hub (omega arith) s)

pub disconnect-IsShort :
    (id : String) (hub : Hub) (s : Sessions) → IsShort hub → IsShort (disconnect id hub s).0
unfolding disconnect
disconnect-IsShort id hub s h = record { short = all_entries-remove is_short id hub h.short }

pub receive-IsShort : (id : String) (hub : Hub) → IsShort hub → IsShort (receive id hub).1
unfolding receive
receive-IsShort id hub s = elim (Option-cases (get id hub)) [
  | inl e ↦ rw e s
  | inr ([], e) ↦ rw e s
  | inr (m ∷ queue, e) ↦
      let fits = all_entries-get is_short id hub {v = m ∷ queue} s.short e in
      rw e (put-IsShort id queue hub (ground arith) s)
]
