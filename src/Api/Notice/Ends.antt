-- ===== src/Api/Notice/Ends.antt =====
-- internal/coordinator/signaling.go, `notifyPair`: no end of a pair stays connected untold.
use Prim.Native.String.{len}
use dshker_server.Api.Hub.{Hub, queue_size, send}
use dshker_server.Api.Hub.Queues.{IsShort, send-appends}
use dshker_server.Api.Notice.{notice, notify_pair}
use dshker_server.Prelude.{
  Bool, List, Option-cases, Result-cases, String, [], any, arith, false, get, get-remove, inl, inr,
  length, ltb, some, str_iff, str_refl, true, ◌++◌, ◌=s=◌, ◌∙◌, ◌∷◌, ◌≡◌, ◌≤◌, ◌⊎◌,
}
use dshker_server.Protocol.Json.{max_control_bytes}
use dshker_server.Store.Schema.{PairRow}

-- The message stands at the end of the queue of `id`, or the queue was full and the connection is
-- closed.
abbrev pub IsTold : String → String → List String → List String → Hub → Type 0
IsTold message id queue gone hub' =
    (get id hub' ≡ some (queue ++ message ∷ []))
    ⊎ ((queue_size ≤ length queue) × (any (λ t. t =s= id) gone ≡ true))

any-left : (f : String → Bool) (xs ys : List String) → any f xs ≡ true → any f (xs ++ ys) ≡ true
any-left f [] ys h = absurd (ground arith)
any-left f (x ∷ xs) ys h = ground (arith, any-left f xs ys)

any-right : (f : String → Bool) (xs ys : List String) → any f ys ≡ true → any f (xs ++ ys) ≡ true
any-right f [] ys h = h
any-right f (x ∷ xs) ys h = ground (arith, any-right f xs ys h)

notice-tells :
    (id message : String) (hub : Hub) (queue : List String)
    → ltb max_control_bytes (len message) ≡ false
    → get id hub ≡ some queue
    → IsTold message id queue (notice id message hub).0 (notice id message hub).1
unfolding send
notice-tells id message hub queue short there = ground (arith, str_refl id)

notice-other :
    (id message other : String) (hub : Hub)
    → (id =s= other) ≡ false
    → get other (notice id message hub).1 ≡ get other hub
unfolding send
notice-other id message other hub ne = elim (Option-cases (get id hub)) [
  | inl e ↦ ground arith
  | inr (queue, e) ↦ ground (arith, get-remove id other hub)
]

IsTold-first :
    (message id : String) (queue gone rest : List String) (hub hub' : Hub)
    → get id hub' ≡ get id hub
    → IsTold message id queue gone hub
    → IsTold message id queue (gone ++ rest) hub'
IsTold-first message id queue gone rest hub hub' same (inl e) = inl (same ∙ e)
IsTold-first message id queue gone rest hub hub' same (inr (full, shut)) =
    inr (full, any-left (λ t. t =s= id) gone rest shut)

IsTold-second :
    (message id : String) (queue gone rest : List String) (hub : Hub)
    → IsTold message id queue rest hub
    → IsTold message id queue (gone ++ rest) hub
IsTold-second message id queue gone rest hub (inl e) = inl e
IsTold-second message id queue gone rest hub (inr (full, shut)) =
    inr (full, any-right (λ t. t =s= id) gone rest shut)

-- Of a pair with two different ends, and a message of at most the largest control size,
-- notifyPair puts the message at the end of the queue of each connected end, or else that queue
-- holds 32 messages or more and the end's connection is closed; the other queues are as they
-- were.
pub notify_pair-tells :
    (pair : PairRow) (message : String) (hub : Hub)
    → (pair.initiator =s= pair.target) ≡ false
    → ltb max_control_bytes (len message) ≡ false
    → ((queue : List String)
        → get pair.initiator hub ≡ some queue
        → IsTold message pair.initiator queue
            (notify_pair pair message hub).0
            (notify_pair pair message hub).1)
      × ((queue : List String)
          → get pair.target hub ≡ some queue
          → IsTold message pair.target queue
              (notify_pair pair message hub).0
              (notify_pair pair message hub).1)
      × ((other : String)
          → (pair.initiator =s= other) ≡ false
          → (pair.target =s= other) ≡ false
          → get other (notify_pair pair message hub).1 ≡ get other hub)
unfolding notify_pair
notify_pair-tells pair message hub ne short =
    let first = notice pair.initiator message hub in
    let second = notice pair.target message first.1 in
    let back : (pair.target =s= pair.initiator) ≡ false =
      ground (arith, str_iff pair.initiator pair.target, str_iff pair.target pair.initiator, ne) in
    (
      λ queue there.
          IsTold-first message pair.initiator queue first.0 second.0 first.1 second.1
            (notice-other pair.target message pair.initiator first.1 back)
            (notice-tells pair.initiator message hub queue short there),
      λ queue there. IsTold-second message pair.target queue first.0 second.0 second.1 (
          notice-tells pair.target message first.1 queue short
            (notice-other pair.initiator message pair.target hub ne ∙ there)),
      λ other a b.
          notice-other pair.target message other first.1 b
          ∙ notice-other pair.initiator message other hub a,
    )

notice-IsShort : (id message : String) (hub : Hub) → IsShort hub → IsShort (notice id message hub).1
notice-IsShort id message hub s = elim (Result-cases (send id message hub)) [
  | inl (c, e) ↦ rw e s
  | inr (hub', e) ↦ rw e (send-appends id message hub hub' s e).0
]

pub notify_pair-IsShort :
    (pair : PairRow) (message : String) (hub : Hub)
    → IsShort hub
    → IsShort (notify_pair pair message hub).1
unfolding notify_pair
notify_pair-IsShort pair message hub s =
    notice-IsShort pair.target message (notice pair.initiator message hub).1
      (notice-IsShort pair.initiator message hub s)
