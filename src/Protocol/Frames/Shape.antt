-- ===== src/Protocol/Frames/Shape.antt =====
-- internal/protocol/frame.go: what a frame that passes `Validate` is.
use dshker_server.Prelude.{
  Bool-cases, Option-cases, String, arith, inl, inr, length, ok, some, str_iff, true, ℕ, ◌<◌, ◌=s=◌,
  ◌||◌, ◌≡◌, ◌≤◌, ◌⊎◌,
}
use dshker_server.Protocol.Frames.{
  Frame, frame_kind, max_data_bytes, max_queue_bytes, validate_frame, validate_kind,
}
use dshker_server.Protocol.Ids.{Bytes}

-- A credit opens a stream or its window and carries nothing; data come without credit and are not
-- empty; the end of a stream has neither.
abbrev pub HasShape : String → ℕ → ℕ → Type 0
HasShape kind credit size =
    (((kind ≡ "OPEN") ⊎ (kind ≡ "WINDOW_UPDATE")) × (0 < credit) × (size ≡ 0))
    ⊎ (((kind ≡ "DATA") × (credit ≡ 0) × (0 < size))
        ⊎ (((kind ≡ "FIN") ⊎ (kind ≡ "RESET")) × (credit ≡ 0) × (size ≡ 0)))

kind_shape :
    (kind : String) (credit size : ℕ)
    → validate_kind (frame_kind kind) credit size ≡ ok tt
    → HasShape kind credit size
unfolding frame_kind
kind_shape kind credit size h = elim (Bool-cases (kind =s= "OPEN" || kind =s= "WINDOW_UPDATE")) [
  | inl e ↦ inl (either "OPEN" "WINDOW_UPDATE" kind e, ground arith, ground arith)
  | inr e ↦ elim (Bool-cases (kind =s= "DATA")) [
    | inl f ↦ inr (inl ((str_iff kind "DATA").0 f, ground arith, ground arith))
    | inr f ↦ elim (Bool-cases (kind =s= "FIN" || kind =s= "RESET")) [
      | inl g ↦ inr (inr (either "FIN" "RESET" kind g, ground arith, ground arith))
      | inr g ↦ absurd (ground arith)
    ]
  ]
]
  where
    either : (a b s : String) → (s =s= a || s =s= b) ≡ true → (s ≡ a) ⊎ (s ≡ b)
    either a b s e = ground (arith, str_iff s a, str_iff s b)

-- A frame that passes `Validate` is of the attempt and of the two generations expected, names a
-- stream, carries data within the bounds, and has its type's shape: OPEN and WINDOW_UPDATE a
-- credit and no data, DATA some data and no credit, FIN and RESET neither.
pub validate_frame-HasShape :
    (f : Frame) (attempt : String) (generation runtime : ℕ)
    → validate_frame f attempt generation runtime ≡ ok tt
    → (f.attempt_id ≡ attempt)
      × (f.generation ≡ generation)
      × (f.runtime_generation ≡ runtime)
      × (0 < f.stream_id)
      × (payload : Bytes) × (f.payload ≡ some payload)
      × (length payload ≤ max_data_bytes)
      × (f.credit ≤ max_queue_bytes)
      × HasShape f.kind f.credit (length payload)
unfolding validate_frame
validate_frame-HasShape f attempt generation runtime h = elim (Option-cases f.payload) [
  | inl missing ↦ absurd (ground arith)
  | inr (payload, e) ↦ (
    ground (arith, str_iff f.attempt_id attempt),
    ground arith,
    ground arith,
    ground arith,
    payload,
    e,
    ground arith,
    ground arith,
    kind_shape f.kind f.credit (length payload) (ground arith),
  )
]
