-- ===== src/Protocol/Frames.antt =====
-- internal/protocol/frame.go: the frames that peers exchange once they are connected.
pub mod Shape
use dshker_server.Prelude.{
  Bool, Option, Result, String, err, frame_scope_mismatch, if◌then◌else◌, invalid_frame, is_some,
  length, ltb, none, not, protocol_limit, protocol_mismatch, reject, some, ℕ, ◌&&◌, ◌==◌, ◌=s=◌,
  ◌>>=◌, ◌>>◌, ◌||◌,
}
use dshker_server.Protocol.Ids.{Bytes, valid_id}

abbrev pub max_data_bytes : ℕ
max_data_bytes = 16384

abbrev pub max_queue_bytes : ℕ
max_queue_bytes = 8388608

-- `payload` is nil or a byte slice, as after JSON decoding; `kind` is the source's `Type`.
pub record Frame : Type 0 where
  pub version : ℕ
  pub kind : String
  pub attempt_id : String
  pub generation : ℕ
  pub runtime_generation : ℕ
  pub stream_id : ℕ
  pub credit : ℕ
  pub payload : Option Bytes

abbrev pub frame_length : Option Bytes → ℕ
frame_length none = 0
frame_length (some d) = length d

abbrev pub frame_in_scope : Frame → String → ℕ → ℕ → Bool
frame_in_scope f attempt generation runtime =
    f.version == 1
    && valid_id f.attempt_id
    && f.attempt_id =s= attempt
    && not (generation == 0)
    && not (runtime == 0)
    && f.generation == generation
    && f.runtime_generation == runtime
    && not (f.stream_id == 0)

pub data FrameKind : Type 0 where
  grant_credit carry_data close_stream unknown_frame : FrameKind

-- The cases of the `switch`.
unfoldable pub frame_kind : String → FrameKind
frame_kind kind =
    if kind =s= "OPEN" || kind =s= "WINDOW_UPDATE"
    then grant_credit
    else if kind =s= "DATA"
    then carry_data
    else if kind =s= "FIN" || kind =s= "RESET"
    then close_stream
    else unknown_frame

abbrev pub validate_kind : FrameKind → ℕ → ℕ → Result (Unit {0})
validate_kind grant_credit credit size = reject (credit == 0 || not (size == 0)) invalid_frame
validate_kind carry_data credit size = reject (size == 0 || not (credit == 0)) invalid_frame
validate_kind close_stream credit size = reject (not (size == 0) || not (credit == 0)) invalid_frame
validate_kind unknown_frame credit size = err protocol_mismatch

-- `Frame.Validate`
unfoldable pub validate_frame : Frame → String → ℕ → ℕ → Result (Unit {0})
validate_frame f attempt generation runtime = do
  reject (not (frame_in_scope f attempt generation runtime)) frame_scope_mismatch
  reject
      (not (is_some f.payload)
        || ltb max_data_bytes (frame_length f.payload)
        || ltb max_queue_bytes f.credit)
      protocol_limit
  validate_kind (frame_kind f.kind) f.credit (frame_length f.payload)
