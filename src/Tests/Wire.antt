-- ===== src/Tests/Wire.antt =====
-- JSON bodies and frames at concrete inputs.
use dshker_server.Prelude.{
  Code, [], duplicate_field, err, false, json_error, ok, refl, some, true, ◌∷◌, ◌≡◌,
}
use dshker_server.Protocol.Frames.{Frame, frame_kind, validate_frame}
use dshker_server.Protocol.Ids.{valid_id}
use dshker_server.Protocol.Json.{atom, members, opens, shuts, unique_value, word}
use dshker_server.Protocol.Json.Trees.{
  Json, array, element, emit, field, is_strict, no_element, no_field, object, plain_value,
  text_value,
}
use dshker_server.Protocol.Json.Trees.Reading.{unique_value-emit}

-- {"a":[1,"x"],"b":{}}
abbrev body : Json
body = object (
    field "a" (array (element plain_value (element (text_value "x") no_element)))
      (field "b" (object no_field) no_field))

-- {"a":1,"a":2} is refused.
twice_refused :
    unique_value 13 (opens true ∷ word "a" ∷ atom ∷ word "a" ∷ atom ∷ shuts ∷ [])
    ≡ err duplicate_field
unfolding unique_value members
twice_refused = refl

-- An input that ends inside an object gives the error of encoding/json.
cut_off : unique_value 13 (opens true ∷ word "a" ∷ atom ∷ []) ≡ err json_error
unfolding unique_value members
cut_off = refl

unique_value-emit_example :
    (is_strict 13 body ≡ true → unique_value 13 (emit body []) ≡ ok [])
    × (is_strict 13 body ≡ false → (c : Code) × (unique_value 13 (emit body []) ≡ err c))
unique_value-emit_example = unique_value-emit 13 body []

abbrev opening : Frame
opening = record {
  version = 1;
  kind = "OPEN";
  attempt_id = "d00000000000";
  generation = 7;
  runtime_generation = 2;
  stream_id = 1;
  credit = 65536;
  payload = some [];
}

opening_runs : validate_frame opening "d00000000000" 7 2 ≡ ok tt
unfolding validate_frame valid_id frame_kind
opening_runs = refl
