-- ===== src/Protocol/Json.antt =====
-- internal/protocol/json.go: strict decoding of a JSON body.
pub mod Trees
pub mod Turns
use dshker_server.Prelude.{
  Bool, List, Option, Result, String, [], all, any, duplicate_field, err, false, if◌then◌else◌,
  invalid_fields, invalid_json, json_error, length, ltb, missing_field, not, null_field, ok,
  or_fail, protocol_limit, reject, suc, true, zero, ℕ, ◌==◌, ◌=s=◌, ◌>>=◌, ◌>>◌, ◌||◌, ◌∷◌,
}
use dshker_server.Protocol.Ids.{Bytes}

-- What `json.Decoder.Token` gives one after the other, commas and colons left out; the list ends
-- where the input does.
pub data Token : Type 0 where
  -- `{`, where the Boolean is true, or `[`.
  opens : Bool → Token
  shuts : Token
  word : String → Token
  null : Token
  -- A number or a Boolean.
  atom : Token
  -- Where `Token` fails, and whether it does at a closing bracket.
  garbled : Bool → Token

-- `json.Decoder.More`
abbrev pub more : List Token → Bool
more [] = false
more (shuts ∷ ts) = false
more (garbled at_bracket ∷ ts) = not at_bracket
more (opens o ∷ ts) = true
more (word s ∷ ts) = true
more (null ∷ ts) = true
more (atom ∷ ts) = true

-- The `Token` after the loop, whose error is passed on as it is.
abbrev pub closing : List Token → Result (List Token)
closing [] = err json_error
closing (garbled at_bracket ∷ ts) = err json_error
closing (opens o ∷ ts) = ok ts
closing (shuts ∷ ts) = ok ts
closing (word s ∷ ts) = ok ts
closing (null ∷ ts) = ok ts
closing (atom ∷ ts) = ok ts

abbrev pub has_key : String → List String → Bool
has_key name = any (λ k. k =s= name)

-- The key of a member, in an object only.
abbrev pub read_key : Bool → List String → List Token → Result (List String × List Token)
read_key false keys ts = ok (keys, ts)
read_key true keys [] = err invalid_json
read_key true keys (garbled at_bracket ∷ ts) = err invalid_json
read_key true keys (word name ∷ ts) =
    if has_key name keys then err duplicate_field else ok (name ∷ keys, ts)
read_key true keys (opens o ∷ ts) = err duplicate_field
read_key true keys (shuts ∷ ts) = err duplicate_field
read_key true keys (null ∷ ts) = err duplicate_field
read_key true keys (atom ∷ ts) = err duplicate_field

-- The loop over the members of a container. Each turn takes a token at least, so that as many turns
-- as there are tokens are enough.
unfoldable pub members :
    (List Token → Result (List Token)) → ℕ → Bool → List String → List Token → Result (List Token)
members value zero is_object keys ts = closing ts
members value (suc turns) is_object keys ts =
    if more ts
    then (read_key is_object keys ts >>= λ key.
        value key.1 >>= λ rest. members value turns is_object key.0 rest)
    else closing ts

-- `uniqueValue`, with so many levels left: the source's depth runs from 0 to 12. encoding/json gives
-- no closing bracket where a value is due; the source would go on as in an array.
unfoldable pub unique_value : ℕ → List Token → Result (List Token)
unique_value zero ts = err protocol_limit
unique_value (suc levels) [] = err invalid_json
unique_value (suc levels) (garbled at_bracket ∷ ts) = err invalid_json
unique_value (suc levels) (null ∷ ts) = err null_field
unique_value (suc levels) (word s ∷ ts) = ok ts
unique_value (suc levels) (atom ∷ ts) = ok ts
unique_value (suc levels) (opens is_object ∷ ts) =
    members (unique_value levels) (length ts) is_object [] ts
unique_value (suc levels) (shuts ∷ ts) = members (unique_value levels) (length ts) false [] ts

abbrev pub max_levels : ℕ
max_levels = 13

abbrev pub max_control_bytes : ℕ
max_control_bytes = 65536

abbrev pub is_end : List Token → Bool
is_end [] = true
is_end (_ ∷ _) = false

-- `Decode`: `tokens` is the token stream of the bytes, `strict` what the decoder that disallows
-- unknown fields makes of them, `fields` the keys of the top-level object, where it is one, and
-- `names` the JSON names of the target's fields.
unfoldable pub decode {ℓ} :
    {A : Type ℓ}
    → (Bytes → List Token)
    → (Bytes → Option A)
    → (Bytes → Option (List String))
    → List String
    → Bytes
    → Result A
decode tokens strict fields names body = do
  reject (length body == 0 || ltb max_control_bytes (length body)) protocol_limit
  rest ← unique_value max_levels (tokens body)
  reject (not (is_end rest)) invalid_json
  value ← or_fail (strict body) invalid_fields
  keys ← or_fail (fields body) invalid_fields
  reject (not (all (λ n. has_key n keys) names)) missing_field
  ok value
