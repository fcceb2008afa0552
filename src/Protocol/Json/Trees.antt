-- ===== src/Protocol/Json/Trees.antt =====
-- What `uniqueValue` accepts, told of JSON values instead of tokens.
pub mod Reading
use dshker_server.Prelude.{
  Bool, List, String, [], arith, false, length, not, refl, suc, true, zero, ℕ, ◌&&◌, ◌+◌, ◌<◌, ◌∷◌,
  ◌≡◌, ◌≤◌,
}
use dshker_server.Protocol.Json.{Token, atom, has_key, more, null, opens, shuts, word}

mutual
  pub data Json : Type 0 where
    text_value : String → Json
    plain_value : Json
    null_value : Json
    object : Fields → Json
    array : Elements → Json

  pub data Fields : Type 0 where
    no_field : Fields
    field : String → Json → Fields → Fields

  pub data Elements : Type 0 where
    no_element : Elements
    element : Json → Elements → Elements

-- The tokens of a value, before others.
mutual
  pub emit : Json → List Token → List Token
  emit (text_value s) ts = word s ∷ ts
  emit plain_value ts = atom ∷ ts
  emit null_value ts = null ∷ ts
  emit (object fs) ts = opens true ∷ emit_fields fs (shuts ∷ ts)
  emit (array es) ts = opens false ∷ emit_elements es (shuts ∷ ts)

  pub emit_fields : Fields → List Token → List Token
  emit_fields no_field ts = ts
  emit_fields (field name v fs) ts = word name ∷ emit v (emit_fields fs ts)

  pub emit_elements : Elements → List Token → List Token
  emit_elements no_element ts = ts
  emit_elements (element v es) ts = emit v (emit_elements es ts)

-- No null, no key twice in an object, and no deeper than the levels.
mutual
  pub is_strict : ℕ → Json → Bool
  is_strict zero v = false
  is_strict (suc levels) (text_value s) = true
  is_strict (suc levels) plain_value = true
  is_strict (suc levels) null_value = false
  is_strict (suc levels) (object fs) = strict_fields levels [] fs
  is_strict (suc levels) (array es) = strict_elements levels es

  pub strict_fields : ℕ → List String → Fields → Bool
  strict_fields levels keys no_field = true
  strict_fields levels keys (field name v fs) =
      not (has_key name keys) && is_strict levels v && strict_fields levels (name ∷ keys) fs

  pub strict_elements : ℕ → Elements → Bool
  strict_elements levels no_element = true
  strict_elements levels (element v es) = is_strict levels v && strict_elements levels es

abbrev pub field_count : Fields → ℕ
field_count no_field = 0
field_count (field name v fs) = suc (field_count fs)

abbrev pub element_count : Elements → ℕ
element_count no_element = 0
element_count (element v es) = suc (element_count es)

-- Every value, and so every member, has a token of its own.
mutual
  unfolding emit

  emit_longer : (v : Json) (ts : List Token) → length ts < length (emit v ts)
  emit_longer (text_value s) ts = omega arith
  emit_longer plain_value ts = omega arith
  emit_longer null_value ts = omega arith
  emit_longer (object fs) ts = omega (arith, fields_longer fs (shuts ∷ ts))
  emit_longer (array es) ts = omega (arith, elements_longer es (shuts ∷ ts))

  pub fields_longer :
      (fs : Fields) (ts : List Token) → field_count fs + length ts ≤ length (emit_fields fs ts)
  fields_longer no_field ts = omega arith
  fields_longer (field name v fs) ts =
      omega (arith, fields_longer fs ts, emit_longer v (emit_fields fs ts))

  pub elements_longer :
      (es : Elements) (ts : List Token)
      → element_count es + length ts ≤ length (emit_elements es ts)
  elements_longer no_element ts = omega arith
  elements_longer (element v es) ts =
      omega (arith, elements_longer es ts, emit_longer v (emit_elements es ts))

-- A value is never taken for the end of its container.
pub more-emit : (v : Json) (ts : List Token) → more (emit v ts) ≡ true
unfolding emit
more-emit (text_value s) ts = refl
more-emit plain_value ts = refl
more-emit null_value ts = refl
more-emit (object fs) ts = refl
more-emit (array es) ts = refl
