-- ===== src/Protocol/Json/Trees/Reading.antt =====
-- internal/protocol/json.go: `uniqueValue` reads a value if it is strict.
use dshker_server.Prelude.{
  Bool, Bool-cases, Code, List, Result, String, [], arith, duplicate_field, err, false, inl, inr,
  length, null_field, ok, protocol_limit, refl, suc, true, zero, ℕ, ◌&&◌, ◌∷◌, ◌≡◌, ◌≤◌,
}
use dshker_server.Protocol.Json.{Token, has_key, members, more, shuts, unique_value, word}
use dshker_server.Protocol.Json.Trees.{
  Elements, Fields, Json, array, element, element_count, elements_longer, emit, emit_elements,
  emit_fields, field, field_count, fields_longer, is_strict, more-emit, no_element, no_field,
  null_value, object, plain_value, strict_elements, strict_fields, text_value,
}

-- What reading a value makes of a verdict: the rest, or some error.
abbrev Follows : Bool → List Token → Result (List Token) → Type 0
Follows true rest r = r ≡ ok rest
Follows false rest r = (c : Code) × (r ≡ err c)

Follows-true :
    (b : Bool) (rest : List Token) (r : Result (List Token))
    → b ≡ true
    → Follows b rest r
    → r ≡ ok rest
Follows-true true rest r e h = h
Follows-true false rest r e h = cc

Follows-false :
    (b : Bool) (rest : List Token) (r : Result (List Token))
    → b ≡ false
    → Follows b rest r
    → (c : Code) × (r ≡ err c)
Follows-false true rest r e h = cc
Follows-false false rest r e h = h

-- One turn of the loop at a member with a new key, and at an element.
turn_field :
    (value : List Token → Result (List Token)) (turns : ℕ) (keys : List String) (name : String)
    (ts rest : List Token)
    → has_key name keys ≡ false
    → value ts ≡ ok rest
    → members value (suc turns) true keys (word name ∷ ts)
      ≡ members value turns true (name ∷ keys) rest
unfolding members
turn_field value turns keys name ts rest new h = rw (new, h) refl

fail_field :
    (value : List Token → Result (List Token)) (turns : ℕ) (keys : List String) (name : String)
    (ts : List Token) (c : Code)
    → has_key name keys ≡ false
    → value ts ≡ err c
    → members value (suc turns) true keys (word name ∷ ts) ≡ err c
unfolding members
fail_field value turns keys name ts c new h = rw (new, h) refl

twice_field :
    (value : List Token → Result (List Token)) (turns : ℕ) (keys : List String) (name : String)
    (ts : List Token)
    → has_key name keys ≡ true
    → members value (suc turns) true keys (word name ∷ ts) ≡ err duplicate_field
unfolding members
twice_field value turns keys name ts old = rw old refl

turn_element :
    (value : List Token → Result (List Token)) (turns : ℕ) (ts rest : List Token)
    → more ts ≡ true
    → value ts ≡ ok rest
    → members value (suc turns) false [] ts ≡ members value turns false [] rest
unfolding members
turn_element value turns ts rest m h = rw (m, h) refl

fail_element :
    (value : List Token → Result (List Token)) (turns : ℕ) (ts : List Token) (c : Code)
    → more ts ≡ true
    → value ts ≡ err c
    → members value (suc turns) false [] ts ≡ err c
unfolding members
fail_element value turns ts c m h = rw (m, h) refl

-- The loop ends at the bracket, however many turns are left.
ends :
    (value : List Token → Result (List Token)) (turns : ℕ) (is_object : Bool) (keys : List String)
    (ts : List Token)
    → members value turns is_object keys (shuts ∷ ts) ≡ ok ts
unfolding members
ends value zero is_object keys ts = refl
ends value (suc turns) is_object keys ts = refl

-- A member, then the others.
field-Follows :
    (value : List Token → Result (List Token)) (turns : ℕ) (keys : List String) (name : String)
    (ts left rest : List Token) (b c : Bool)
    → has_key name keys ≡ false
    → Follows b left (value ts)
    → Follows c rest (members value turns true (name ∷ keys) left)
    → Follows (b && c) rest (members value (suc turns) true keys (word name ∷ ts))
field-Follows value turns keys name ts left rest true c new h k =
    rw (turn_field value turns keys name ts left new h) k
field-Follows value turns keys name ts left rest false c new h k =
    (h.0, fail_field value turns keys name ts h.0 new h.1)

element-Follows :
    (value : List Token → Result (List Token)) (turns : ℕ) (ts left rest : List Token) (b c : Bool)
    → more ts ≡ true
    → Follows b left (value ts)
    → Follows c rest (members value turns false [] left)
    → Follows (b && c) rest (members value (suc turns) false [] ts)
element-Follows value turns ts left rest true c m h k = rw (turn_element value turns ts left m h) k
element-Follows value turns ts left rest false c m h k =
    (h.0, fail_element value turns ts h.0 m h.1)

mutual
  unfolding is_strict emit unique_value

  value-Follows :
      (levels : ℕ) (v : Json) (rest : List Token)
      → Follows (is_strict levels v) rest (unique_value levels (emit v rest))
  value-Follows zero v rest = (protocol_limit, refl)
  value-Follows (suc levels) (text_value s) rest = refl
  value-Follows (suc levels) plain_value rest = refl
  value-Follows (suc levels) null_value rest = (null_field, refl)
  value-Follows (suc levels) (object fs) rest =
      fields-Follows levels [] fs rest (length (emit_fields fs (shuts ∷ rest)))
        (omega (arith, fields_longer fs (shuts ∷ rest)))
  value-Follows (suc levels) (array es) rest =
      elements-Follows levels es rest (length (emit_elements es (shuts ∷ rest)))
        (omega (arith, elements_longer es (shuts ∷ rest)))

  fields-Follows :
      (levels : ℕ) (keys : List String) (fs : Fields) (rest : List Token) (turns : ℕ)
      → field_count fs ≤ turns
      → Follows
          (strict_fields levels keys fs)
          rest
          (members (unique_value levels) turns true keys (emit_fields fs (shuts ∷ rest)))
  fields-Follows levels keys no_field rest turns le =
      ends (unique_value levels) turns true keys rest
  fields-Follows levels keys (field name v fs) rest zero le = absurd (omega arith)
  fields-Follows levels keys (field name v fs) rest (suc turns) le =
      let ts = emit v (emit_fields fs (shuts ∷ rest)) in
      elim (Bool-cases (has_key name keys)) [
        | inl old ↦
            rw old (duplicate_field, twice_field (unique_value levels) turns keys name ts old)
        | inr new ↦ rw new (
            field-Follows (unique_value levels) turns keys name ts (emit_fields fs (shuts ∷ rest))
              rest (is_strict levels v) (strict_fields levels (name ∷ keys) fs) new
              (value-Follows levels v (emit_fields fs (shuts ∷ rest)))
              (fields-Follows levels (name ∷ keys) fs rest turns (omega (arith, le))))
      ]

  elements-Follows :
      (levels : ℕ) (es : Elements) (rest : List Token) (turns : ℕ)
      → element_count es ≤ turns
      → Follows
          (strict_elements levels es)
          rest
          (members (unique_value levels) turns false [] (emit_elements es (shuts ∷ rest)))
  elements-Follows levels no_element rest turns le = ends (unique_value levels) turns false [] rest
  elements-Follows levels (element v es) rest zero le = absurd (omega arith)
  elements-Follows levels (element v es) rest (suc turns) le =
      element-Follows (unique_value levels) turns (emit v (emit_elements es (shuts ∷ rest)))
        (emit_elements es (shuts ∷ rest)) rest (is_strict levels v) (strict_elements levels es)
        (more-emit v (emit_elements es (shuts ∷ rest)))
        (value-Follows levels v (emit_elements es (shuts ∷ rest)))
        (elements-Follows levels es rest turns (omega (arith, le)))

-- On the tokens of a JSON value `uniqueValue` reads exactly that value where, within the levels,
-- it has no null and no object has a key twice; otherwise it fails.
pub unique_value-emit :
    (levels : ℕ) (v : Json) (rest : List Token)
    → (is_strict levels v ≡ true → unique_value levels (emit v rest) ≡ ok rest)
      × (is_strict levels v ≡ false → (c : Code) × (unique_value levels (emit v rest) ≡ err c))
unique_value-emit levels v rest =
    let h = value-Follows levels v rest in
    (
      λ e. Follows-true (is_strict levels v) rest (unique_value levels (emit v rest)) e h,
      λ e. Follows-false (is_strict levels v) rest (unique_value levels (emit v rest)) e h,
    )
