-- ===== src/Protocol/Ids.antt =====
-- Identifiers and bearer secrets (internal/protocol/signal.go), names and build strings
-- (internal/coordinator/networks.go and enrollment.go), and the clock.
use Prim.Native.String.{len}
use dshker_server.Prelude.{
  Bool, List, String, [], all, any, arith, false, leb, length, ltb, not, true, ℕ, ◌&&◌, ◌/◌, ◌==◌,
  ◌||◌, ◌∷◌, ◌≤◌,
}
use dshker_server.Prelude.Text.{codes}

-- Byte strings that are compared and passed on: keys, certificates, signatures.
abbrev pub Bytes : Type 0
Bytes = List ℕ

abbrev pub bytes_eq : Bytes → Bytes → Bool
bytes_eq [] [] = true
bytes_eq [] (_ ∷ _) = false
bytes_eq (_ ∷ _) [] = false
bytes_eq (x ∷ xs) (y ∷ ys) = x == y && bytes_eq xs ys

-- `[a-f0-9]`
is_hex : ℕ → Bool
is_hex c = (leb b'0' c && leb c b'9') || (leb b'a' c && leb c b'f')

-- `^[a-f0-9]{n}$`
matches_hex : ℕ → String → Bool
unfolding is_hex
matches_hex n value = length (codes value) == n && all is_hex (codes value)

unfoldable pub valid_id : String → Bool
unfolding matches_hex
valid_id value = matches_hex 12 value

unfoldable pub valid_nonce : String → Bool
unfolding matches_hex
valid_nonce value = matches_hex 32 value

-- `unicode.IsSpace`, which `strings.TrimSpace` strips at both ends.
is_space : ℕ → Bool
is_space c =
    (leb 9 c && leb c 13)
    || c == 32
    || c == 0x85
    || c == 0xa0
    || c == 0x1680
    || (leb 0x2000 c && leb c 0x200a)
    || c == 0x2028
    || c == 0x2029
    || c == 0x202f
    || c == 0x205f
    || c == 0x3000

last_is_space : List ℕ → Bool
unfolding is_space
last_is_space [] = false
last_is_space (c ∷ []) = is_space c
last_is_space (c ∷ d ∷ s) = last_is_space (d ∷ s)

first_is_space : List ℕ → Bool
unfolding is_space
first_is_space [] = false
first_is_space (c ∷ _) = is_space c

-- `value == strings.TrimSpace(value)`
is_trimmed : String → Bool
unfolding first_is_space last_is_space
is_trimmed value = not (first_is_space (codes value) || last_is_space (codes value))

-- `strings.ContainsAny(value, "\r\n\x00")`
has_control : String → Bool
has_control value = any (λ c. c == 13 || c == 10 || c == 0) (codes value)

-- A `String` is valid UTF-8, so the source's `utf8.ValidString` holds of it.
unfoldable pub valid_name : String → Bool
unfolding is_trimmed has_control
valid_name name =
    ltb 0 (len name) && leb (len name) 256 && is_trimmed name && not (has_control name)

-- One field of a heartbeat's build description.
unfoldable pub valid_telemetry_field : String → Bool
unfolding is_trimmed has_control
valid_telemetry_field value = leb (len value) 64 && is_trimmed value && not (has_control value)

-- A `time.Time` is its nanoseconds since 1970.
abbrev pub second : ℕ
second = 1_000_000_000

abbrev pub minute : ℕ
minute = 60_000_000_000

-- `now.Unix()`
abbrev pub unix : ℕ → ℕ
unix now = now / 1_000_000_000

pub unix_mono : {a b : ℕ} → a ≤ b → unix a ≤ unix b
unix_mono {a} {b} h = omega arith
