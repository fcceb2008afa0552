-- ===== src/Protocol/Addresses.antt =====
-- The standard library's addresses, as config.go uses them: `net.SplitHostPort`,
-- `net.JoinHostPort` and `strconv.Atoi`, over the characters of a text.
pub mod Splits
use dshker_server.Prelude.{
  Bool, List, Option, [], any, false, if◌then◌else◌, leb, none, not, some, suc, true, zero, ℕ, ◌&&◌,
  ◌*◌, ◌++◌, ◌+◌, ◌-◌, ◌==◌, ◌||◌, ◌∷◌,
}
use dshker_server.Prelude.Int.{negsuc, pos, ℤ}

abbrev pub is_empty : List ℕ → Bool
is_empty [] = true
is_empty (_ ∷ _) = false

-- "/" in front.
abbrev pub is_rooted : List ℕ → Bool
is_rooted [] = false
is_rooted (c ∷ _) = c == b'/'

abbrev pub holds : ℕ → List ℕ → Bool
holds c = any (λ x. x == c)

abbrev pub before : ℕ → Option (List ℕ × List ℕ) → Option (List ℕ × List ℕ)
before x none = none
before x (some (a, b)) = some (x ∷ a, b)

-- What stands before and after the first such character.
unfoldable pub split_first : ℕ → List ℕ → Option (List ℕ × List ℕ)
split_first c [] = none
split_first c (x ∷ s) =
    let later = before x (split_first c s) in if x == c then some ([], s) else later

abbrev pub last_of : ℕ → ℕ → List ℕ → Option (List ℕ × List ℕ) → Option (List ℕ × List ℕ)
last_of c x s none = if x == c then some ([], s) else none
last_of c x s (some (a, b)) = some (x ∷ a, b)

-- The same for the last such character.
unfoldable pub split_last : ℕ → List ℕ → Option (List ℕ × List ℕ)
split_last c [] = none
split_last c (x ∷ s) = last_of c x s (split_last c s)

abbrev pub plain_parts : List ℕ → Option (List ℕ × List ℕ) → Option (List ℕ × List ℕ)
plain_parts s none = none
plain_parts s (some (host, port)) =
    if holds b':' host || holds b'[' s || holds b']' s then none else some (host, port)

-- After the closing bracket there is one colon, in front of the port.
abbrev pub bracketed_port : List ℕ → List ℕ → Option (List ℕ × List ℕ)
bracketed_port host [] = none
bracketed_port host (c ∷ port) =
    if not (c == b':') || holds b':' port || holds b'[' host || holds b'[' port || holds b']' port
    then none
    else some (host, port)

abbrev pub bracketed_parts : Option (List ℕ × List ℕ) → Option (List ℕ × List ℕ)
bracketed_parts none = none
bracketed_parts (some (host, rest)) = bracketed_port host rest

-- `net.SplitHostPort`; `none` is an error.
unfoldable pub split_host_port : List ℕ → Option (List ℕ × List ℕ)
split_host_port [] = none
split_host_port (c ∷ s) =
    if c == b'['
    then bracketed_parts (split_first b']' s)
    else plain_parts (c ∷ s) (split_last b':' (c ∷ s))

-- `net.JoinHostPort`
unfoldable pub join_host_port : List ℕ → List ℕ → List ℕ
join_host_port host port =
    if holds b':' host then b'[' ∷ (host ++ b']' ∷ b':' ∷ port) else host ++ b':' ∷ port

digits_value : ℕ → List ℕ → Option ℕ
digits_value n [] = some n
digits_value n (c ∷ s) =
    let rest = digits_value (n * 10 + (c - b'0')) s in
    if leb b'0' c && leb c b'9' then rest else none

abbrev pub max_int : ℕ
max_int = 9_223_372_036_854_775_807

abbrev pub positive : Option ℕ → Option ℤ
positive none = none
positive (some n) = if leb n max_int then some (pos n) else none

abbrev pub negative : Option ℕ → Option ℤ
negative none = none
negative (some zero) = some (pos 0)
negative (some (suc n)) = if leb n max_int then some (negsuc n) else none

abbrev pub number : List ℕ → Option ℕ
unfolding digits_value
number [] = none
number (c ∷ s) = digits_value 0 (c ∷ s)

-- `strconv.Atoi`
unfoldable pub atoi : List ℕ → Option ℤ
unfolding digits_value
atoi [] = none
atoi (c ∷ s) =
    if c == b'-'
    then negative (number s)
    else if c == b'+'
    then positive (number s)
    else positive (number (c ∷ s))
