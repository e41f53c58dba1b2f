-- ===== src/Text/Defs.antt =====
-- Go strings as lists of bytes, and what the program uses of packages `strings`, `fmt` and
-- `encoding/hex`. White space and letter case are those of ASCII; `to_lower` hands a text with
-- other bytes to the Unicode tables, which are its parameter.
use Prim.Native.Char.{code}
use Prim.Native.String.{String}
use mathlib.Core.List.{reverse}
use autoscaler.Common.{
  Bool, List, Option, [], false, if◌then◌else◌, leb, ltb, map, negsuc, none, pos, some, suc, true,
  zero, ℕ, ℤ, ◌%◌, ◌&&◌, ◌*◌, ◌++◌, ◌+◌, ◌-◌, ◌/◌, ◌==◌, ◌||◌, ◌∷◌,
}

abbrev pub Bytes : Type 0
Bytes = List ℕ

-- The bytes of an ASCII literal.
abbrev pub codes : String → Bytes
codes String.[] = []
codes (String.◌∷◌ c s) = code c ∷ codes s

-- `==` on strings.
abbrev pub bytes_eq : Bytes → Bytes → Bool
bytes_eq [] [] = true
bytes_eq [] (d ∷ t) = false
bytes_eq (c ∷ s) [] = false
bytes_eq (c ∷ s) (d ∷ t) = c == d && bytes_eq s t

abbrev pub is_empty : Bytes → Bool
is_empty [] = true
is_empty (c ∷ s) = false

-- A map used as a set of strings, built from the list: `_, ok := set[s]`.
abbrev pub elem : Bytes → List Bytes → Bool
elem s [] = false
elem s (t ∷ ts) = bytes_eq t s || elem s ts

-- What is left behind a prefix.
unfoldable pub strip_prefix : Bytes → Bytes → Option Bytes
strip_prefix [] s = some s
strip_prefix (p ∷ ps) [] = none
strip_prefix (p ∷ ps) (c ∷ s) = if p == c then strip_prefix ps s else none

unfoldable pub has_prefix : Bytes → Bytes → Bool
unfolding strip_prefix
has_prefix s p = elim (strip_prefix p s) [ none ↦ false | some t ↦ true ]

unfoldable pub trim_prefix : Bytes → Bytes → Bytes
unfolding strip_prefix
trim_prefix s p = elim (strip_prefix p s) [ none ↦ s | some t ↦ t ]

unfoldable pub contains : Bytes → Bytes → Bool
unfolding has_prefix
contains [] p = has_prefix [] p
contains (c ∷ s) p = has_prefix (c ∷ s) p || contains s p

abbrev pub is_space : ℕ → Bool
is_space c = leb 9 c && leb c 13 || c == 32

abbrev pub trim_left : Bytes → Bytes
trim_left [] = []
trim_left (c ∷ s) = if is_space c then trim_left s else c ∷ s

unfoldable pub trim_space : Bytes → Bytes
trim_space s = reverse (trim_left (reverse (trim_left s)))

-- `strings.Split` at one byte: the part being read, and the rest of the text.
unfoldable pub split_from : ℕ → Bytes → Bytes → List Bytes
split_from sep cur [] = cur ∷ []
split_from sep cur (c ∷ s) = elim (c == sep) [
  | true ↦ cur ∷ split_from sep [] s
  | false ↦ split_from sep (cur ++ c ∷ []) s
]

unfoldable pub split : Bytes → ℕ → List Bytes
unfolding split_from
split s sep = split_from sep [] s

-- `strings.SplitN` at one byte, into at most n + 1 parts.
unfoldable pub split_at_most : ℕ → ℕ → Bytes → Bytes → List Bytes
split_at_most n sep cur [] = cur ∷ []
split_at_most zero sep cur (c ∷ s) = (cur ++ c ∷ s) ∷ []
split_at_most (suc n) sep cur (c ∷ s) = elim (c == sep) [
  | true ↦ cur ∷ split_at_most n sep [] s
  | false ↦ split_at_most (suc n) sep (cur ++ c ∷ []) s
]

-- `strings.SplitN(s, sep, n + 1)`.
unfoldable pub split_n : Bytes → ℕ → ℕ → List Bytes
unfolding split_at_most
split_n s sep n = split_at_most n sep [] s

-- `strings.Fields`: the runs of bytes that are no white space.
fields_from : Bytes → Bytes → List Bytes
fields_from cur [] = if is_empty cur then [] else cur ∷ []
fields_from cur (c ∷ s) = elim (is_space c) [
  | true ↦ let rest = fields_from [] s in if is_empty cur then rest else cur ∷ rest
  | false ↦ fields_from (cur ++ c ∷ []) s
]

unfoldable pub fields : Bytes → List Bytes
unfolding fields_from
fields s = fields_from [] s

abbrev pub lower : ℕ → ℕ
lower c = if leb b'A' c && leb c b'Z' then c + 32 else c

abbrev pub is_ascii : Bytes → Bool
is_ascii [] = true
is_ascii (c ∷ s) = ltb c 128 && is_ascii s

-- `strings.ToLower`; `unicode` is its slow path, for a text that is not ASCII.
unfoldable pub to_lower : (Bytes → Bytes) → Bytes → Bytes
to_lower unicode s = if is_ascii s then map lower s else unicode s

-- The digits of `n` in front of `out`; the fuel is the number of digits at most.
digits : ℕ → ℕ → Bytes → Bytes
digits zero n out = out
digits (suc f) n out =
    let more = digits f (n / 10) ((b'0' + n % 10) ∷ out) in
    if ltb n 10 then (b'0' + n) ∷ out else more

-- `%d` of an int64: its magnitude has at most 19 digits.
unfoldable pub decimal : ℤ → Bytes
unfolding digits
decimal (pos n) = digits 20 n []
decimal (negsuc n) = b'-' ∷ digits 20 (suc n) []

-- `encoding/hex`.
unfoldable pub hex_digit : ℕ → ℕ
hex_digit n = if ltb n 10 then b'0' + n else b'a' + (n - 10)

unfoldable pub hex_encode : Bytes → Bytes
hex_encode [] = []
hex_encode (c ∷ s) = hex_digit (c / 16) ∷ hex_digit (c % 16) ∷ hex_encode s

unfoldable pub hex_value : ℕ → Option ℕ
hex_value c =
    if leb b'0' c && leb c b'9'
    then some (c - b'0')
    else if leb b'a' c && leb c b'f'
    then some (c - b'a' + 10)
    else if leb b'A' c && leb c b'F'
    then some (c - b'A' + 10)
    else none

-- `none` for a byte that is no hexadecimal digit, and for an odd length.
unfoldable pub hex_decode : Bytes → Option Bytes
hex_decode [] = some []
hex_decode (h ∷ []) = none
hex_decode (h ∷ l ∷ s) = elim (hex_value h) [
  | none ↦ none
  | some x ↦ elim (hex_value l) [
    | none ↦ none
    | some y ↦ elim (hex_decode s) [ none ↦ none | some r ↦ some ((x * 16 + y) ∷ r) ]
  ]
]
