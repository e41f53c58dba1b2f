-- ===== src/Text/Laws.antt =====
-- Laws of the text functions: prefixes and hexadecimal digits.
use autoscaler.Common.{All, [], ap, arith, none, refl, some, ℕ, ◌%◌, ◌++◌, ◌/◌, ◌<◌, ◌∷◌, ◌≡◌, ◌≢◌}
use autoscaler.Text.{Bytes, hex_decode, hex_digit, hex_encode, hex_value, strip_prefix}

pub strip_prefix-some : (p s : Bytes) {t : Bytes} → strip_prefix p s ≡ some t → s ≡ p ++ t
unfolding strip_prefix
strip_prefix-some [] s h = ground arith
strip_prefix-some (c ∷ p) [] h = cc
strip_prefix-some (c ∷ p) (d ∷ s) {t} h = ground (arith, strip_prefix-some p s {t = t})

pub strip_prefix-append : (p t : Bytes) → strip_prefix p (p ++ t) ≡ some t
unfolding strip_prefix
strip_prefix-append [] t = refl
strip_prefix-append (c ∷ p) t = ground (arith, strip_prefix-append p t)

-- A text without the prefix does not begin with it.
pub strip_prefix-none : (p s t : Bytes) → strip_prefix p s ≡ none → s ≢ p ++ t
strip_prefix-none p s t h e = cc (h, ap (strip_prefix p) e, strip_prefix-append p t)

hex_value-digit : (n : ℕ) → n < 16 → hex_value (hex_digit n) ≡ some n
unfolding hex_value hex_digit
hex_value-digit n h = ground arith

-- The bytes of a text.
abbrev pub IsBytes : Bytes → Type 0
IsBytes = All (λ c. c < 256)

-- Decoding what was encoded gives the bytes back.
pub hex_decode-encode : (s : Bytes) → IsBytes s → hex_decode (hex_encode s) ≡ some s
unfolding hex_decode hex_encode
hex_decode-encode [] h = refl
hex_decode-encode (c ∷ s) (h, hs) =
    ground (arith, hex_value-digit (c / 16), hex_value-digit (c % 16), hex_decode-encode s hs)
