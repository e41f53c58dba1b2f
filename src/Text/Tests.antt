-- ===== src/Text/Tests.antt =====
-- Runs of the text functions on inputs that the program meets.
use autoscaler.Common.{[], negsuc, refl, some, true, ◌∷◌, ◌≡◌}
use autoscaler.Text.{
  Bytes, codes, contains, decimal, fields, hex_decode, hex_digit, hex_encode, hex_value, split,
  split_n, to_lower, trim_space,
}

abbrev lowered : Bytes
lowered = codes "self-hosted"

to_lower_run : to_lower (λ s. s) (codes "Self-Hosted") ≡ lowered
unfolding to_lower
to_lower_run = refl

split_run : split (codes "a\nb\n") b'\n' ≡ codes "a" ∷ codes "b" ∷ [] ∷ []
unfolding split
split_run = refl

split_n_run : split_n (codes "id|name|a|b") b'|' 2 ≡ codes "id" ∷ codes "name" ∷ codes "a|b" ∷ []
unfolding split_n
split_n_run = refl

fields_run : fields (codes " ab\n cd ") ≡ codes "ab" ∷ codes "cd" ∷ []
unfolding fields
fields_run = refl

trim_run : trim_space (codes " running\n") ≡ codes "running"
unfolding trim_space
trim_run = refl

contains_run : contains (codes "x: status 401: y") (codes "status 401") ≡ true
unfolding contains
contains_run = refl

decimal_run : decimal (negsuc 119) ≡ codes "-120"
unfolding decimal
decimal_run = refl

hex_run : hex_decode (hex_encode (0 ∷ 255 ∷ 171 ∷ [])) ≡ some (0 ∷ 255 ∷ 171 ∷ [])
unfolding hex_decode hex_encode hex_value hex_digit
hex_run = refl
