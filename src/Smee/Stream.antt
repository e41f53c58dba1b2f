-- ===== src/Smee/Stream.antt =====
-- The event stream against a description by blocks, and a round trip of events.
-- What stands behind the prefix in the lines that have it, in order.
use autoscaler.Cleanup.Repo.{shown}
use autoscaler.Common.{
  List, Option, Option-cases, [], ap, append-nil, append_assoc, arith, false, inl, inr, map, none,
  refl, some, sym, true, ℕ, ◌++◌, ◌∙◌, ◌∷◌, ◌≡◌,
}
use autoscaler.Smee.{
  data_field, event_field, is_message, join_data, message_name, no_fields, parse_from, parse_stream,
  read_field,
}
use autoscaler.Text.{Bytes, codes, strip_prefix, trim_prefix, trim_space}
use autoscaler.World.{M, Machine, pure, ◌>>◌}

abbrev pub values : Bytes → List Bytes → List Bytes
values prefix [] = []
values prefix (line ∷ lines) =
    let rest = values prefix lines in
    elim (strip_prefix prefix line) [ none ↦ rest | some v ↦ v ∷ rest ]

abbrev pub last_or : Bytes → List Bytes → Bytes
last_or x [] = x
last_or x (y ∷ ys) = last_or y ys

abbrev pub newline_each : List Bytes → Bytes
newline_each [] = []
newline_each (v ∷ vs) = b'\n' ∷ (v ++ newline_each vs)

-- The values on lines of their own, without the empty ones in front.
abbrev pub joined : List Bytes → Bytes
joined [] = []
joined ([] ∷ vs) = joined vs
joined ((c ∷ v) ∷ vs) = (c ∷ v) ++ newline_each vs

-- A block's event name is its last `event:` field, and `message` without one; its data are its
-- `data:` fields, each without one leading blank.
abbrev pub name_of : List Bytes → Bytes
name_of block = last_or message_name (map trim_space (values event_field block))

abbrev pub data_of : List Bytes → Bytes
data_of block = joined (map (λ v. trim_prefix v (codes " ")) (values data_field block))

-- The blocks that an empty line ends, behind the lines `cur` of an open one.
abbrev pub blocks : List Bytes → List Bytes → List (List Bytes)
blocks cur [] = []
blocks cur ([] ∷ lines) = cur ∷ blocks [] lines
blocks cur ((c ∷ s) ∷ lines) = blocks (cur ++ (c ∷ s) ∷ []) lines

abbrev pub deliver : (Bytes → M (Unit {0})) → List (List Bytes) → M (Unit {0})
deliver handle [] = pure tt
deliver handle (block ∷ more) = elim (is_message (name_of block, data_of block)) [
  | true ↦ do handle (data_of block); deliver handle more
  | false ↦ deliver handle more
]

-- The variables behind some lines, from a state.
abbrev read_all : Bytes × Bytes → List Bytes → Bytes × Bytes
read_all st [] = st
read_all st (line ∷ lines) = read_all (read_field st line) lines

abbrev join_all : Bytes → List Bytes → Bytes
join_all text [] = text
join_all text (v ∷ vs) = join_all (join_data text v) vs

join_all-more :
    (c : ℕ) (text : Bytes) (vs : List Bytes)
    → join_all (c ∷ text) vs ≡ (c ∷ text) ++ newline_each vs
join_all-more c text [] = sym (append-nil (c ∷ text))
join_all-more c text (v ∷ vs) =
    join_all-more c (text ++ (b'\n' ∷ v)) vs ∙ append_assoc (c ∷ text) (b'\n' ∷ v) (newline_each vs)

join_all-joined : (vs : List Bytes) → join_all [] vs ≡ joined vs
join_all-joined [] = refl
join_all-joined ([] ∷ vs) = join_all-joined vs
join_all-joined ((c ∷ v) ∷ vs) = join_all-more c v vs

-- No line has both fields.
one_field :
    (line rest : Bytes)
    → strip_prefix event_field line ≡ some rest
    → strip_prefix data_field line ≡ none
unfolding strip_prefix
one_field [] rest h = refl
one_field (c ∷ s) rest h = ground arith

abbrev trimmed : Bytes → Bytes
trimmed v = trim_prefix v (codes " ")

read_all-values :
    (name text : Bytes) (lines : List Bytes)
    → read_all (name, text) lines ≡ (
      last_or name (map trim_space (values event_field lines)),
      join_all text (map trimmed (values data_field lines)),
    )
unfolding read_field
read_all-values name text [] = refl
read_all-values name text (line ∷ lines) = elim (Option-cases (strip_prefix event_field line)) [
  | inr (rest, named) ↦
      ground (arith, named, one_field line rest named, read_all-values (trim_space rest) text lines)
  | inl other ↦ elim (Option-cases (strip_prefix data_field line)) [
    | inr (rest, shown) ↦
        ground (arith, other, shown, read_all-values name (join_data text (trimmed rest)) lines)
    | inl skipped ↦ ground (arith, other, skipped, read_all-values name text lines)
  ]
]

read_all-append :
    (st : Bytes × Bytes) (cur : List Bytes) (line : Bytes)
    → read_all st (cur ++ line ∷ []) ≡ read_field (read_all st cur) line
read_all-append st [] line = refl
read_all-append st (l ∷ cur) line = read_all-append (read_field st l) cur line

read_all-block : (block : List Bytes) → read_all no_fields block ≡ (name_of block, data_of block)
read_all-block block =
    read_all-values message_name [] block
    ∙ ap (λ d. (name_of block, d)) (join_all-joined (map trimmed (values data_field block)))

module _ (handle : Bytes → M (Unit {0})) where
  parse_from-blocks :
      (cur lines : List Bytes) (m : Machine)
      → parse_from handle (read_all no_fields cur) lines m ≡ deliver handle (blocks cur lines) m
  unfolding parse_from
  parse_from-blocks cur [] m = refl
  parse_from-blocks cur ([] ∷ lines) m = rw (read_all-block cur) (
      ground (
        arith,
        parse_from-blocks [] lines m,
        parse_from-blocks [] lines (handle (data_of cur) m).1,
      ))
  parse_from-blocks cur ((c ∷ s) ∷ lines) m =
      ap (λ st. parse_from handle st lines m) (sym (read_all-append no_fields cur (c ∷ s)))
      ∙ parse_from-blocks (cur ++ (c ∷ s) ∷ []) lines m

  -- parseStream hands to handleMessage, in order, the data of the blocks that an empty line ends,
  -- whose event name is `message` and whose data are not empty; what stands behind the last empty
  -- line is dropped. It returns the scanner's error, or else EOF.
  pub parse_stream-blocks :
      (lines : List Bytes) (scan_error : Option Bytes) (m : Machine)
      → parse_stream handle lines scan_error m ≡ (
        elim scan_error [ some x ↦ x | none ↦ codes "EOF" ],
        (deliver handle (blocks [] lines) m).1,
      )
  unfolding parse_stream
  parse_stream-blocks lines scan_error m =
      ap (λ r. (elim scan_error [ some x ↦ x | none ↦ codes "EOF" ], r.1))
        (parse_from-blocks [] lines m)
