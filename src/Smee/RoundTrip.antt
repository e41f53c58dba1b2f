-- ===== src/Smee/RoundTrip.antt =====
-- What the relay sends for an event, and what the parser makes of it.
-- The lines of events, each with an id and one line of data, as the relay sends them.
use autoscaler.Common.{All, List, [], ap, none, refl, ◌++◌, ◌∷◌, ◌≡◌, ◌≢◌}
use autoscaler.Smee.{is_message, no_fields, parse_from, parse_stream, read_field}
use autoscaler.Text.{Bytes, codes, strip_prefix, trim_prefix}
use autoscaler.World.{M, Machine, pure, ◌>>◌}

abbrev pub sent : List (Bytes × Bytes) → List Bytes
sent [] = []
sent ((id, payload) ∷ more) = (codes "id: " ++ id) ∷ (codes "data: " ++ payload) ∷ [] ∷ sent more

abbrev pub each : (Bytes → M (Unit {0})) → List (Bytes × Bytes) → M (Unit {0})
each handle [] = pure tt
each handle ((id, payload) ∷ more) = do handle payload; each handle more

module _ (handle : Bytes → M (Unit {0})) where
  parse_from-sent :
      (events : List (Bytes × Bytes)) (m : Machine)
      → All (λ ev. ev.1 ≢ []) events
      → parse_from handle no_fields (sent events) m ≡ each handle events m
  unfolding parse_from read_field is_message strip_prefix trim_prefix
  parse_from-sent [] m h = refl
  parse_from-sent ((id, []) ∷ more) m h = elim (h.0 refl) [ ]
  parse_from-sent ((id, c ∷ payload) ∷ more) m h =
      parse_from-sent more (handle (c ∷ payload) m).1 h.1

  -- The events that the relay sends, each with data on one line that are not empty, are handed to
  -- handleMessage as they are, each once and in order, and the end of the stream is reported as
  -- EOF.
  pub parse_stream-sent :
      (events : List (Bytes × Bytes)) (m : Machine)
      → All (λ ev. ev.1 ≢ []) events
      → parse_stream handle (sent events) none m ≡ (codes "EOF", (each handle events m).1)
  unfolding parse_stream
  parse_stream-sent events m h = ap (λ r. (codes "EOF", r.1)) (parse_from-sent events m h)
