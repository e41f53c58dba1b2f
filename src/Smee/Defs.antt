-- ===== src/Smee/Defs.antt =====
-- internal/smee/client.go: the parser of the event stream, the handling of one event, the reconnect
-- delay and the host that is logged. `lines` are what `bufio.Scanner` finds in the response.
use autoscaler.Common.{
  Bool, List, Option, [], false, if◌then◌else◌, leb_ℤ, ltb, none, not, pos, some, true, ℕ, ℤ, ◌&&◌,
  ◌*◌, ◌++◌, ◌-ℤ◌, ◌==◌, ◌||◌, ◌∷◌,
}
use autoscaler.Config.{Config}
use autoscaler.Env.{Env, read_clock, send}
use autoscaler.Text.{
  Bytes, bytes_eq, codes, decimal, is_empty, strip_prefix, trim_prefix, trim_space,
}
use autoscaler.Webhook.{WorkflowJobEvent, dispatch}
use autoscaler.World.{Body, Fallible, M, Request, Spawner, err, get, ok, pure, ◌>>=◌, ◌>>◌}

abbrev pub message_name : Bytes
message_name = codes "message"

abbrev pub event_field : Bytes
event_field = codes "event:"

abbrev pub data_field : Bytes
data_field = codes "data:"

-- The `data:` case: a further line is joined by a newline, if there is data already.
abbrev pub join_data : Bytes → Bytes → Bytes
join_data text d = if is_empty text then d else text ++ (b'\n' ∷ d)

-- The variables `event` and `data` behind a line that is not empty.
unfoldable pub read_field : Bytes × Bytes → Bytes → Bytes × Bytes
unfolding strip_prefix trim_prefix
read_field (event, text) line = elim (strip_prefix event_field line) [
  | some rest ↦ (trim_space rest, text)
  | none ↦ elim (strip_prefix data_field line) [
    | some rest ↦ (event, join_data text (trim_prefix rest (codes " ")))
    | none ↦ (event, text)
  ]
]

-- The `flush` function hands data on only for an event of the name `message`.
unfoldable pub is_message : Bytes × Bytes → Bool
is_message (event, text) = bytes_eq event message_name && not (is_empty text)

abbrev pub no_fields : Bytes × Bytes
no_fields = (message_name, [])

-- The loop of `parseStream`; `handle` is `handleMessage`.
unfoldable pub parse_from : (Bytes → M (Unit {0})) → Bytes × Bytes → List Bytes → M (Unit {0})
parse_from handle fields_read [] = pure tt
parse_from handle fields_read ([] ∷ lines) = elim (is_message fields_read) [
  | true ↦ do handle fields_read.1; parse_from handle no_fields lines
  | false ↦ parse_from handle no_fields lines
]
parse_from handle fields_read ((c ∷ s) ∷ lines) =
    parse_from handle (read_field fields_read (c ∷ s)) lines

-- `parseStream`: the end of the stream is the error `io.EOF`.
unfoldable pub parse_stream : (Bytes → M (Unit {0})) → List Bytes → Option Bytes → M Bytes
parse_stream handle lines scan_error = do
  parse_from handle no_fields lines
  pure (elim scan_error [ some x ↦ x | none ↦ codes "EOF" ])

abbrev pub relay_request : Bytes → Request
relay_request url = record {
  method = get;
  url = url;
  headers =
      (codes "Accept", codes "text/event-stream")
      ∷ (codes "User-Agent", codes "gha-runner-autoscaler/2.0")
      ∷ [];
}

-- `connect`: the error that ends a connection. `scanned` is what `bufio.Scanner` finds in a body.
unfoldable pub connect :
    (Body → List Bytes × Option Bytes) → Env → (Bytes → M (Unit {0})) → Bytes → M Bytes
connect scanned e handle url = elim (e.url_error url) [
  | some x ↦ pure x
  | none ↦ do
    a ← send e (relay_request url)
    elim a [
      | err x ↦ pure x
      | ok resp ↦
          if resp.status == 200
          then parse_stream handle (scanned resp.body).0 (scanned resp.body).1
          else pure (codes "smee status " ++ decimal (pos resp.status))
    ]
]

-- Durations in nanoseconds.
abbrev pub second : ℕ
second = 1000000000

abbrev pub max_backoff : ℕ
max_backoff = 30 * second

unfoldable pub cap_duration : ℕ → ℕ → ℕ
cap_duration a max = if ltb a max then a else max

-- One round of `Run` behind `connect`, which took `up`: the delay before the next attempt, and the
-- new value of `backoff`.
unfoldable pub reconnect : ℤ → ℕ → ℕ × ℕ
reconnect up backoff =
    let delay = if leb_ℤ (pos max_backoff) up then second else backoff in
    (delay, cap_duration (delay * 2) max_backoff)

-- The delays of `Run`, for connections that lasted as listed.
unfoldable pub delays : ℕ → List ℤ → List ℕ
delays backoff [] = []
delays backoff (up ∷ ups) = let round = reconnect up backoff in round.0 ∷ delays round.1 ups

-- The loop of `Run`, with the delays that it waits for. Each round says whether the context is done
-- before the connection and whether it is done in the delay; `attempt` is `connect`.
unfoldable pub client_rounds : Env → M Bytes → ℕ → List (Bool × Bool) → M (List ℕ)
client_rounds e attempt backoff [] = pure []
client_rounds e attempt backoff ((over, over_later) ∷ more) = if over then pure [] else (do
  connected_at ← read_clock e
  attempt
  closed_at ← read_clock e
  let round = reconnect (closed_at -ℤ connected_at) backoff in
      if over_later
      then pure (round.0 ∷ [])
      else (do rest ← client_rounds e attempt round.1 more; pure (round.0 ∷ rest)))

unfoldable pub client_run : Env → M Bytes → List (Bool × Bool) → M (List ℕ)
client_run e attempt rounds = client_rounds e attempt second rounds

-- `raw[i+3:]` behind the first `://`, if there is one.
unfoldable pub after_scheme : Bytes → Option Bytes
unfolding strip_prefix
after_scheme [] = none
after_scheme (c ∷ s) = elim (strip_prefix (codes "://") (c ∷ s)) [
  | some rest ↦ some rest
  | none ↦ after_scheme s
]

-- `raw[:i]` before the first `/`, or the whole text.
unfoldable pub before_slash : Bytes → Bytes
before_slash [] = []
before_slash (c ∷ s) = elim (c == b'/') [ true ↦ [] | false ↦ c ∷ before_slash s ]

unfoldable pub smee_host : Bytes → Bytes
smee_host raw =
    let host = before_slash (elim (after_scheme raw) [ some rest ↦ rest | none ↦ raw ]) in
    if is_empty host then codes "[redacted]" else host

-- The value of a key of `raw`, `nil` for no such key.
unfoldable pub raw_value : List (Bytes × Bytes) → Bytes → Bytes
raw_value [] key = []
raw_value ((k, v) ∷ more) key = if bytes_eq k key then v else raw_value more key

abbrev pub is_envelope : Bytes → Bool
is_envelope k =
    bytes_eq k (codes "body") || (bytes_eq k (codes "query") || bytes_eq k (codes "timestamp"))

-- `json_string` decodes a JSON string, `raw_object` an object as its entries in the order of the
-- map, and `canonical` is the canonical form of a header's name.
module _ (json_string : Bytes → Fallible Bytes)
    (raw_object : Bytes → Fallible (List (Bytes × Bytes))) (canonical : Bytes → Bytes) where
  unfoldable pub extract_body : Bytes → Fallible Bytes
  extract_body [] = err (codes "empty body")
  extract_body (c ∷ raw) = elim (json_string (c ∷ raw)) [ ok s ↦ ok s | err x ↦ ok (c ∷ raw) ]

  -- `headers.Get` behind the loop over `raw`: the last entry that sets the name wins.
  unfoldable pub header_from : List (Bytes × Bytes) → Bytes → Bytes → Bytes
  header_from [] name found = found
  header_from ((k, v) ∷ more) name found = elim (is_envelope k) [
    | true ↦ header_from more name found
    | false ↦ elim (json_string v) [
      | err x ↦ header_from more name found
      | ok s ↦ header_from more name (if bytes_eq (canonical k) (canonical name) then s else found)
    ]
  ]

  -- `handleMessage`; what `Dispatch` returns is logged only.
  unfoldable pub handle_message :
      Env → Spawner → Config → (Bytes → Fallible WorkflowJobEvent) → Bytes → M (Unit {0})
  handle_message e sp cfg unmarshal text = elim (raw_object text) [
    | err x ↦ pure tt
    | ok raw ↦ elim (extract_body (raw_value raw (codes "body"))) [
      | err x ↦ pure tt
      | ok body ↦ do dispatch e sp cfg (λ name. header_from raw name []) body unmarshal; pure tt
    ]
  ]
