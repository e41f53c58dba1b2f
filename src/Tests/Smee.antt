-- ===== src/Tests/Smee.antt =====
-- Runs of internal/smee, and its theorems at small inputs.
use mathlib.Core.List.{Mem, Pairwise, Permᴰ, forall_mem-cons, not-mem-nil}
use autoscaler.Common.{All, List, [], false, none, refl, true, ◌∷◌, ◌≡◌, ◌≢◌}
use autoscaler.Smee.{
  cap_duration, client_rounds, client_run, handle_message, is_message, max_backoff, parse_from,
  parse_stream, read_field, reconnect, second,
}
use autoscaler.Smee.AnyOrder.{Differ, Entry, handle_message_any_order}
use autoscaler.Smee.Backoff.{Within, client_run-Within}
use autoscaler.Smee.RoundTrip.{each, parse_stream-sent, sent}
use autoscaler.Smee.Stream.{blocks, deliver, parse_stream-blocks}
use autoscaler.Tests.Webhook.{cfg, queued_event}
use autoscaler.Tests.World.{deps, fresh, world}
use autoscaler.Text.{Bytes, codes, strip_prefix, trim_prefix, trim_space}
use autoscaler.World.{M, ok, remove}

abbrev events : List (Bytes × Bytes)
events = (codes "1", codes "{}") ∷ (codes "2", codes "[1]") ∷ []

-- A handler that leaves a mark in the history.
abbrev marking : Bytes → M (Unit {0})
marking text m = (tt, record m { trace = remove text none ∷ m.trace })

both_full : All (λ ev. ev.1 ≢ []) events
both_full = (cc, (cc, tt))

parse_stream-sent_example :
    parse_stream marking (sent events) none fresh ≡ (codes "EOF", (each marking events fresh).1)
parse_stream-sent_example = parse_stream-sent marking events fresh both_full

-- A comment, an event of another name, two data lines, and an event that is cut off.
abbrev odd_lines : List Bytes
odd_lines =
    codes ": ping"
    ∷ codes "event: ready"
    ∷ codes "data: x"
    ∷ []
    ∷ codes "data: a"
    ∷ codes "data:b"
    ∷ []
    ∷ codes "data: lost"
    ∷ []

parse_stream-blocks_example :
    parse_stream marking odd_lines none fresh
    ≡ (codes "EOF", (deliver marking (blocks [] odd_lines) fresh).1)
parse_stream-blocks_example = parse_stream-blocks marking odd_lines none fresh

one_event : (parse_stream marking odd_lines none fresh).1.trace ≡ remove (codes "a\nb") none ∷ []
unfolding parse_stream parse_from read_field is_message strip_prefix trim_prefix trim_space
one_event = refl

client_run-Within_example :
    Within second max_backoff
      (client_run world (λ m. (codes "EOF", m)) ((false, false) ∷ (false, true) ∷ []) fresh).0
client_run-Within_example =
    client_run-Within world (λ m. (codes "EOF", m)) ((false, false) ∷ (false, true) ∷ []) fresh

-- The clock stands still: the second delay is twice the first.
two_delays :
    (client_run world (λ m. (codes "EOF", m)) ((false, false) ∷ (false, true) ∷ []) fresh).0
    ≡ second ∷ 2000000000 ∷ []
unfolding client_run client_rounds reconnect cap_duration
two_delays = refl

-- An event with the signature of its body, as the relay wraps it.
abbrev wrapped : List (Bytes × Bytes)
wrapped =
    (codes "X-Hub-Signature-256", codes "sha256=6b7b7d")
    ∷ (codes "X-Github-Event", codes "workflow_job")
    ∷ (codes "body", codes "{}")
    ∷ []

-- The entries of the event in the other order.
abbrev turned : List (Bytes × Bytes)
turned =
    (codes "X-Github-Event", codes "workflow_job")
    ∷ (codes "X-Hub-Signature-256", codes "sha256=6b7b7d")
    ∷ (codes "body", codes "{}")
    ∷ []

All-Differ :
    (a : Entry) (l : List Entry)
    → All (Differ (λ k. k) a) l
    → (x : Entry) → Mem x l
    → Differ (λ k. k) a x
All-Differ a [] h = λ x member. absurd (not-mem-nil member)
All-Differ a (b ∷ l) h = (forall_mem-cons (λ x. hlevel)).1 (h.0, All-Differ a l h.1)

abbrev AllApart : List Entry → Type 0
AllApart [] = Unit
AllApart (a ∷ l) = All (Differ (λ k. k) a) l × AllApart l

apart-Pairwise : (l : List Entry) → AllApart l → Pairwise (Differ (λ k. k)) l
apart-Pairwise [] h = Pairwise.nil
apart-Pairwise (a ∷ l) h = Pairwise.cons (All-Differ a l h.0) (apart-Pairwise l h.1)

handle_message_any_order_example :
    handle_message
      (λ v. ok v)
      (λ t. ok wrapped)
      (λ k. k)
      world
      deps
      cfg
      (λ b. ok queued_event)
      (codes "x")
      fresh
    ≡ handle_message
        (λ v. ok v)
        (λ t. ok turned)
        (λ k. k)
        world
        deps
        cfg
        (λ b. ok queued_event)
        (codes "x")
        fresh
handle_message_any_order_example =
    handle_message_any_order (λ v. ok v) (λ t. ok wrapped) (λ t. ok turned) (λ k. k) world deps cfg
      (λ b. ok queued_event) (codes "x") wrapped turned fresh refl refl (Permᴰ.swap refl refl)
      (apart-Pairwise wrapped ((refl, (refl, tt)), ((refl, tt), (tt, tt))))
