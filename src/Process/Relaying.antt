-- ===== src/Process/Relaying.antt =====
-- internal/smee/client.go and internal/webhook/handler.go under an invariant of the process.
use autoscaler.Common.{List, Option, [], arith, inl, inr, some, ◌∷◌, ◌≡◌}
use autoscaler.Config.{Config, RepoConfig, repo_by_name}
use autoscaler.Env.{Env}
use autoscaler.Process.Keeps.{Holds, Invariant, Keeps, accepted}
use autoscaler.Smee.{
  connect, handle_message, no_fields, parse_from, parse_stream, read_field, relay_request,
}
use autoscaler.Text.{Bytes}
use autoscaler.Webhook.{WorkflowJobEvent, dispatch}
use autoscaler.Webhook.Dispatching.{Outcome, dispatch-Outcome}
use autoscaler.World.{Body, Fallible, Fallible-cases, M, Machine, Spawner, http_do}

module _ (e : Env) (sp : Spawner) (relay : Bytes) (Own : RepoConfig → Type 0) (P : Invariant)
    (k : Keeps e sp relay Own P) where
  module _ (cfg : Config) (unmarshal : Bytes → Fallible WorkflowJobEvent)
      (found : (name : Bytes) (repo : RepoConfig)
        → repo_by_name cfg.repos name ≡ some repo
        → Own repo) where
    dispatch-Holds :
        (headers : Bytes → Bytes) (body : Bytes) (m : Machine)
        → Holds P m
        → Holds P (dispatch e sp cfg headers body unmarshal m).1
    dispatch-Holds headers body m h = elim (dispatch-Outcome e cfg headers body unmarshal sp m) [
      | Outcome.spawns repo accepted same ↦
          rw same (k.spawns repo m (found _ repo accepted.found) h)
      | Outcome.refuses x nobody same ↦ rw same h
    ]

    pub handle_message-Holds :
        (json_string : Bytes → Fallible Bytes)
        (raw_object : Bytes → Fallible (List (Bytes × Bytes))) (canonical : Bytes → Bytes)
        (text : Bytes) (m : Machine)
        → Holds P m
        → Holds P (handle_message json_string raw_object canonical e sp cfg unmarshal text m).1
    unfolding handle_message
    handle_message-Holds json_string raw_object canonical text m h = grind (arith, dispatch-Holds)

  module _ (handle : Bytes → M (Unit {0}))
      (handled : (text : Bytes) (m : Machine) → Holds P m → Holds P (handle text m).1) where
    parse_from-Holds :
        (fields_read : Bytes × Bytes) (lines : List Bytes) (m : Machine)
        → Holds P m
        → Holds P (parse_from handle fields_read lines m).1
    unfolding parse_from
    parse_from-Holds fields_read [] m h = h
    parse_from-Holds fields_read ([] ∷ lines) m h =
        grind (arith, handled, parse_from-Holds no_fields lines)
    parse_from-Holds fields_read ((c ∷ s) ∷ lines) m h =
        parse_from-Holds (read_field fields_read (c ∷ s)) lines m h

    pub connect-Holds :
        (scanned : Body → List Bytes × Option Bytes) (m : Machine)
        → Holds P m
        → Holds P (connect scanned e handle relay m).1
    unfolding connect parse_stream
    connect-Holds scanned m h =
        let req = relay_request relay in
        let a = e.do_http m.trace req in
        let asked = record m { trace = http_do req a ∷ m.trace } in
        let one = k.relays a m.trace m.spawner m.cleaner h in
        elim (Fallible-cases a) [
          | inr (x, failed) ↦ ground (arith, failed, one)
          | inl (resp, there) ↦
              ground (arith, there, one, parse_from-Holds no_fields (scanned resp.body).0 asked)
        ]
