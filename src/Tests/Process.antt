-- ===== src/Tests/Process.antt =====
-- Runs of the whole process, and its theorems at a few actions.
use mathlib.Core.List.{Memᴰ}
use autoscaler.Common.{List, [], false, none, refl, some, true, ◌∷◌}
use autoscaler.Portal.{PortalRequest}
use autoscaler.Process.Actions.{
  Action, Library, cleans, connects, process, reconciles, serves, spawner_of,
}
use autoscaler.Process.Files.{NothingRun, Tidied, process-Tidy, process_dry}
use autoscaler.Process.Keeps.{Holds}
use autoscaler.Process.Ledger.{Ledger, process-Ledger}
use autoscaler.Process.Surface.{AllKnown, process-AllKnown}
use autoscaler.Tests.Cleanup.{ghostly_world}
use autoscaler.Tests.Webhook.{cfg, queued_event}
use autoscaler.Tests.World.{backend}
use autoscaler.Text.{Bytes, codes}
use autoscaler.World.{ok}

abbrev wrapped : List (Bytes × Bytes)
wrapped =
    (codes "X-Hub-Signature-256", codes "sha256=6b7b7d")
    ∷ (codes "X-Github-Event", codes "workflow_job")
    ∷ (codes "body", codes "{}")
    ∷ []

-- The relay sends one event, whose signature holds.
abbrev lib : Library
lib = record {
  scanned = λ b. (codes "data: x" ∷ [] ∷ [], none);
  json_string = λ v. ok v;
  raw_object = λ t. ok wrapped;
  canonical = λ k. k;
  unmarshal = λ b. ok queued_event;
  choose = λ p. some p;
}

abbrev stop_request : PortalRequest
stop_request = record {
  path = codes "/api/stop";
  is_post = true;
  authorization = [];
  cookie = none;
  name = codes "auto-x";
  repo = [];
}

-- One action of each kind.
abbrev some_actions : List Action
some_actions =
    serves (backend ∷ []) stop_request ∷ cleans (backend ∷ []) ∷ reconciles ∷ connects ∷ []

process-Ledger_example : Holds Ledger (process ghostly_world lib cfg false some_actions)
process-Ledger_example = process-Ledger ghostly_world lib cfg some_actions

process-AllKnown_example :
    let sp = spawner_of ghostly_world lib cfg false in
    Holds (AllKnown ghostly_world sp cfg) (process ghostly_world lib cfg false some_actions)
process-AllKnown_example =
    process-AllKnown ghostly_world lib cfg false some_actions
      ((Memᴰ.head refl, tt), ((Memᴰ.head refl, tt), (tt, (tt, tt))))

process-Tidy_example : Holds Tidied (process ghostly_world lib cfg false some_actions)
process-Tidy_example = process-Tidy ghostly_world lib cfg false some_actions

process_dry_example : Holds NothingRun (process ghostly_world lib cfg true some_actions)
process_dry_example = process_dry ghostly_world lib cfg some_actions
