-- ===== src/Smee/Handling.antt =====
-- What one event of the relay leads to.
use autoscaler.Common.{List, [], ◌≡◌, ◌⊎◌}
use autoscaler.Config.{Config, RepoConfig}
use autoscaler.Env.{Env}
use autoscaler.Smee.{extract_body, header_from, raw_value}
use autoscaler.Smee.Entries.{BodyIs, HeaderIs}
use autoscaler.Spawner.{spawn}
use autoscaler.Text.{Bytes, codes}
use autoscaler.Webhook.{WorkflowJobEvent}
use autoscaler.Webhook.Dispatching.{Accepts}
use autoscaler.World.{Fallible, Machine, Spawner, ok}

module _ (json_string : Bytes → Fallible Bytes)
    (raw_object : Bytes → Fallible (List (Bytes × Bytes))) (canonical : Bytes → Bytes) (e : Env)
    (sp : Spawner) (cfg : Config) (unmarshal : Bytes → Fallible WorkflowJobEvent) where
  -- An event that asks for a runner of a configured repository: its text is an object with a body,
  -- and the body and the headers in it are accepted for that repository.
  abbrev pub Asks : Bytes → RepoConfig → Type 0
  Asks text repo =
      (raw : List (Bytes × Bytes)) × (body : Bytes) × (headers : Bytes → Bytes) × (raw_object text
        ≡ ok raw)
      × BodyIs json_string canonical raw body
      × ((name : Bytes) → HeaderIs json_string canonical raw name (headers name))
      × Accepts e cfg headers body unmarshal repo

  -- Such an event leads to a call of Spawn for that repository, any other event to nothing.
  abbrev pub Handled : Bytes → Machine → Machine → Type 0
  Handled text m m' =
      ((repo : RepoConfig) × Asks text repo × (m' ≡ (spawn e sp repo m).1))
      ⊎ (((repo : RepoConfig) → ¬ Asks text repo) × (m' ≡ m))

  abbrev body_of : List (Bytes × Bytes) → Fallible Bytes
  body_of raw = extract_body json_string raw_object canonical (raw_value raw (codes "body"))

  abbrev AcceptsAt : List (Bytes × Bytes) → Bytes → RepoConfig → Type 0
  AcceptsAt raw body repo =
      Accepts e cfg (λ name. header_from json_string raw_object canonical raw name []) body
        unmarshal repo
