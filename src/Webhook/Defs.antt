-- ===== src/Webhook/Defs.antt =====
-- internal/webhook/verify.go and handler.go. `headers.Get` is a function of the canonical name, and
-- encoding/json's `Unmarshal` of an event is a parameter. HMAC-SHA256 is that of `Env`.
use autoscaler.Common.{
  Bool, List, Option, any, false, if◌then◌else◌, inl, inr, map, none, not, some, ◌&&◌, ◌⊎◌,
}
use autoscaler.Config.{Config, RepoConfig, repo_by_name}
use autoscaler.Env.{Env}
use autoscaler.Spawner.{SpawnError, spawn}
use autoscaler.Text.{Bytes, bytes_eq, codes, elem, hex_decode, strip_prefix, to_lower}
use autoscaler.World.{Fallible, M, Spawner, err, ok, pure, ◌>>=◌}

-- `VerifySignature`. Bytes are compared as `hmac.Equal` does, whose time is not modelled.
unfoldable pub verify_signature : Env → Bytes → Bytes → Bytes → Bool
verify_signature e body header secret = elim (strip_prefix (codes "sha256=") header) [
  | none ↦ false
  | some digest ↦ elim (hex_decode digest) [
    | none ↦ false
    | some got ↦ bytes_eq got (e.hmac_sha256 secret body)
  ]
]

pub record WorkflowJob : Type 0 where
  pub status : Bytes
  pub conclusion : Bytes
  pub labels : List Bytes
  pub runner_name : Bytes
  pub workflow_url : Bytes

pub record Repo : Type 0 where
  pub full_name : Bytes

pub record WorkflowJobEvent : Type 0 where
  pub action : Bytes
  pub workflow_job : WorkflowJob
  pub repository : Repo

-- The errors of `Dispatch`; those of `Spawn` are passed on.
pub data DispatchError : Type 0 where
  bad_signature : DispatchError
  ignored : DispatchError
  bad_event : Bytes → DispatchError
  spawn_failed : SpawnError → DispatchError

-- `labelMatches`.
unfoldable pub label_matches : (Bytes → Bytes) → List Bytes → List Bytes → Bool
label_matches unicode job_labels want =
    any (λ l. elem (to_lower unicode l) (map (to_lower unicode) want)) job_labels

-- What `Dispatch` decides before it spawns: a repository to spawn for, or an error.
unfoldable pub route :
    Env
    → Config
    → (Bytes → Bytes)
    → Bytes
    → (Bytes → Fallible WorkflowJobEvent)
    → RepoConfig ⊎ DispatchError
unfolding label_matches
route e cfg headers body unmarshal =
    if cfg.verify_hmac
      && not (verify_signature e body (headers (codes "X-Hub-Signature-256")) cfg.webhook_secret)
    then inr bad_signature
    else if not (bytes_eq (headers (codes "X-Github-Event")) (codes "workflow_job"))
    then inr ignored
    else elim (unmarshal body) [
      | err x ↦ inr (bad_event x)
      | ok evt ↦
          if not (bytes_eq evt.action (codes "queued"))
          then inr ignored
          else elim (repo_by_name cfg.repos evt.repository.full_name) [
            | none ↦ inr ignored
            | some repo ↦
                if label_matches e.unicode_lower evt.workflow_job.labels repo.match_labels
                then inl repo
                else inr ignored
          ]
    ]

abbrev pub spawned : Option SpawnError → Option DispatchError
spawned none = none
spawned (some x) = some (spawn_failed x)

unfoldable pub dispatch :
    Env
    → Spawner
    → Config
    → (Bytes → Bytes)
    → Bytes
    → (Bytes → Fallible WorkflowJobEvent)
    → M (Option DispatchError)
dispatch e sp cfg headers body unmarshal = elim (route e cfg headers body unmarshal) [
  | inr x ↦ pure (some x)
  | inl repo ↦ do r ← spawn e sp repo; pure (spawned r)
]
