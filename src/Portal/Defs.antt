-- ===== src/Portal/Defs.antt =====
-- internal/portal/portal.go: the token check and the endpoints. The JSON of an answer is left out: an
-- answer is its status and what is encoded.
use autoscaler.Cleanup.{tick_with_summary}
use autoscaler.Common.{Bool, List, Option, [], false, if◌then◌else◌, none, some, true, ℕ, ◌++◌, ◌∷◌}
use autoscaler.Config.{RepoConfig}
use autoscaler.Env.{Env, exec_docker}
use autoscaler.Portal.Collect.{State, collect_state}
use autoscaler.Reconciler.{trigger_once}
use autoscaler.Spawner.{Stats, set_paused}
use autoscaler.Text.{Bytes, bytes_eq, codes, has_prefix, is_empty, trim_prefix, trim_space}
use autoscaler.World.{M, Spawner, Summary, err, ok, pure, ◌>>=◌, ◌>>◌}

-- What a request holds for these handlers: its path, the `Authorization` header, the cookie
-- `portal_token`, and the `name` and `repo` of the query.
pub record PortalRequest : Type 0 where
  pub path : Bytes
  pub is_post : Bool
  pub authorization : Bytes
  pub cookie : Option Bytes
  pub name : Bytes
  pub repo : Bytes

pub data Reply : Type 0 where
  refused : (status : ℕ) (text : Bytes) → Reply
  paused_is : Bool → Reply
  stopped : (name : Bytes) → Reply
  cleaned : Summary → Reply
  triggered : Reply
  state_is : State → Reply
  index_page : Reply
  healthy : Reply
  stats_are : Stats → Reply
  aborted : (panic : Bytes) → Reply

abbrev pub Handler : Type 0
Handler = PortalRequest → M Reply

abbrev post_only : Reply
post_only = refused 405 (codes "POST only")

-- The token that a request presents.
unfoldable pub presented : PortalRequest → Bytes
presented r =
    let got = trim_prefix r.authorization (codes "Bearer ") in
    if is_empty got then elim r.cookie [ none ↦ [] | some value ↦ value ] else got

-- `auth`; `subtle.ConstantTimeCompare` compares the bytes.
unfoldable pub auth : Bytes → Handler → Handler
auth token handler r =
    if is_empty token
    then handler r
    else if bytes_eq (presented r) token
    then handler r
    else pure (refused 401 (codes "unauthorized"))

unfoldable pub handle_pause : Handler
unfolding set_paused
handle_pause r = if r.is_post then (do set_paused true; pure (paused_is true)) else pure post_only

unfoldable pub handle_resume : Handler
unfolding set_paused
handle_resume r =
    if r.is_post then (do set_paused false; pure (paused_is false)) else pure post_only

abbrev pub stop_args : Bytes → List Bytes
stop_args name = codes "stop" ∷ name ∷ []

-- The combined output of `docker stop` is the answer's `stdout`.
unfoldable pub handle_stop : Env → Handler
handle_stop e r = elim r.is_post [
  | false ↦ pure post_only
  | true ↦ elim (is_empty r.name) [
    | true ↦ pure (refused 400 (codes "name required"))
    | false ↦ elim (has_prefix r.name (codes "auto-")) [
      | false ↦ pure (refused 400 (codes "only auto-* containers can be stopped via portal"))
      | true ↦ do
        out ← exec_docker e (stop_args r.name)
        elim out.error [
          | some x ↦
              pure (
                refused 500 (codes "docker stop: " ++ (x ++ (codes ": " ++ trim_space out.stdout))))
          | none ↦ pure (stopped r.name)
        ]
    ]
  ]
]

unfoldable pub handle_cleanup : Env → Spawner → List RepoConfig → List RepoConfig → Handler
handle_cleanup e sp repos order r =
    if r.is_post
    then (do s ← tick_with_summary e sp repos order; pure (cleaned s))
    else pure post_only

unfoldable pub handle_index : Handler
handle_index r =
    if bytes_eq r.path (codes "/") then pure index_page else pure (refused 404 (codes "not found"))

unfoldable pub handle_state : Env → Spawner → List RepoConfig → Handler
handle_state e sp repos r = do
  s ← collect_state e sp repos
  pure (elim s [ ok st ↦ state_is st | err x ↦ aborted x ])

-- The goroutine that the handler starts is run at once; `base` is the reconciler's API base.
unfoldable pub handle_reconcile : Env → Spawner → Bytes → List RepoConfig → Handler
handle_reconcile e sp base repos r =
    if r.is_post then (do trigger_once e sp base r.repo repos; pure triggered) else pure post_only

-- `Mount`: the patterns with their handlers. `order` is that of a cleanup's goroutines.
unfoldable pub portal_routes :
    Env → Spawner → Bytes → Bytes → List RepoConfig → List RepoConfig → List (Bytes × Handler)
portal_routes e sp base token repos order =
    (codes "/", handle_index)
    ∷ (codes "/api/state", auth token (handle_state e sp repos))
    ∷ (codes "/api/reconcile", auth token (handle_reconcile e sp base repos))
    ∷ (codes "/api/cleanup", auth token (handle_cleanup e sp repos order))
    ∷ (codes "/api/pause", auth token handle_pause)
    ∷ (codes "/api/resume", auth token handle_resume)
    ∷ (codes "/api/stop", auth token (handle_stop e))
    ∷ []
