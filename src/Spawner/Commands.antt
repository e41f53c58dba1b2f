-- ===== src/Spawner/Commands.antt =====
-- internal/spawner/spawner.go: the labels and names of a runner, the errors of `Spawn`, and what is
-- asked of Docker and GitHub.
use autoscaler.Common.{
  Bool, List, Option, [], any, false, if◌then◌else◌, leb, none, not, pos, some, suc, ℕ, ◌&&◌, ◌++◌,
  ◌==◌, ◌||◌, ◌∷◌,
}
use autoscaler.Config.{RepoConfig}
use autoscaler.Env.{IdleRunner}
use autoscaler.Text.{
  Bytes, bytes_eq, codes, contains, decimal, elem, hex_encode, to_lower, trim_space,
}
use autoscaler.World.{Response, Spawner}

abbrev pub managed_label : Bytes
managed_label = codes "gha-autoscaler=true"

abbrev pub repo_label_key : Bytes
repo_label_key = codes "gha-autoscaler-repo"

abbrev pub auto_prefix : Bytes
auto_prefix = codes "auto-"

-- The errors of `Spawn`: `none` is the nil error.
pub data SpawnError : Type 0 where
  cap_hit : SpawnError
  paused_error : SpawnError
  count_failed : Bytes → SpawnError
  env_file_failed : Bytes → SpawnError
  docker_run_failed : Bytes → Bytes → SpawnError

-- `sanitize`: the bytes of a label that a container's name may hold.
abbrev pub is_name_byte : ℕ → Bool
is_name_byte c =
    (leb b'a' c && leb c b'z')
    || (leb b'A' c && leb c b'Z')
    || (leb b'0' c && leb c b'9')
    || (c == b'-' || c == b'_')

unfoldable pub sanitize : Bytes → Bytes
sanitize [] = []
sanitize (c ∷ s) = let rest = sanitize s in if is_name_byte c then c ∷ rest else rest

-- `signRequest`.
unfoldable pub signed_headers : Spawner → List (Bytes × Bytes)
signed_headers sp =
    (codes "Authorization", codes "Bearer " ++ sp.pat)
    ∷ (codes "Accept", codes "application/vnd.github+json")
    ∷ (codes "X-GitHub-Api-Version", codes "2022-11-28")
    ∷ []

unfoldable pub runners_url : Spawner → Bytes → Bytes
runners_url sp name =
    sp.api_base ++ (codes "/repos/" ++ (name ++ codes "/actions/runners?per_page=100"))

-- The text of the error that `hasIdleMatchingRunner` makes of a status other than 200.
abbrev pub not_ok_error : Response → Bytes
not_ok_error resp =
    codes "list runners: status "
    ++ (decimal (pos resp.status) ++ (codes ": " ++ trim_space resp.body.content))

-- A runner takes the job at once: online, not busy, with one of the labels (lower-cased).
unfoldable pub is_idle_match : (Bytes → Bytes) → List Bytes → IdleRunner → Bool
is_idle_match unicode want r =
    if r.busy || not (bytes_eq r.status (codes "online"))
    then false
    else any (λ l. elem (to_lower unicode l) want) r.labels

-- `isAuthOrPermissionError`: it chooses the level of a log line.
unfoldable pub is_auth_or_permission_error : Option Bytes → Bool
is_auth_or_permission_error none = false
is_auth_or_permission_error (some msg) =
    contains msg (codes "status 401") || contains msg (codes "status 403")

-- The lines of `docker inspect` that say `running`.
abbrev pub is_running_line : Bytes → Bool
is_running_line line = bytes_eq (trim_space line) (codes "running")

unfoldable pub count_lines : List Bytes → ℕ
count_lines [] = 0
count_lines (l ∷ ls) = let n = count_lines ls in if is_running_line l then suc n else n

unfoldable pub ps_args : Bytes → List Bytes
ps_args repo =
    codes "ps"
    ∷ codes "-a"
    ∷ codes "--filter"
    ∷ (codes "label=" ++ managed_label)
    ∷ codes "--filter"
    ∷ (codes "label=" ++ (repo_label_key ++ (codes "=" ++ repo)))
    ∷ codes "--format"
    ∷ codes "{{.ID}}"
    ∷ []

unfoldable pub inspect_args : List Bytes → List Bytes
inspect_args ids = codes "inspect" ∷ codes "--format" ∷ codes "{{.State.Status}}" ∷ ids

unfoldable pub run_args : Spawner → RepoConfig → Bytes → Bytes → List Bytes
run_args sp repo name env_file =
    codes "run"
    ∷ codes "--rm"
    ∷ codes "-d"
    ∷ codes "--name"
    ∷ name
    ∷ codes "--label"
    ∷ managed_label
    ∷ codes "--label"
    ∷ (repo_label_key ++ (codes "=" ++ repo.name))
    ∷ codes "--restart"
    ∷ codes "no"
    ∷ codes "--env-file"
    ∷ env_file
    ∷ codes "-e"
    ∷ codes "EPHEMERAL=true"
    ∷ codes "-e"
    ∷ codes "RUN_AS_ROOT=true"
    ∷ codes "-e"
    ∷ codes "DISABLE_AUTO_UPDATE=true"
    ∷ codes "-e"
    ∷ codes "RUNNER_SCOPE=repo"
    ∷ codes "-e"
    ∷ (codes "REPO_URL=" ++ repo.repo_url)
    ∷ codes "-e"
    ∷ (codes "RUNNER_NAME=" ++ name)
    ∷ codes "-e"
    ∷ (codes "LABELS=" ++ repo.runner_labels)
    ∷ codes "-v"
    ∷ codes "/var/run/docker.sock:/var/run/docker.sock"
    ∷ sp.runner_image
    ∷ []

-- The tag in a runner's name: `label`, or else the first of `match_labels`.
unfoldable pub runner_tag : RepoConfig → Bytes
runner_tag repo = elim repo.label [
  | c ∷ s ↦ c ∷ s
  | [] ↦ elim repo.match_labels [ [] ↦ [] | l ∷ ls ↦ l ]
]

abbrev pub runner_name : RepoConfig → Bytes → Bytes
runner_name repo suffix =
    auto_prefix ++ (sanitize (runner_tag repo) ++ (codes "-" ++ hex_encode suffix))
