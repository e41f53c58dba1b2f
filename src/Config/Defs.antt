-- ===== src/Config/Defs.antt =====
-- internal/config/config.go. `Load` is modelled from the decoded file on: `json.Unmarshal` gives
-- the `Config` that is its argument, and the environment is a function.
use autoscaler.Common.{
  Bool, List, Option, [], false, if◌then◌else◌, inl, inr, leb_ℤ, none, not, pos, some, suc, true, ℕ,
  ℤ, ◌%◌, ◌&&◌, ◌==◌, ◌||◌, ◌∷◌, ◌⊎◌,
}
use autoscaler.Text.{Bytes, bytes_eq, codes, is_empty}
use autoscaler.World.{Fallible, err, ok}

pub record RepoConfig : Type 0 where
  pub name : Bytes
  pub repo_url : Bytes
  pub match_labels : List Bytes
  pub label : Bytes
  pub runner_labels : Bytes
  pub max_concurrency : ℤ

pub record Config : Type 0 where
  pub smee_url : Bytes
  pub webhook_secret : Bytes
  pub verify_hmac : Bool
  pub github_pat : Bytes
  pub runner_image : Bytes
  pub listen : Bytes
  pub repos : List RepoConfig
  pub portal_token : Bytes

-- `repo_missing_field` and `repo_needs_label` carry the index that the message prints.
pub data ConfigError : Type 0 where
  read_failed : Bytes → ConfigError
  parse_failed : Bytes → ConfigError
  smee_url_required : ConfigError
  webhook_secret_required : ConfigError
  github_pat_required : ConfigError
  no_repos : ConfigError
  repo_missing_field : ℕ → ConfigError
  repo_needs_label : ℕ → ConfigError

-- `if len(r.MatchLabels) == 0 { c.Repos[i].MatchLabels = []string{r.Label} }`
abbrev default_labels : List Bytes → Bytes → List Bytes
default_labels [] label = label ∷ []
default_labels (l ∷ ls) label = l ∷ ls

-- What one round of the loop of `Validate` writes into `c.Repos[i]`.
unfoldable pub with_defaults : RepoConfig → RepoConfig
with_defaults r = record r {
  match_labels = default_labels r.match_labels r.label;
  max_concurrency = if leb_ℤ r.max_concurrency (pos 0) then pos 4 else r.max_concurrency;
}

abbrev no_labels : List Bytes → Bool
no_labels [] = true
no_labels (l ∷ ls) = false

-- The tests of one round: `none` when the round goes on.
unfoldable pub check_repo : ℕ → RepoConfig → Option ConfigError
check_repo i r =
    if is_empty r.name || is_empty r.repo_url || is_empty r.runner_labels
    then some (repo_missing_field i)
    else if no_labels r.match_labels && is_empty r.label
    then some (repo_needs_label i)
    else none

-- The loop of `Validate` from index i on: the repositories as it leaves them, and its error. The
-- rounds before an error have written their defaults.
unfoldable pub validate_repos : ℕ → List RepoConfig → List RepoConfig × Option ConfigError
unfolding check_repo with_defaults
validate_repos i [] = ([], none)
validate_repos i (r ∷ rs) =
    let rest = validate_repos (suc i) rs in
    elim (check_repo i r) [ some x ↦ (r ∷ rs, some x) | none ↦ (with_defaults r ∷ rest.0, rest.1) ]

unfoldable pub validate : Config → Config × Option ConfigError
unfolding validate_repos
validate c =
    if is_empty c.smee_url
    then (c, some smee_url_required)
    else if c.verify_hmac && is_empty c.webhook_secret
    then (c, some webhook_secret_required)
    else if is_empty c.github_pat
    then (c, some github_pat_required)
    else elim c.repos [
      | [] ↦ (c, some no_repos)
      | r ∷ rs ↦ let v = validate_repos 0 (r ∷ rs) in (record c { repos = v.0 }, v.1)
    ]

-- `if field == "" { if v := os.Getenv(key); v != "" { field = v } }`
abbrev or_env : Bytes → Bytes → Bytes
or_env field v = if is_empty field then v else field

unfoldable pub apply_env : (Bytes → Bytes) → Config → Config
apply_env getenv c = record c {
  smee_url = or_env c.smee_url (getenv (codes "SMEE_URL"));
  webhook_secret = or_env c.webhook_secret (getenv (codes "WEBHOOK_SECRET"));
  github_pat = or_env c.github_pat (getenv (codes "GH_PAT"));
  portal_token = or_env c.portal_token (getenv (codes "PORTAL_TOKEN"));
  listen = or_env c.listen (codes ":8080");
  runner_image = or_env c.runner_image (codes "myoung34/github-runner:latest");
}

-- `Load` after `os.ReadFile` and `json.Unmarshal`, whose results are the arguments.
unfoldable pub load :
    (Bytes → Bytes) → Fallible Bytes → (Bytes → Fallible Config) → Config ⊎ ConfigError
unfolding apply_env validate
load getenv file unmarshal = elim file [
  | err x ↦ inr (read_failed x)
  | ok b ↦ elim (unmarshal b) [
    | err x ↦ inr (parse_failed x)
    | ok c ↦ let v = validate (apply_env getenv c) in elim v.1 [ some x ↦ inr x | none ↦ inl v.0 ]
  ]
]

-- `RepoByName`: the first repository of that name.
unfoldable pub repo_by_name : List RepoConfig → Bytes → Option RepoConfig
repo_by_name [] name = none
repo_by_name (r ∷ rs) name = if bytes_eq r.name name then some r else repo_by_name rs name

-- `warnIfWorldReadable`: whether it warns, from `os.Stat`'s mode. `mode & 0o077` is the six low
-- bits of the permissions.
unfoldable pub warns_if_world_readable : Option ℕ → Bool
warns_if_world_readable none = false
warns_if_world_readable (some mode) = not (mode % 512 % 64 == 0)
