-- ===== src/Config/Valid.antt =====
-- What `Validate` and `Load` promise of the configuration that they accept.
use autoscaler.Common.{
  All, List, [], arith, none, pos, refl, suc, true, ℕ, ◌↔◌, ◌∷◌, ◌≡◌, ◌≢◌, ◌≤ℤ◌, ◌⊎◌,
}
use autoscaler.Config.{Config, RepoConfig, check_repo, validate, validate_repos, with_defaults}

-- A repository that the rest of the program can use.
pub record RepoReady (r : RepoConfig) : Type 0 where
  pub named : r.name ≢ []
  pub located : r.repo_url ≢ []
  pub labelled : r.runner_labels ≢ []
  pub matched : r.match_labels ≢ []
  pub capped : pos 1 ≤ℤ r.max_concurrency

-- A configuration that the rest of the program can use.
pub record Ready (c : Config) : Type 0 where
  pub relayed : c.smee_url ≢ []
  pub secured : c.verify_hmac ≡ true → c.webhook_secret ≢ []
  pub authorized : c.github_pat ≢ []
  pub managed : c.repos ≢ []
  pub all_ready : All RepoReady c.repos

with_defaults-RepoReady :
    (i : ℕ) (r : RepoConfig) → check_repo i r ≡ none → RepoReady (with_defaults r)
unfolding check_repo with_defaults
with_defaults-RepoReady i r h = ground arith

with_defaults_id : (r : RepoConfig) → RepoReady r → with_defaults r ≡ r
unfolding with_defaults
with_defaults_id r h = ground arith

check_repo-none : (i : ℕ) (r : RepoConfig) → RepoReady r → check_repo i r ≡ none
unfolding check_repo
check_repo-none i r h = ground arith

validate_repos-RepoReady :
    (i : ℕ) (rs : List RepoConfig)
    → (validate_repos i rs).1 ≡ none
    → All RepoReady (validate_repos i rs).0
unfolding validate_repos
validate_repos-RepoReady i [] h = tt
validate_repos-RepoReady i (r ∷ rs) h =
    ground (arith, with_defaults-RepoReady i r, validate_repos-RepoReady (suc i) rs)

validate_repos_id :
    (i : ℕ) (rs : List RepoConfig) → All RepoReady rs → validate_repos i rs ≡ (rs, none)
unfolding validate_repos
validate_repos_id i [] h = refl
validate_repos_id i (r ∷ rs) (h, hs) =
    ground (arith, check_repo-none i r h, with_defaults_id r h, validate_repos_id (suc i) rs hs)

validate_repos_cons :
    (i : ℕ) (r : RepoConfig) (rs : List RepoConfig)
    → (validate_repos i (r ∷ rs)).1 ≡ none
    → (validate_repos i (r ∷ rs)).0 ≢ []
unfolding validate_repos
validate_repos_cons i r rs h e = ground arith

accepted :
    (c : Config) (rs : List RepoConfig)
    → c.repos ≡ rs
    → (validate c).1 ≡ none
    → Ready (validate c).0
unfolding validate
accepted c [] e h = ground (arith, e)
accepted c (r ∷ rs) e h =
    ground (arith, e, validate_repos_cons 0 r rs, validate_repos-RepoReady 0 (r ∷ rs))

-- A configuration that `Validate` accepts is ready: the relay's URL, the token and at least one
-- repository are there, and the secret if signatures are verified; and each repository, as
-- `Validate` leaves it, has a name, a URL, runner labels, a label to match and a cap of at least 1.
pub validate-Ready : (c : Config) → (validate c).1 ≡ none → Ready (validate c).0
validate-Ready c h = accepted c c.repos refl h

-- `Validate` accepts what is ready, and leaves it as it is.
pub validate_id : (c : Config) → Ready c → validate c ≡ (c, none)
unfolding validate
validate_id c h = ground (arith, validate_repos_id 0 c.repos h.all_ready)

-- Validating again changes nothing.
pub validate_idem :
    (c : Config) → (validate c).1 ≡ none → validate (validate c).0 ≡ ((validate c).0, none)
validate_idem c h = validate_id (validate c).0 (validate-Ready c h)

-- What the file must hold for a repository, before the defaults.
pub record RepoFilled (r : RepoConfig) : Type 0 where
  pub named : r.name ≢ []
  pub located : r.repo_url ≢ []
  pub labelled : r.runner_labels ≢ []
  pub matched : (r.match_labels ≢ []) ⊎ (r.label ≢ [])

-- What the file and the environment must hold, before the defaults.
pub record Filled (c : Config) : Type 0 where
  pub relayed : c.smee_url ≢ []
  pub secured : c.verify_hmac ≡ true → c.webhook_secret ≢ []
  pub authorized : c.github_pat ≢ []
  pub managed : c.repos ≢ []
  pub all_filled : All RepoFilled c.repos

check_repo-RepoFilled : (i : ℕ) (r : RepoConfig) → RepoFilled r → check_repo i r ≡ none
unfolding check_repo
check_repo-RepoFilled i r h = ground arith

RepoFilled-of_check : (i : ℕ) (r : RepoConfig) → check_repo i r ≡ none → RepoFilled r
unfolding check_repo
RepoFilled-of_check i r h = record {
  named = ground arith;
  located = ground arith;
  labelled = ground arith;
  matched = ground arith;
}

validate_repos-RepoFilled :
    (i : ℕ) (rs : List RepoConfig) → All RepoFilled rs → (validate_repos i rs).1 ≡ none
unfolding validate_repos
validate_repos-RepoFilled i [] h = refl
validate_repos-RepoFilled i (r ∷ rs) (h, hs) =
    ground (arith, check_repo-RepoFilled i r h, validate_repos-RepoFilled (suc i) rs hs)

RepoFilled-of_validate_repos :
    (i : ℕ) (rs : List RepoConfig) → (validate_repos i rs).1 ≡ none → All RepoFilled rs
unfolding validate_repos
RepoFilled-of_validate_repos i [] h = tt
RepoFilled-of_validate_repos i (r ∷ rs) h =
    let checked : check_repo i r ≡ none = ground arith in
    (RepoFilled-of_check i r checked, RepoFilled-of_validate_repos (suc i) rs (ground arith))

Filled-of_accepted :
    (c : Config) (rs : List RepoConfig) → c.repos ≡ rs → (validate c).1 ≡ none → Filled c
unfolding validate
Filled-of_accepted c [] e h = ground (arith, e)
Filled-of_accepted c (r ∷ rs) e h = record {
  relayed = ground (arith, e);
  secured = ground (arith, e);
  authorized = ground (arith, e);
  managed = ground (arith, e);
  all_filled = rw e (RepoFilled-of_validate_repos 0 (r ∷ rs) (ground (arith, e)));
}

accepted_of_Filled :
    (c : Config) (rs : List RepoConfig) → c.repos ≡ rs → Filled c → (validate c).1 ≡ none
unfolding validate
accepted_of_Filled c [] e h = ground (arith, e, h.managed)
accepted_of_Filled c (r ∷ rs) e h =
    let fine = validate_repos-RepoFilled 0 (r ∷ rs) (rw e at h.all_filled) in
    ground (arith, e, fine)

-- `Validate` accepts exactly the configurations that hold a relay URL, a token, at least one
-- repository, a secret if signatures are verified, and for each repository a name, a URL, runner
-- labels and `match_labels` or `label`: the cap may be any integer.
pub validate_accepts : (c : Config) → ((validate c).1 ≡ none) ↔ Filled c
validate_accepts c = (Filled-of_accepted c c.repos refl, accepted_of_Filled c c.repos refl)
