-- ===== src/Tests/Config.antt =====
-- Runs of internal/config, and its theorems at the example configuration.
use autoscaler.Common.{[], false, negsuc, none, refl, some, ◌↔◌, ◌∷◌, ◌≡◌}
use autoscaler.Config.{Config, github_pat_required, repo_needs_label, validate}
use autoscaler.Config.Valid.{Filled, validate_accepts}
use autoscaler.Tests.World.{backend}
use autoscaler.Text.{codes}

abbrev draft : Config
draft = record {
  smee_url = codes "https://smee.io/x";
  webhook_secret = [];
  verify_hmac = false;
  github_pat = codes "ghp";
  runner_image = [];
  listen = [];
  repos = record backend { match_labels = []; max_concurrency = negsuc 0 } ∷ backend ∷ [];
  portal_token = [];
}

draft_valid : (validate draft).1 ≡ none
unfolding validate
draft_valid = refl

no_token : (validate (record draft { github_pat = [] })).1 ≡ some github_pat_required
unfolding validate
no_token = refl

second_repo_unlabelled :
    (validate
      (record draft { repos = backend ∷ record backend { label = []; match_labels = [] } ∷ [] })).1
    ≡ some (repo_needs_label 1)
unfolding validate
second_repo_unlabelled = refl

validate_accepts_example : ((validate draft).1 ≡ none) ↔ Filled draft
validate_accepts_example = validate_accepts draft
