-- ===== src/Tests/Webhook.antt =====
-- Runs of internal/webhook, and its theorems at a small configuration.
use autoscaler.Common.{[], if◌then◌else◌, inl, inr, refl, true, ◌↔◌, ◌∷◌, ◌≡◌}
use autoscaler.Config.{Config, repo_by_name}
use autoscaler.Tests.World.{backend, deps, fresh, world}
use autoscaler.Text.{Bytes, bytes_eq, codes, hex_decode, hex_value, strip_prefix, to_lower}
use autoscaler.Webhook.{WorkflowJobEvent, bad_signature, route, verify_signature}
use autoscaler.Webhook.Dispatching.{Outcome, dispatch-Outcome}
use autoscaler.Webhook.Signature.{Signs, verify_signature_iff}
use autoscaler.World.{ok}

abbrev pub cfg : Config
cfg = record {
  smee_url = codes "s";
  webhook_secret = codes "k";
  verify_hmac = true;
  github_pat = codes "ghp";
  runner_image = codes "img";
  listen = codes ":8080";
  repos = backend ∷ [];
  portal_token = [];
}

abbrev pub queued_event : WorkflowJobEvent
queued_event = record {
  action = codes "queued";
  workflow_job = record {
    status = codes "queued";
    conclusion = [];
    labels = codes "self-hosted" ∷ codes "MAC" ∷ [];
    runner_name = [];
    workflow_url = [];
  };
  repository = record { full_name = codes "a/b" };
}

abbrev body : Bytes
body = codes "{}"

-- The header of a delivery that is signed under the secret of `cfg`.
abbrev delivered : Bytes → Bytes
delivered name =
    if bytes_eq name (codes "X-Hub-Signature-256")
    then codes "sha256=6b7b7d"
    else if bytes_eq name (codes "X-Github-Event")
    then codes "workflow_job"
    else []

routed : route world cfg delivered body (λ b. ok queued_event) ≡ inl backend
unfolding route verify_signature strip_prefix hex_decode hex_value repo_by_name to_lower
routed = refl

unsigned : route world cfg (λ name. []) body (λ b. ok queued_event) ≡ inr bad_signature
unfolding route verify_signature strip_prefix
unsigned = refl

dispatch-Outcome_example : Outcome world cfg delivered body (λ b. ok queued_event) deps fresh
dispatch-Outcome_example =
    dispatch-Outcome world cfg delivered body (λ b. ok queued_event) deps fresh

verify_signature_iff_example :
    (verify_signature world body (codes "sha256=6b7b7d") (codes "k") ≡ true)
    ↔ Signs world body (codes "sha256=6b7b7d") (codes "k")
verify_signature_iff_example = verify_signature_iff world body (codes "sha256=6b7b7d") (codes "k")
