-- ===== src/Webhook/Dispatching.antt =====
-- When `Dispatch` spawns: the conditions of the handler as one description.
use autoscaler.Common.{
  Bool, Bool-cases, List, [], any, arith, inl, inr, map, refl, some, sym, true, ◌↔◌, ◌∷◌, ◌≡◌, ◌⊎◌,
}
use autoscaler.Config.{Config, RepoConfig, repo_by_name}
use autoscaler.Env.{Env}
use autoscaler.Spawner.{spawn}
use autoscaler.Text.{Bytes, bytes_eq, codes, elem, to_lower}
use autoscaler.Text.Equality.{bytes_eq_iff, bytes_eq_refl, eq_of_bytes_eq}
use autoscaler.Webhook.{DispatchError, WorkflowJobEvent, dispatch, label_matches, route, spawned}
use autoscaler.Webhook.Signature.{Signs, verify_signature_iff}
use autoscaler.World.{Fallible, Fallible-cases, Machine, Spawner, ok}

-- Two labels are the same up to case.
abbrev pub SameLabel : (Bytes → Bytes) → Bytes → Bytes → Type 0
SameLabel unicode a b = to_lower unicode a ≡ to_lower unicode b

-- Some job label is a configured label up to case.
pub record Matches (unicode : Bytes → Bytes) (job_labels want : List Bytes) : Type 0 where
  pub asked : Bytes
  pub configured : Bytes
  pub asked_mem : elem asked job_labels ≡ true
  pub configured_mem : elem configured want ≡ true
  pub same : SameLabel unicode asked configured

elem-map :
    (f : Bytes → Bytes) (x : Bytes) (ys : List Bytes)
    → elem x (map f ys) ≡ true
    → (y : Bytes) × (elem y ys ≡ true) × (f y ≡ x)
elem-map f x [] h = cc
elem-map f x (y ∷ ys) h = elim (Bool-cases (bytes_eq (f y) x)) [
  | inl same ↦ (y, ground (arith, bytes_eq_refl y), eq_of_bytes_eq (f y) x same)
  | inr differs ↦ let (z, found, same) = elem-map f x ys (ground arith) in (z, ground arith, same)
]

elem-map_of_elem :
    (f : Bytes → Bytes) (y : Bytes) (ys : List Bytes)
    → elem y ys ≡ true
    → elem (f y) (map f ys) ≡ true
elem-map_of_elem f y [] h = cc
elem-map_of_elem f y (z ∷ ys) h = elim (Bool-cases (bytes_eq z y)) [
  | inl same ↦
      let both : z ≡ y = eq_of_bytes_eq z y same in rw both (ground (arith, bytes_eq_refl (f y)))
  | inr differs ↦ ground (arith, elem-map_of_elem f y ys)
]

any_of_elem :
    (p : Bytes → Bool) (x : Bytes) (ls : List Bytes)
    → elem x ls ≡ true
    → p x ≡ true
    → any p ls ≡ true
any_of_elem p x [] h hp = cc
any_of_elem p x (l ∷ ls) h hp = elim (Bool-cases (bytes_eq l x)) [
  | inl same ↦ let both : l ≡ x = eq_of_bytes_eq l x same in rw (both, hp)
  | inr differs ↦ ground (arith, any_of_elem p x ls)
]

module _ (unicode : Bytes → Bytes) (want : List Bytes) where
  Matches-of_test :
      (ls : List Bytes) → label_matches unicode ls want ≡ true → Matches unicode ls want
  unfolding label_matches
  Matches-of_test [] h = cc
  Matches-of_test (l ∷ ls) h =
      elim (Bool-cases (elem (to_lower unicode l) (map (to_lower unicode) want))) [
        | inl hit ↦
            let (w, found, same) = elem-map (to_lower unicode) (to_lower unicode l) want hit in
            record {
              asked = l;
              configured = w;
              asked_mem = ground (arith, bytes_eq_refl l);
              configured_mem = found;
              same = sym same;
            }
        | inr miss ↦
            let rest : Matches unicode ls want = Matches-of_test ls (ground arith) in
            record {
              asked = rest.asked;
              configured = rest.configured;
              asked_mem = ground (arith, rest.asked_mem);
              configured_mem = rest.configured_mem;
              same = rest.same;
            }
      ]

  test_of_Matches :
      (ls : List Bytes) → Matches unicode ls want → label_matches unicode ls want ≡ true
  unfolding label_matches
  test_of_Matches ls m =
      any_of_elem (λ l. elem (to_lower unicode l) (map (to_lower unicode) want)) m.asked ls
        m.asked_mem
        (rw m.same (elem-map_of_elem (to_lower unicode) m.configured want m.configured_mem))

  -- `labelMatches` holds exactly if a label of the job is, up to case, a configured label.
  pub label_matches_iff :
      (ls : List Bytes) → (label_matches unicode ls want ≡ true) ↔ Matches unicode ls want
  label_matches_iff ls = (Matches-of_test ls, test_of_Matches ls)

-- The event asks for a runner of the repository: it is signed if signatures are verified, it is a
-- `workflow_job` event of action `queued`, and a label of its job matches the repository of its name.
pub record Accepts (e : Env) (cfg : Config) (headers : Bytes → Bytes) (body : Bytes)
    (unmarshal : Bytes → Fallible WorkflowJobEvent) (repo : RepoConfig) : Type 0 where
  pub signed :
      cfg.verify_hmac ≡ true
      → Signs e body (headers (codes "X-Hub-Signature-256")) cfg.webhook_secret
  pub kind : headers (codes "X-Github-Event") ≡ codes "workflow_job"
  pub evt : WorkflowJobEvent
  pub parsed : unmarshal body ≡ ok evt
  pub queued_action : evt.action ≡ codes "queued"
  pub found : repo_by_name cfg.repos evt.repository.full_name ≡ some repo
  pub matching : Matches e.unicode_lower evt.workflow_job.labels repo.match_labels

module _ (e : Env) (cfg : Config) (headers : Bytes → Bytes) (body : Bytes)
    (unmarshal : Bytes → Fallible WorkflowJobEvent) where
  abbrev signature : Bytes
  signature = headers (codes "X-Hub-Signature-256")

  abbrev event : Bytes
  event = headers (codes "X-Github-Event")

  route-Accepts :
      (repo : RepoConfig)
      → route e cfg headers body unmarshal ≡ inl repo
      → Accepts e cfg headers body unmarshal repo
  unfolding route
  route-Accepts repo h = elim (Fallible-cases (unmarshal body)) [
    | inl (evt, parsed) ↦ record {
      signed = λ v. (verify_signature_iff e body signature cfg.webhook_secret).0 (ground arith);
      kind = eq_of_bytes_eq event (codes "workflow_job") (ground arith);
      evt = evt;
      parsed = parsed;
      queued_action = eq_of_bytes_eq evt.action (codes "queued") (ground arith);
      found = ground arith;
      matching =
          (label_matches_iff e.unicode_lower repo.match_labels evt.workflow_job.labels).0
            (ground arith);
    }
    | inr (x, failed) ↦ ground arith
  ]

  Accepts-route :
      (repo : RepoConfig)
      → Accepts e cfg headers body unmarshal repo
      → route e cfg headers body unmarshal ≡ inl repo
  unfolding route
  Accepts-route repo a = ground (
    arith,
    λ (v : cfg.verify_hmac ≡ true).
        (verify_signature_iff e body signature cfg.webhook_secret).1 (a.signed v),
    (bytes_eq_iff event (codes "workflow_job")).1 a.kind,
    a.parsed,
    (bytes_eq_iff a.evt.action (codes "queued")).1 a.queued_action,
    a.found,
    (label_matches_iff e.unicode_lower repo.match_labels a.evt.workflow_job.labels).1 a.matching,
  )

  dispatch_accepted :
      (sp : Spawner) (m : Machine) (repo : RepoConfig)
      → route e cfg headers body unmarshal ≡ inl repo
      → dispatch e sp cfg headers body unmarshal m
        ≡ (spawned (spawn e sp repo m).0, (spawn e sp repo m).1)
  unfolding dispatch
  dispatch_accepted sp m repo h = ground arith

  dispatch_refused :
      (sp : Spawner) (m : Machine) (x : DispatchError)
      → route e cfg headers body unmarshal ≡ inr x
      → dispatch e sp cfg headers body unmarshal m ≡ (some x, m)
  unfolding dispatch
  dispatch_refused sp m x h = ground arith

  -- What one call of `Dispatch` does: it spawns for the repository that the event asks for, or it
  -- changes nothing and returns an error.
  pub data Outcome (sp : Spawner) (m : Machine) : Type 0 where
    spawns :
        (repo : RepoConfig)
        → Accepts e cfg headers body unmarshal repo
        → dispatch e sp cfg headers body unmarshal m
          ≡ (spawned (spawn e sp repo m).0, (spawn e sp repo m).1)
        → Outcome sp m
    refuses :
        (x : DispatchError)
        → ((repo : RepoConfig) → ¬ Accepts e cfg headers body unmarshal repo)
        → dispatch e sp cfg headers body unmarshal m ≡ (some x, m)
        → Outcome sp m

  -- `Dispatch` calls `Spawn`, once and for that repository, exactly if the event asks for a runner of
  -- a configured repository. Otherwise it returns an error, and makes no call and counts nothing.
  pub dispatch-Outcome : (sp : Spawner) (m : Machine) → Outcome sp m
  dispatch-Outcome sp m = go (route e cfg headers body unmarshal) refl
    where
      go : (r : RepoConfig ⊎ DispatchError) → route e cfg headers body unmarshal ≡ r → Outcome sp m
      go (inl repo) h = spawns repo (route-Accepts repo h) (dispatch_accepted sp m repo h)
      go (inr x) h = refuses x (λ repo a. cc (h, Accepts-route repo a)) (dispatch_refused sp m x h)
