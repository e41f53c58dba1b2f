-- ===== src/Reconciler/Defs.antt =====
-- internal/reconciler/reconciler.go. `base` is the result of `apiBaseFor`. The repositories of one
-- tick are reconciled by goroutines of their own; here one after the other, in an order that is an
-- argument. `Run` takes what the rest of the process does before each tick of its ticker.
use autoscaler.Common.{
  Bool, List, Option, [], any, false, if◌then◌else◌, leb_ℤ, ltb_ℤ, map, none, not, pos, pos_part,
  some, suc, true, zero, ℕ, ℤ, ◌&&◌, ◌++◌, ◌-ℤ◌, ◌==◌, ◌∷◌,
}
use autoscaler.Config.{RepoConfig}
use autoscaler.Env.{Env, QueuedJob, send}
use autoscaler.Spawner.{count_running_or_zero, inc_reconcile, signed_headers, spawn}
use autoscaler.Text.{Bytes, bytes_eq, codes, decimal, elem, is_empty, to_lower, trim_space}
use autoscaler.World.{Body, Fallible, M, Response, Spawner, err, get, ok, pure, ◌>>=◌, ◌>>◌}

-- `apiGET`: the body of an answer with status 200.
abbrev status_error : Response → Bytes
status_error resp =
    codes "status " ++ (decimal (pos resp.status) ++ (codes ": " ++ trim_space resp.body.content))

-- A label of the job is wanted, up to case. `want` is the set of the lower-cased match labels.
abbrev pub is_wanted : (Bytes → Bytes) → List Bytes → QueuedJob → Bool
is_wanted unicode want j = any (λ l. elem (to_lower unicode l) want) j.labels

abbrev pub is_queued_job : QueuedJob → Bool
is_queued_job j = bytes_eq j.status (codes "queued")

-- The loop over the jobs of one run: the matches so far, and whether the count is reached.
unfoldable pub count_jobs : (QueuedJob → Bool) → ℤ → List QueuedJob → ℕ → ℕ × Bool
count_jobs wanted cap [] matched = (matched, false)
count_jobs wanted cap (j ∷ js) matched =
    let now_matched = if wanted j then suc matched else matched in
    let skip = count_jobs wanted cap js matched in
    let go_on = count_jobs wanted cap js now_matched in
    if is_queued_job j
    then (if leb_ℤ cap (pos now_matched) then (now_matched, true) else go_on)
    else skip

-- `toSpawn`, where the capacity is positive.
abbrev pub to_spawn : ℕ → ℤ → ℕ
to_spawn matched available = if ltb_ℤ available (pos matched) then pos_part available else matched

module _ (e : Env) (sp : Spawner) (base : Bytes) where
  unfoldable pub api_get : Bytes → M (Fallible Body)
  unfolding signed_headers
  api_get url = elim (e.url_error url) [
    | some x ↦ pure (err x)
    | none ↦ do
      a ← send e (record { method = get; url = url; headers = signed_headers sp })
      elim a [
        | err x ↦ pure (err x)
        | ok resp ↦ elim (resp.status == 200) [
          | true ↦ pure (ok resp.body)
          | false ↦ pure (err (status_error resp))
        ]
      ]
  ]

  unfoldable pub list_run_ids_by_status : RepoConfig → Bytes → M (Fallible (List ℤ))
  list_run_ids_by_status repo status = do
    body ← api_get (
        base
        ++ (codes "/repos/"
            ++ (repo.name ++ (codes "/actions/runs?status=" ++ (status ++ codes "&per_page=100")))))
    elim body [
      | err x ↦ pure (err x)
      | ok b ↦ elim (e.run_page b).1 [
        | some x ↦ pure (err (codes "decode runs: " ++ x))
        | none ↦ pure (ok (e.run_page b).0)
      ]
    ]

  unfoldable pub list_queued_run_ids : RepoConfig → M (Fallible (List ℤ))
  list_queued_run_ids repo = do
    queued_runs ← list_run_ids_by_status repo (codes "queued")
    elim queued_runs [
      | err x ↦ pure (err x)
      | ok ids ↦ do
        in_progress ← list_run_ids_by_status repo (codes "in_progress")
        elim in_progress [ err x ↦ pure (err x) | ok more ↦ pure (ok (ids ++ more)) ]
    ]

  unfoldable pub list_run_jobs : RepoConfig → ℤ → M (Fallible (List QueuedJob))
  list_run_jobs repo id = do
    body ← api_get (
        base
        ++ (codes "/repos/"
            ++ (repo.name
                ++ (codes "/actions/runs/" ++ (decimal id ++ codes "/jobs?per_page=100")))))
    elim body [
      | err x ↦ pure (err x)
      | ok b ↦ elim (e.queued_page b).1 [
        | some x ↦ pure (err (codes "decode jobs: " ++ x))
        | none ↦ pure (ok (e.queued_page b).0)
      ]
    ]

  -- The loop over the runs: a run whose jobs cannot be listed is passed over.
  unfoldable pub count_runs : RepoConfig → (QueuedJob → Bool) → ℤ → List ℤ → ℕ → M ℕ
  count_runs repo wanted cap [] matched = pure matched
  count_runs repo wanted cap (id ∷ ids) matched = do
    jobs ← list_run_jobs repo id
    elim jobs [
      | err x ↦ count_runs repo wanted cap ids matched
      | ok js ↦ elim (count_jobs wanted cap js matched).1 [
        | true ↦ pure (count_jobs wanted cap js matched).0
        | false ↦ count_runs repo wanted cap ids (count_jobs wanted cap js matched).0
      ]
    ]

  unfoldable pub count_queued_matching_jobs : RepoConfig → ℤ → M (Fallible ℕ)
  count_queued_matching_jobs repo cap = do
    runs ← list_queued_run_ids repo
    elim runs [
      | err x ↦ pure (err x)
      | ok ids ↦ do
        n ←
            count_runs repo
              (is_wanted e.unicode_lower (map (to_lower e.unicode_lower) repo.match_labels)) cap ids
              0
        pure (ok n)
    ]

  -- The loop that spawns: it stops at the first error.
  unfoldable pub spawn_times : RepoConfig → ℕ → M (Unit {0})
  spawn_times repo zero = pure tt
  spawn_times repo (suc n) = do
    r ← spawn e sp repo
    elim r [ some x ↦ pure tt | none ↦ do inc_reconcile; spawn_times repo n ]

  unfoldable pub reconcile_repo : RepoConfig → M (Option Bytes)
  reconcile_repo repo = do
    running ← count_running_or_zero e sp repo.name
    elim (leb_ℤ (repo.max_concurrency -ℤ pos running) (pos 0)) [
      | true ↦ pure none
      | false ↦ do
        counted ← count_queued_matching_jobs repo (repo.max_concurrency -ℤ pos running)
        elim counted [
          | err x ↦ pure (some x)
          | ok matched ↦ elim (matched == 0) [
            | true ↦ pure none
            | false ↦ do
              spawn_times repo (to_spawn matched (repo.max_concurrency -ℤ pos running))
              pure none
          ]
        ]
    ]

  -- `tickFiltered`; an error of one repository is logged only.
  unfoldable pub tick_filtered : Bytes → List RepoConfig → M (Unit {0})
  tick_filtered filter [] = pure tt
  tick_filtered filter (repo ∷ repos) =
      elim (not (is_empty filter) && not (bytes_eq repo.name filter)) [
        | true ↦ tick_filtered filter repos
        | false ↦ do reconcile_repo repo; tick_filtered filter repos
      ]

  abbrev pub reconciler_tick : List RepoConfig → M (Unit {0})
  reconciler_tick repos = tick_filtered [] repos

  -- `TriggerOnce`.
  abbrev pub trigger_once : Bytes → List RepoConfig → M (Unit {0})
  trigger_once filter repos = tick_filtered filter repos

  -- The loop of `Run`, until the context is done.
  unfoldable pub reconciler_ticks : List RepoConfig → List (M (Unit {0})) → M (Unit {0})
  reconciler_ticks repos [] = pure tt
  reconciler_ticks repos (meanwhile ∷ more) = do
    meanwhile
    reconciler_tick repos
    reconciler_ticks repos more

  unfoldable pub reconciler_run : List RepoConfig → List (M (Unit {0})) → M (Unit {0})
  reconciler_run repos waits = do reconciler_tick repos; reconciler_ticks repos waits

-- The interval that `New` keeps, in nanoseconds.
abbrev pub reconciler_interval : ℤ → ℤ
reconciler_interval interval = if leb_ℤ interval (pos 0) then pos 30000000000 else interval
