-- ===== src/Cleanup/Defs.antt =====
-- internal/cleanup/cleanup.go: the pass over the runners of one repository.
use autoscaler.Common.{
  Bool, List, [], any, false, if◌then◌else◌, leb, leb_ℤ, length, ltb, ltb_ℤ, map, none, not, pos,
  some, suc, true, ℕ, ℤ, ◌&&◌, ◌++◌, ◌==◌, ◌||◌, ◌∷◌,
}
use autoscaler.Config.{RepoConfig}
use autoscaler.Env.{Env, ListedRunner, RunningJob, send}
use autoscaler.Spawner.{auto_prefix, signed_headers}
use autoscaler.Text.{Bytes, bytes_eq, codes, decimal, elem, has_prefix, trim_space}
use autoscaler.World.{
  Body, CleanerState, Fallible, M, Response, Spawner, delete, err, get, increment, ok, post, pure,
  ◌>>=◌, ◌>>◌,
}

-- `SetLocalGrace`: a grace below 30 seconds is rejected.
abbrev pub thirty_seconds : ℤ
thirty_seconds = pos 30000000000

abbrev pub default_local_grace : ℤ
default_local_grace = pos 300000000000

abbrev pub update_cleaner : (CleanerState → CleanerState) → M (Unit {0})
update_cleaner f m = (tt, record m { cleaner = f m.cleaner })

unfoldable pub set_local_grace : ℤ → M (Unit {0})
set_local_grace d =
    if ltb_ℤ d thirty_seconds then pure tt else update_cleaner (λ c. record c { local_grace = d })

pub record RepoResult : Type 0 where
  pub found : ℕ
  pub cancelled : ℕ
  pub deleted : ℕ
  pub still_stuck : ℕ

abbrev pub no_result : RepoResult
no_result = record { found = 0; cancelled = 0; deleted = 0; still_stuck = 0 }

pub record GhostRunner : Type 0 where
  pub id : ℤ
  pub name : Bytes
  pub busy : Bool

abbrev pub is_ghost : ListedRunner → Bool
is_ghost r = has_prefix r.name auto_prefix && not (bytes_eq r.status (codes "online"))

abbrev pub ghost_of : ListedRunner → GhostRunner
ghost_of r = record { id = r.id; name = r.name; busy = r.busy }

-- The loop of `listGhostRunners`.
unfoldable pub ghosts_of : List ListedRunner → List GhostRunner
ghosts_of [] = []
ghosts_of (r ∷ rs) = let rest = ghosts_of rs in if is_ghost r then ghost_of r ∷ rest else rest

-- Whether a run has a job in progress on a runner of these names.
abbrev pub is_stuck_job : List Bytes → RunningJob → Bool
is_stuck_job names j = bytes_eq j.status (codes "in_progress") && elem j.runner_name names

abbrev pub same_id : ℤ → ℤ → Bool
same_id a b = leb_ℤ a b && leb_ℤ b a

abbrev pub has_id : ℤ → List ℤ → Bool
has_id a [] = false
has_id a (b ∷ bs) = same_id b a || has_id a bs

-- `stuckRuns[run.ID] = struct{}{}`.
abbrev pub insert_id : ℤ → List ℤ → List ℤ
insert_id a ids = if has_id a ids then ids else a ∷ ids

abbrev get_error : Bytes → Response → Bytes
get_error url resp =
    codes "GET "
    ++ (url
        ++ (codes ": "
            ++ (decimal (pos resp.status) ++ (codes " " ++ trim_space resp.body.content))))

module _ (e : Env) (sp : Spawner) where
  abbrev pub repo_url_of : RepoConfig → Bytes → Bytes
  repo_url_of repo rest = sp.api_base ++ (codes "/repos/" ++ (repo.name ++ rest))

  unfoldable pub cleaner_get : Bytes → M (Fallible Body)
  unfolding signed_headers
  cleaner_get url = elim (e.url_error url) [
    | some x ↦ pure (err x)
    | none ↦ do
      a ← send e (record { method = get; url = url; headers = signed_headers sp })
      elim a [
        | err x ↦ pure (err x)
        | ok resp ↦ elim (resp.status == 200) [
          | true ↦ pure (ok resp.body)
          | false ↦ pure (err (get_error url resp))
        ]
      ]
  ]

  unfoldable pub list_ghost_runners : RepoConfig → M (Fallible (List GhostRunner))
  list_ghost_runners repo = do
    body ← cleaner_get (repo_url_of repo (codes "/actions/runners?per_page=100"))
    elim body [
      | err x ↦ pure (err x)
      | ok b ↦ elim (e.runner_page b).1 [
        | some x ↦ pure (err x)
        | none ↦ pure (ok (ghosts_of (e.runner_page b).0))
      ]
    ]

  -- The loop over the runs in progress. A decoding error is dropped: what was decoded counts.
  unfoldable pub stuck_runs : RepoConfig → List Bytes → List ℤ → List ℤ → M (List ℤ)
  stuck_runs repo names [] stuck = pure stuck
  stuck_runs repo names (id ∷ ids) stuck = do
    body ←
        cleaner_get
          (repo_url_of repo (codes "/actions/runs/" ++ (decimal id ++ codes "/jobs?per_page=100")))
    elim body [
      | err x ↦ stuck_runs repo names ids stuck
      | ok b ↦
          stuck_runs repo names ids
            (if any (is_stuck_job names) (e.running_page b).0 then insert_id id stuck else stuck)
    ]

  unfoldable pub run_ids_for_ghosts : RepoConfig → List GhostRunner → M (Fallible (List ℤ))
  run_ids_for_ghosts repo ghosts = do
    body ← cleaner_get (repo_url_of repo (codes "/actions/runs?status=in_progress&per_page=100"))
    elim body [
      | err x ↦ pure (err x)
      | ok b ↦ elim (e.run_page b).1 [
        | some x ↦ pure (err x)
        | none ↦ do
          stuck ← stuck_runs repo (map (λ g. g.name) ghosts) (e.run_page b).0 []
          λ m. (ok (e.map_order m.trace stuck), m)
      ]
    ]

  -- `http.NewRequestWithContext`'s error is dropped by the source: its URL has the form of one that
  -- was requested before.
  unfoldable pub force_cancel_run : RepoConfig → ℤ → M Bool
  unfolding signed_headers
  force_cancel_run repo id = do
    a ← send e (record {
      method = post;
      url = repo_url_of repo (codes "/actions/runs/" ++ (decimal id ++ codes "/force-cancel"));
      headers = signed_headers sp;
    })
    elim a [ err x ↦ pure false | ok resp ↦ pure (leb 200 resp.status && ltb resp.status 300) ]

  abbrev pub runner_url : RepoConfig → ℤ → Bytes
  runner_url repo id = repo_url_of repo (codes "/actions/runners/" ++ decimal id)

  unfoldable pub delete_runner : RepoConfig → ℤ → M Bool
  unfolding signed_headers
  delete_runner repo id = do
    a ← send e (record { method = delete; url = runner_url repo id; headers = signed_headers sp })
    elim a [ err x ↦ pure false | ok resp ↦ pure (resp.status == 204) ]

  -- The loop that cancels: how many runs were cancelled.
  unfoldable pub cancel_runs : RepoConfig → List ℤ → M ℕ
  cancel_runs repo [] = pure 0
  cancel_runs repo (id ∷ ids) = do
    done ← force_cancel_run repo id
    elim done [
      | true ↦ do
        update_cleaner (λ c. record c { runs_cancelled = increment c.runs_cancelled })
        n ← cancel_runs repo ids
        pure (suc n)
      | false ↦ cancel_runs repo ids
    ]

  -- The loop that deletes: how many runners were deleted, and how many are still there.
  unfoldable pub delete_ghosts : RepoConfig → List GhostRunner → M (ℕ × ℕ)
  delete_ghosts repo [] = pure (0, 0)
  delete_ghosts repo (g ∷ gs) = do
    done ← delete_runner repo g.id
    elim done [
      | true ↦ do
        update_cleaner (λ c. record c { ghosts_deleted = increment c.ghosts_deleted })
        n ← delete_ghosts repo gs
        pure (suc n.0, n.1)
      | false ↦ do n ← delete_ghosts repo gs; pure (n.0, suc n.1)
    ]

  -- The runs are cancelled before the runners are deleted; a failure to list them is dropped.
  unfoldable pub cancel_stuck : RepoConfig → List GhostRunner → M ℕ
  cancel_stuck repo ghosts = do
    ids ← run_ids_for_ghosts repo ghosts
    elim ids [ err x ↦ pure 0 | ok l ↦ cancel_runs repo l ]

  unfoldable pub cleanup_repo : RepoConfig → M (Fallible RepoResult)
  cleanup_repo repo = do
    listed ← list_ghost_runners repo
    elim listed [
      | err x ↦ pure (err (codes "list ghosts: " ++ x))
      | ok [] ↦ pure (ok no_result)
      | ok (g ∷ gs) ↦ do
        cancelled ← cancel_stuck repo (g ∷ gs)
        done ← delete_ghosts repo (g ∷ gs)
        pure (
            ok (record {
              found = length (g ∷ gs);
              cancelled = cancelled;
              deleted = done.0;
              still_stuck = done.1;
            }))
    ]
