-- ===== src/Spawner/Defs.antt =====
-- internal/spawner/spawner.go. The deadlines of contexts are left to the answers of the world: a
-- call that runs out of time is answered by an error. Log lines are not modelled. The per-repo
-- mutex is in Spawner/Interleaving: here one goroutine runs alone.
use autoscaler.Common.{
  Bool, List, Option, [], any, false, if◌then◌else◌, leb_ℤ, map, none, pos, some, true, ℕ, ◌++◌,
  ◌==◌, ◌∷◌,
}
use autoscaler.Config.{RepoConfig}
use autoscaler.Env.{
  Env, IdleRunner, chmod_file, close_handle, exec_docker, rand_bytes, remove_file, send, temp_file,
  write_text,
}
use autoscaler.Spawner.Commands.{
  SpawnError, cap_hit, count_failed, count_lines, docker_run_failed, env_file_failed, inspect_args,
  is_idle_match, not_ok_error, paused_error, ps_args, run_args, runner_name, runners_url,
  signed_headers,
}
use autoscaler.Spawner.Counters.{
  add_cap_hit, add_error, add_idle_skip, add_paused, add_spawned, is_paused,
}
use autoscaler.Text.{Bytes, codes, fields, split, to_lower, trim_space}
use autoscaler.World.{Fallible, M, Response, Spawner, err, get, ok, pure, ◌>>=◌, ◌>>◌}

module _ (e : Env) (sp : Spawner) where
  -- The page behind an answer of GitHub, in `hasIdleMatchingRunner`.
  idle_runners : Fallible Response → Fallible (List IdleRunner)
  idle_runners (err x) = err x
  idle_runners (ok resp) =
      let page = e.idle_page resp.body in
      if resp.status == 200
      then elim page.1 [ none ↦ ok page.0 | some x ↦ err x ]
      else err (not_ok_error resp)

  idle_answer : RepoConfig → Fallible (List IdleRunner) → Fallible Bool
  unfolding is_idle_match
  idle_answer repo (err x) = err x
  idle_answer repo (ok rs) =
      ok (any (is_idle_match e.unicode_lower (map (to_lower e.unicode_lower) repo.match_labels)) rs)

  unfoldable pub has_idle_matching_runner : RepoConfig → M (Fallible Bool)
  unfolding idle_runners idle_answer signed_headers runners_url
  has_idle_matching_runner repo =
      let url = runners_url sp repo.name in
      elim (e.url_error url) [
        | some x ↦ pure (err x)
        | none ↦ do
          a ← send e (record { method = get; url = url; headers = signed_headers sp })
          pure (idle_answer repo (idle_runners a))
      ]

  -- The number of containers of the repo that are really running.
  unfoldable pub count_running : Bytes → M (Fallible ℕ)
  count_running repo = do
    listed ← exec_docker e (ps_args repo)
    elim listed.error [
      | some x ↦ pure (err x)
      | none ↦ elim (fields (trim_space listed.stdout)) [
        | [] ↦ pure (ok 0)
        | id ∷ ids ↦ do
          states ← exec_docker e (inspect_args (id ∷ ids))
          elim states.error [
            | some x ↦ pure (err x)
            | none ↦ pure (ok (count_lines (split (trim_space states.stdout) b'\n')))
          ]
      ]
    ]

  -- `CountRunning`: an error counts as 0.
  unfoldable pub count_running_or_zero : Bytes → M ℕ
  count_running_or_zero repo = do n ← count_running repo; pure (elim n [ ok k ↦ k | err x ↦ 0 ])

  -- `writePATEnvFile`: the cleaned path, and the path that its cleanup function removes.
  unfoldable pub write_pat_env_file : M (Fallible (Bytes × Bytes))
  write_pat_env_file = do
    created ← temp_file e (codes "autoscaler-env-*.env")
    elim created [
      | err x ↦ pure (err x)
      | ok path ↦ do
        moded ← chmod_file e path 384
        elim moded [
          | some x ↦ do close_handle e path; remove_file e path; pure (err x)
          | none ↦ do
            written ← write_text e path (codes "ACCESS_TOKEN=" ++ (sp.pat ++ codes "\n"))
            elim written [
              | some x ↦ do close_handle e path; remove_file e path; pure (err x)
              | none ↦ do
                closed ← close_handle e path
                elim closed [
                  | some x ↦ do remove_file e path; pure (err x)
                  | none ↦ pure (ok (e.clean_path path, path))
                ]
            ]
        ]
    ]

  -- `Spawn` behind the cap check: the runner's name, the env-file and `docker run`. The file is
  -- removed by the deferred cleanup, after the counter.
  unfoldable pub launch : RepoConfig → M (Option SpawnError)
  launch repo = do
    suffix ← rand_bytes e 4
    elim sp.dry_run [
      | true ↦ do add_spawned; pure none
      | false ↦ do
        file ← write_pat_env_file
        elim file [
          | err x ↦ do add_error; pure (some (env_file_failed x))
          | ok (env_file, path) ↦ do
            out ← exec_docker e (run_args sp repo (runner_name repo suffix) env_file)
            elim out.error [
              | some x ↦ do
                add_error
                remove_file e path
                pure (some (docker_run_failed x (trim_space out.stderr)))
              | none ↦ do add_spawned; remove_file e path; pure none
            ]
        ]
    ]

  -- `Spawn` behind the idle check: the cap check.
  unfoldable pub admit : RepoConfig → M (Option SpawnError)
  admit repo = do
    counted ← count_running repo.name
    elim counted [
      | err x ↦ do add_error; pure (some (count_failed x))
      | ok running ↦
          if leb_ℤ repo.max_concurrency (pos running)
          then (do add_cap_hit; pure (some cap_hit))
          else launch repo
    ]

  -- `Spawn` under the mutex. An error of the idle check is logged only.
  unfoldable pub check_and_spawn : RepoConfig → M (Option SpawnError)
  check_and_spawn repo = do
    idle ← has_idle_matching_runner repo
    elim idle [ ok true ↦ do add_idle_skip; pure none | ok false ↦ admit repo | err x ↦ admit repo ]

  unfoldable pub spawn : RepoConfig → M (Option SpawnError)
  spawn repo = do
    p ← is_paused
    if p then (do add_paused; pure (some paused_error)) else check_and_spawn repo
