-- ===== src/Cleanup/Sweep/Warrant.antt =====
-- internal/cleanup/cleanup.go: what stands in the history when a goroutine asks GitHub to delete a
-- runner.
use autoscaler.Cleanup.{
  GhostRunner, RepoResult, cleaner_get, delete_runner, force_cancel_run, repo_url_of, runner_url,
}
use autoscaler.Cleanup.Sweep.Goroutine.{
  Pass, adding_cancelled, adding_deleted, cancelling, deleting, given_up, inspect_step,
  inspecting_runs, listing_ghosts, pass_step, reported, reporting, search_step, searching,
}
use autoscaler.Cleanup.Sweep.Justified.{
  Grown, KnowsGhosts, SeenGhost, StepOf, cleaner_get-Grown, ghosts_left, Grown-knows,
  list_step-StepOf,
}
use autoscaler.Common.{All, List, [], arith, refl, subst, sym, ℤ, ◌++◌, ◌∷◌, ◌≡◌}
use autoscaler.Config.{RepoConfig}
use autoscaler.Env.{Env}
use autoscaler.Spawner.{signed_headers}
use autoscaler.Text.{codes, decimal}
use autoscaler.World.{Machine, Request, Spawner, Trace, delete, http_do, post}

module _ (e : Env) (sp : Spawner) where
  same_ghosts :
      (repo : RepoConfig) (t : Trace) (gs : List GhostRunner) (r : Pass × Machine)
      → ghosts_left r.0 ≡ gs
      → Grown e sp t r.1.trace
      → All (λ g. SeenGhost e sp repo t g.id) gs
      → StepOf e sp repo t r
  same_ghosts repo t gs r same grown h = (
    grown,
    subst (All (λ g. SeenGhost e sp repo r.1.trace g.id)) (sym same)
        (Grown-knows e sp repo t r.1.trace gs grown h),
  )

  unmoved : (t : Trace) → Grown e sp t t
  unmoved t = ([], refl, λ h. h)

  search_step_lem :
      (repo : RepoConfig) (gs : List GhostRunner) (m : Machine)
      → let r = search_step e sp repo gs m in
        let url = repo_url_of e sp repo (codes "/actions/runs?status=in_progress&per_page=100") in
        (ghosts_left r.0 ≡ gs) × (r.1.trace ≡ (cleaner_get e sp url m).1.trace)
  unfolding search_step
  search_step_lem repo gs m = (ground arith, ground arith)

  inspect_step_lem :
      (repo : RepoConfig) (gs : List GhostRunner) (id : ℤ) (ids stuck : List ℤ) (m : Machine)
      → let r = inspect_step e sp repo gs id ids stuck m in
        let url =
          repo_url_of e sp repo
            (codes "/actions/runs/" ++ (decimal id ++ codes "/jobs?per_page=100")) in
        (ghosts_left r.0 ≡ gs) × (r.1.trace ≡ (cleaner_get e sp url m).1.trace)
  unfolding inspect_step
  inspect_step_lem repo gs id ids stuck m = (ground arith, ground arith)

  Grown-by : (t : Trace) {t' t'' : Trace} → t' ≡ t'' → Grown e sp t t'' → Grown e sp t t'
  Grown-by t same grown = subst (Grown e sp t) (sym same) grown

  posted :
      (repo : RepoConfig) (id : ℤ) (m : Machine)
      → Grown e sp m.trace (force_cancel_run e sp repo id m).1.trace
  unfolding force_cancel_run
  posted repo id m =
      let req : Request = record {
        method = post;
        url =
            repo_url_of e sp repo (codes "/actions/runs/" ++ (decimal id ++ codes "/force-cancel"));
        headers = signed_headers sp;
      } in
      let ev = http_do req (e.do_http m.trace req) in
      Grown-by m.trace {t'' = ev ∷ m.trace} (ground arith) (ev ∷ [], refl, λ h. (tt, h))

  asked_deletion :
      (repo : RepoConfig) (id : ℤ) (m : Machine)
      → SeenGhost e sp repo m.trace id
      → Grown e sp m.trace (delete_runner e sp repo id m).1.trace
  unfolding delete_runner
  asked_deletion repo id m seen =
      let req : Request = record {
        method = delete;
        url = runner_url e sp repo id;
        headers = signed_headers sp;
      } in
      let ev = http_do req (e.do_http m.trace req) in
      Grown-by m.trace {t'' = ev ∷ m.trace} (ground arith)
        (ev ∷ [], refl, λ h. ((repo, id, refl, seen), h))

  cancelling-left :
      (repo : RepoConfig) (gs : List GhostRunner) (id : ℤ) (ids : List ℤ) (r : RepoResult)
      (m : Machine)
      → let p = pass_step e sp repo (cancelling gs (id ∷ ids) r) m in
        (ghosts_left p.0 ≡ gs) × (p.1.trace ≡ (force_cancel_run e sp repo id m).1.trace)
  unfolding pass_step
  cancelling-left repo gs id ids r m = (ground arith, ground arith)

  deleting-left :
      (repo : RepoConfig) (g : GhostRunner) (gs : List GhostRunner) (r : RepoResult) (m : Machine)
      → let p = pass_step e sp repo (deleting (g ∷ gs) r) m in
        (ghosts_left p.0 ≡ gs) × (p.1.trace ≡ (delete_runner e sp repo g.id m).1.trace)
  unfolding pass_step
  deleting-left repo g gs r m = (ground arith, ground arith)

  pub pass_step-StepOf :
      (repo : RepoConfig) (p : Pass) (m : Machine)
      → KnowsGhosts e sp repo p m.trace
      → StepOf e sp repo m.trace (pass_step e sp repo p m)
  unfolding pass_step
  pass_step-StepOf repo listing_ghosts m h = list_step-StepOf e sp repo m
  pass_step-StepOf repo (searching gs) m h =
      let stepped = search_step_lem repo gs m in
      same_ghosts repo m.trace gs (search_step e sp repo gs m) stepped.0
        (Grown-by m.trace stepped.1 (cleaner_get-Grown e sp _ m)) h
  pass_step-StepOf repo (inspecting_runs gs [] stuck) m h = (unmoved m.trace, h)
  pass_step-StepOf repo (inspecting_runs gs (id ∷ ids) stuck) m h =
      let stepped = inspect_step_lem repo gs id ids stuck m in
      same_ghosts repo m.trace gs (inspect_step e sp repo gs id ids stuck m) stepped.0
        (Grown-by m.trace stepped.1 (cleaner_get-Grown e sp _ m)) h
  pass_step-StepOf repo (cancelling gs [] r) m h = (unmoved m.trace, h)
  pass_step-StepOf repo (cancelling gs (id ∷ ids) r) m h =
      let stepped = cancelling-left repo gs id ids r m in
      same_ghosts repo m.trace gs (pass_step e sp repo (cancelling gs (id ∷ ids) r) m) stepped.0
        (Grown-by m.trace stepped.1 (posted repo id m)) h
  pass_step-StepOf repo (adding_cancelled gs ids r) m h = (unmoved m.trace, h)
  pass_step-StepOf repo (deleting [] r) m h = (unmoved m.trace, tt)
  pass_step-StepOf repo (deleting (g ∷ gs) r) m h =
      let stepped = deleting-left repo g gs r m in
      same_ghosts repo m.trace gs (pass_step e sp repo (deleting (g ∷ gs) r) m) stepped.0
        (Grown-by m.trace stepped.1 (asked_deletion repo g.id m h.0)) h.1
  pass_step-StepOf repo (adding_deleted gs r) m h = (unmoved m.trace, h)
  pass_step-StepOf repo (reporting r) m h = (unmoved m.trace, tt)
  pass_step-StepOf repo (reported r) m h = (unmoved m.trace, tt)
  pass_step-StepOf repo (given_up x) m h = (unmoved m.trace, tt)
