-- ===== src/Cleanup/Sweep/Justified.antt =====
-- internal/cleanup/cleanup.go: which runners the goroutines of the ticks ask GitHub to delete.
use mathlib.Core.List.Memᴰ
use mathlib.Core.List.{Memᴰ}
use autoscaler.Cleanup.{
  GhostRunner, cleaner_get, ghosts_of, is_ghost, list_ghost_runners, no_result, repo_url_of,
  runner_url,
}
use autoscaler.Cleanup.Sweep.Goroutine.{
  Pass, adding_cancelled, adding_deleted, cancelling, deleting, given_up, inspecting_runs,
  list_step, reporting, searching,
}
use autoscaler.Common.{
  All, Bool-cases, List, Option-cases, [], arith, inl, inr, refl, subst, sym, true, ℤ, ◌++◌, ◌∷◌,
  ◌≡◌, ◌⊎◌,
}
use autoscaler.Config.{RepoConfig}
use autoscaler.Env.{Env, ListedRunner}
use autoscaler.Spawner.{signed_headers}
use autoscaler.Text.{Bytes, codes}
use autoscaler.World.{
  Body, Event, Fallible-cases, Machine, Request, Response, Spawner, Trace, delete, err, get,
  http_do, ok, post,
}

-- The ghosts that a goroutine has still to delete.
abbrev pub ghosts_left : Pass → List GhostRunner
ghosts_left (searching gs) = gs
ghosts_left (inspecting_runs gs ids stuck) = gs
ghosts_left (cancelling gs ids r) = gs
ghosts_left (adding_cancelled gs ids r) = gs
ghosts_left (deleting gs r) = gs
ghosts_left (adding_deleted gs r) = gs
ghosts_left p = []

module _ (e : Env) (sp : Spawner) where
  abbrev list_url : RepoConfig → Bytes
  list_url repo = repo_url_of e sp repo (codes "/actions/runners?per_page=100")

  -- GitHub answered a listing of the repository's runners in the history, and showed this one.
  abbrev pub Listed : RepoConfig → ListedRunner → Trace → Type 0
  Listed repo r t =
      (req : Request) × (resp : Response) × Memᴰ (http_do req (ok resp)) t
      × (req.url ≡ list_url repo)
      × Memᴰ r (e.runner_page resp.body).0

  -- Such a runner with the name of one of ours, that was not online.
  abbrev pub SeenGhost : RepoConfig → Trace → ℤ → Type 0
  SeenGhost repo t id = (r : ListedRunner) × (r.id ≡ id) × (is_ghost r ≡ true) × Listed repo r t

  -- A request to delete a runner follows a listing that showed it as a ghost.
  abbrev pub IsJustified : Event → Trace → Type 0
  IsJustified (http_do req a) t = elim req.method [
    | delete ↦
        (repo : RepoConfig) × (id : ℤ) × (req.url ≡ runner_url e sp repo id) × SeenGhost repo t id
    | get ↦ Unit
    | post ↦ Unit
  ]
  IsJustified ev t = Unit

  abbrev pub AllJustified : Trace → Type 0
  AllJustified [] = Unit
  AllJustified (ev ∷ t) = IsJustified ev t × AllJustified t

  abbrev pub KnowsGhosts : RepoConfig → Pass → Trace → Type 0
  KnowsGhosts repo p t = All (λ g. SeenGhost repo t g.id) (ghosts_left p)

  seen_more :
      (repo : RepoConfig) (t more : Trace) (id : ℤ)
      → SeenGhost repo t id
      → SeenGhost repo (more ++ t) id
  seen_more repo t more id (r, same, ghost, (req, resp, there, at_url, shown_by)) =
      (r, same, ghost, (req, resp, Memᴰ.append_right more there, at_url, shown_by))

  All-seen_more :
      (repo : RepoConfig) (t more : Trace) (gs : List GhostRunner)
      → All (λ g. SeenGhost repo t g.id) gs
      → All (λ g. SeenGhost repo (more ++ t) g.id) gs
  All-seen_more repo t more [] h = tt
  All-seen_more repo t more (g ∷ gs) h =
      (seen_more repo t more g.id h.0, All-seen_more repo t more gs h.1)

  -- The ghosts that the loop of the listing makes of an answer are shown in it.
  ghosts_of-seen :
      (repo : RepoConfig) (t : Trace) (rs : List ListedRunner)
      → ((r : ListedRunner) → Memᴰ r rs → Listed repo r t)
      → All (λ g. SeenGhost repo t g.id) (ghosts_of rs)
  unfolding ghosts_of
  ghosts_of-seen repo t [] f = tt
  ghosts_of-seen repo t (r ∷ rs) f =
      let rest = ghosts_of-seen repo t rs (λ q there. f q (Memᴰ.tail there)) in
      elim (Bool-cases (is_ghost r)) [
        | inl ghost ↦ rw ghost ((r, refl, ghost, f r (Memᴰ.head refl)), rest)
        | inr other ↦ rw other rest
      ]

  -- A history that has grown by calls that are justified.
  abbrev pub Grown : Trace → Trace → Type 0
  Grown t t' = (more : Trace) × (t' ≡ more ++ t) × (AllJustified t → AllJustified t')

  pub Grown-knows :
      (repo : RepoConfig) (t t' : Trace) (gs : List GhostRunner)
      → Grown t t'
      → All (λ g. SeenGhost repo t g.id) gs
      → All (λ g. SeenGhost repo t' g.id) gs
  Grown-knows repo t t' gs (more, longer, just) h = rw longer (All-seen_more repo t more gs h)

  pub cleaner_get-Grown :
      (url : Bytes) (m : Machine) → Grown m.trace (cleaner_get e sp url m).1.trace
  unfolding cleaner_get
  cleaner_get-Grown url m =
      let req : Request = record { method = get; url = url; headers = signed_headers sp } in
      elim (Option-cases (e.url_error url)) [
        | inl fine_url ↦ (http_do req (e.do_http m.trace req) ∷ [], ground arith, ground arith)
        | inr (x, bad_url) ↦ ([], ground arith, ground arith)
      ]

  -- A body that was read stands in the history.
  cleaner_get-body :
      (url : Bytes) (m : Machine) (b : Body)
      → (cleaner_get e sp url m).0 ≡ ok b
      → (req : Request) × (resp : Response) × Memᴰ
          (http_do req (ok resp))
          (cleaner_get e sp url m).1.trace
        × (req.url ≡ url)
        × (resp.body ≡ b)
  unfolding cleaner_get
  cleaner_get-body url m b h =
      let req : Request = record { method = get; url = url; headers = signed_headers sp } in
      elim (Option-cases (e.url_error url)) [
        | inl fine_url ↦ elim (Fallible-cases (e.do_http m.trace req)) [
          | inl (resp, answered) ↦
              let longer : (cleaner_get e sp url m).1.trace ≡ http_do req (ok resp) ∷ m.trace =
                ground (arith, fine_url, answered) in
              (req, resp, rw longer (Memᴰ.head refl), refl, ground (arith, fine_url, answered, h))
          | inr (x, lost) ↦
              let nothing : (cleaner_get e sp url m).0 ≡ err x = ground (arith, fine_url, lost) in
              cc (h, nothing)
        ]
        | inr (x, bad_url) ↦
            let nothing : (cleaner_get e sp url m).0 ≡ err x = ground (arith, bad_url) in
            cc (h, nothing)
      ]

  -- What a step of a goroutine leaves: a history that has grown, and the ghosts it has still to
  -- delete among those that were shown.
  abbrev pub StepOf : RepoConfig → Trace → Pass × Machine → Type 0
  StepOf repo t r = Grown t r.1.trace × KnowsGhosts repo r.0 r.1.trace

  abbrev after_list : List GhostRunner → Pass
  after_list [] = reporting no_result
  after_list (g ∷ gs) = searching (g ∷ gs)

  after_list-KnowsGhosts :
      (repo : RepoConfig) (t : Trace) (gs : List GhostRunner)
      → All (λ g. SeenGhost repo t g.id) gs
      → KnowsGhosts repo (after_list gs) t
  after_list-KnowsGhosts repo t [] h = tt
  after_list-KnowsGhosts repo t (g ∷ gs) h = h

  -- What the step of the listing comes to.
  list_step_lem :
      (repo : RepoConfig) (m : Machine)
      → let body = cleaner_get e sp (list_url repo) m in
        ((x : Bytes) × (list_step e sp repo m ≡ (given_up x, body.1)))
        ⊎ ((b : Body) × (body.0 ≡ ok b)
            × (list_step e sp repo m ≡ (after_list (ghosts_of (e.runner_page b).0), body.1)))
  unfolding list_step list_ghost_runners
  list_step_lem repo m = elim (Fallible-cases (cleaner_get e sp (list_url repo) m).0) [
    | inr (x, lost) ↦ inl (codes "list ghosts: " ++ x, ground (arith, lost))
    | inl (b, answered) ↦ elim (Option-cases (e.runner_page b).1) [
      | inr (x, broken) ↦ inl (codes "list ghosts: " ++ x, ground (arith, answered, broken))
      | inl whole ↦ inr (b, answered, ground (arith, answered, whole))
    ]
  ]

  pub list_step-StepOf :
      (repo : RepoConfig) (m : Machine) → StepOf repo m.trace (list_step e sp repo m)
  list_step-StepOf repo m =
      let grown = cleaner_get-Grown (list_url repo) m in
      elim (list_step_lem repo m) [
        | inl (x, stepped) ↦ subst (StepOf repo m.trace) (sym stepped) (grown, tt)
        | inr (b, answered, stepped) ↦
            let (req, resp, there, at_url, same) = cleaner_get-body (list_url repo) m b answered in
            subst (StepOf repo m.trace) (sym stepped) (
              grown,
              after_list-KnowsGhosts repo _ _ (
                  ghosts_of-seen repo _ (e.runner_page b).0 (λ r r_there. (
                    req,
                    resp,
                    there,
                    at_url,
                    subst (λ c. Memᴰ r (e.runner_page c).0) (sym same) r_there,
                  ))),
            )
      ]
