-- ===== src/Cleanup/Sweep/Warranted.antt =====
-- internal/cleanup/cleanup.go: the deletions of all goroutines of the ticks.
use autoscaler.Cleanup.Sweep.Goroutine.{Pass, pass_step, reported}
use autoscaler.Cleanup.Sweep.Justified.{AllJustified, Grown, KnowsGhosts, ghosts_left, Grown-knows}
use autoscaler.Cleanup.Sweep.Parallel.{
  Sweep, Sweeps, at_outset, elsewhere, fresh_sweep, one_more, reports, works,
}
use autoscaler.Cleanup.Repo.{deleted_urls}
use autoscaler.Cleanup.Sweep.Sums.{put}
use autoscaler.Cleanup.Sweep.Warrant.{pass_step-StepOf}
use autoscaler.Common.{Bool-cases, List, [], arith, inl, inr, refl, subst, ℕ, ◌++◌, ◌==◌, ◌∷◌, ◌≡◌}
use autoscaler.Config.{RepoConfig}
use autoscaler.Env.{Env}
use autoscaler.Text.{Bytes}
use autoscaler.World.{
  Machine, Method, Spawner, Trace, chmod, clock, close, create_temp, delete, docker, get, http_do,
  post, random, remove, write_string,
}

-- What a request adds to the deletions, by its method.
quiet_request :
    (k : Method) (W : Type 0) (url : Bytes) (urls : List Bytes)
    → ◌≡◌ {A = List Bytes} (elim k [ delete ↦ url ∷ urls | get ↦ urls | post ↦ urls ]) []
    → (elim k as (λ x. Type 0) [ delete ↦ W | get ↦ Unit | post ↦ Unit ]) × (urls ≡ [])
quiet_request delete W url urls h = cc
quiet_request get W url urls h = (tt, h)
quiet_request post W url urls h = (tt, h)

-- Other calls than deletions need no justification.
quiet-AllJustified :
    (e : Env) (sp : Spawner) (more t : Trace)
    → deleted_urls more ≡ []
    → AllJustified e sp t
    → AllJustified e sp (more ++ t)
quiet-AllJustified e sp [] t quiet h = h
quiet-AllJustified e sp (http_do req a ∷ more) t quiet h =
    let q = quiet_request req.method _ req.url (deleted_urls more) quiet in
    (q.0, quiet-AllJustified e sp more t q.1 h)
quiet-AllJustified e sp (docker args a ∷ more) t quiet h =
    (tt, quiet-AllJustified e sp more t quiet h)
quiet-AllJustified e sp (random k x ∷ more) t quiet h = (tt, quiet-AllJustified e sp more t quiet h)
quiet-AllJustified e sp (create_temp p a ∷ more) t quiet h =
    (tt, quiet-AllJustified e sp more t quiet h)
quiet-AllJustified e sp (chmod p k a ∷ more) t quiet h =
    (tt, quiet-AllJustified e sp more t quiet h)
quiet-AllJustified e sp (write_string p x a ∷ more) t quiet h =
    (tt, quiet-AllJustified e sp more t quiet h)
quiet-AllJustified e sp (close p a ∷ more) t quiet h = (tt, quiet-AllJustified e sp more t quiet h)
quiet-AllJustified e sp (remove p a ∷ more) t quiet h = (tt, quiet-AllJustified e sp more t quiet h)
quiet-AllJustified e sp (clock k ∷ more) t quiet h = (tt, quiet-AllJustified e sp more t quiet h)

module _ (e : Env) (sp : Spawner) (n : ℕ) (job : ℕ → RepoConfig) (tick_of : ℕ → ℕ) where
  -- What holds of the goroutines and the history between two steps.
  abbrev AllInformed : Sweep → Type 0
  AllInformed s = (i : ℕ) → KnowsGhosts e sp (job i) (s.pass i) s.machine.trace

  -- The other goroutines lose nothing when the history grows.
  informed_lem :
      (s : Sweep) (i : ℕ) (p : Pass) (t : Trace)
      → Grown e sp s.machine.trace t
      → AllInformed s
      → KnowsGhosts e sp (job i) p t
      → (j : ℕ) → KnowsGhosts e sp (job j) (put s.pass i p j) t
  informed_lem s i p t grown all own j = elim (Bool-cases (i == j)) [
    | inl same ↦
        let at : i ≡ j = ground (arith, same) in
        rw same (subst (λ k. KnowsGhosts e sp (job k) p t) at own)
    | inr apart ↦
        rw apart (Grown-knows e sp (job j) s.machine.trace t (ghosts_left (s.pass j)) grown (all j))
  ]

  Sweeps-Informed :
      (origin : Machine) (sizes : ℕ → ℕ) {s : Sweep}
      → AllJustified e sp origin.trace
      → Sweeps e sp n job tick_of (fresh_sweep origin sizes) s
      → AllJustified e sp s.machine.trace × AllInformed s
  Sweeps-Informed origin sizes h at_outset = (h, λ i. tt)
  Sweeps-Informed origin sizes h (one_more {s = u} run (works i below)) =
      let before = Sweeps-Informed origin sizes h run in
      let stepped = pass_step-StepOf e sp (job i) (u.pass i) u.machine (before.1 i) in
      let r = pass_step e sp (job i) (u.pass i) u.machine in
      (stepped.0.2 before.0, informed_lem u i r.0 r.1.trace stepped.0 before.1 stepped.1)
  Sweeps-Informed origin sizes h (one_more {s = u} run (reports i r below at_end)) =
      let before = Sweeps-Informed origin sizes h run in
      (before.0, informed_lem u i (reported r) u.machine.trace ([], refl, λ x. x) before.1 tt)
  Sweeps-Informed origin sizes h (one_more {s = u} run (elsewhere m more d c longer quiet)) =
      let before = Sweeps-Informed origin sizes h run in
      let just : AllJustified e sp m.trace =
        rw longer (quiet-AllJustified e sp more u.machine.trace quiet before.0) in
      (
        just,
        λ i.
            Grown-knows e sp (job i) u.machine.trace m.trace (ghosts_left (u.pass i))
              (more, longer, λ x. just) (before.1 i),
      )

  -- In every state that any interleaving of the goroutines of any number of ticks, and of anything
  -- else that deletes no runner, reaches from a history in which every request to delete a runner
  -- is warranted, every one is: before it GitHub answered a listing of the runners of that
  -- repository and showed the runner with a name that begins with auto- and a status other than
  -- online.
  pub Sweeps-AllJustified :
      (origin : Machine) (sizes : ℕ → ℕ) {s : Sweep}
      → AllJustified e sp origin.trace
      → Sweeps e sp n job tick_of (fresh_sweep origin sizes) s
      → AllJustified e sp s.machine.trace
  Sweeps-AllJustified origin sizes h run = (Sweeps-Informed origin sizes h run).0
