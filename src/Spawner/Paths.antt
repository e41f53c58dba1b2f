-- ===== src/Spawner/Paths.antt =====
-- Runs of the goroutines in `Spawn` of internal/spawner/spawner.go that go on from any state.
use autoscaler.Common.{ap, arith, refl, suc, ℕ, ◌+◌, ◌≡◌}
use autoscaler.Config.{RepoConfig}
use autoscaler.Env.{Env}
use autoscaler.Spawner.Interleaving.{Step, System, outside, recounts, toggle}
use autoscaler.World.{Spawner}

module _ (e : Env) (sp : Spawner) (job : ℕ → RepoConfig) where
  pub data Leads (s : System) : System → Type 0 where
    stay : Leads s s
    onward : {t u : System} → Leads s t → Step e sp job t u → Leads s u

  abbrev pub steps : {s t : System} → Leads s t → ℕ
  steps stay = 0
  steps (onward l st) = suc (steps l)

  -- A step of a goroutine in `Spawn`.
  abbrev pub IsOwn : {s t : System} → Step e sp job s t → Type 0
  IsOwn (toggle p) = ⊥
  IsOwn (outside ev quiet) = ⊥
  IsOwn (recounts c) = ⊥
  IsOwn st = Unit

  -- Nothing happens in the run but steps of goroutines in `Spawn`.
  abbrev pub Unaided : {s t : System} → Leads s t → Type 0
  Unaided stay = Unit
  Unaided (onward l st) = IsOwn st × Unaided l

  -- A run after a first step.
  abbrev pub prepend : {s t u : System} → Step e sp job s t → Leads t u → Leads s u
  prepend st stay = onward stay st
  prepend st (onward l last) = onward (prepend st l) last

  pub steps-prepend :
      {s t u : System} (st : Step e sp job s t) (l : Leads t u)
      → steps (prepend st l) ≡ suc (steps l)
  steps-prepend st stay = refl
  steps-prepend st (onward l last) = ap suc (steps-prepend st l)

  pub prepend-Unaided :
      {s t u : System} (st : Step e sp job s t) (l : Leads t u)
      → IsOwn st
      → Unaided l
      → Unaided (prepend st l)
  prepend-Unaided st stay own alone = (own, tt)
  prepend-Unaided st (onward l last) own alone = (alone.0, prepend-Unaided st l own alone.1)

  abbrev pub append : {s t u : System} → Leads s t → Leads t u → Leads s u
  append l stay = l
  append l (onward l' st) = onward (append l l') st

  pub steps-append :
      {s t u : System} (l : Leads s t) (l' : Leads t u) → steps (append l l') ≡ steps l + steps l'
  steps-append l stay = omega arith
  steps-append l (onward l' st) = omega (arith, steps-append l l')

  pub append-Unaided :
      {s t u : System} (l : Leads s t) (l' : Leads t u)
      → Unaided l
      → Unaided l'
      → Unaided (append l l')
  append-Unaided l stay alone alone' = alone
  append-Unaided l (onward l' st) alone alone' = (alone'.0, append-Unaided l l' alone alone'.1)
