-- ===== src/Reconciler/Counting.antt =====
-- The early stop of the job count: what it returns, against a plain count.
use Prim.Native.Nat.{min}
use autoscaler.Common.{
  Bool, List, [], ap, arith, if◌then◌else◌, inl, inr, leb, pos, refl, suc, ℕ, ℤ, ◌&&◌, ◌+◌, ◌<◌,
  ◌∙◌, ◌∷◌, ◌≡◌, ◌≤◌, ◌⊎◌,
}
use autoscaler.Config.{RepoConfig}
use autoscaler.Env.{Env, QueuedJob}
use autoscaler.Reconciler.{count_jobs, count_runs, is_queued_job, list_run_jobs}
use autoscaler.Text.{Bytes}
use autoscaler.World.{Fallible, Machine, Spawner, err, ok}

-- How many queued jobs are wanted.
abbrev pub matching : (QueuedJob → Bool) → List QueuedJob → ℕ
matching wanted [] = 0
matching wanted (j ∷ js) =
    let n = matching wanted js in if is_queued_job j && wanted j then suc n else n

-- The loop over one run's jobs, from a count below the cap, returns the smaller of the cap and of
-- the count with this run's queued, wanted jobs, and says that it is done exactly if the cap is
-- reached.
pub count_jobs-min :
    (wanted : QueuedJob → Bool) (cap : ℕ) (js : List QueuedJob) (n : ℕ)
    → n < cap
    → (count_jobs wanted (pos cap) js n).0 ≡ min cap (n + matching wanted js)
unfolding count_jobs
count_jobs-min wanted cap [] n h = ground arith
count_jobs-min wanted cap (j ∷ js) n h =
    ground (arith, count_jobs-min wanted cap js n h, count_jobs-min wanted cap js (suc n))

count_jobs_stop :
    (wanted : QueuedJob → Bool) (cap : ℕ) (js : List QueuedJob) (n : ℕ)
    → n < cap
    → (count_jobs wanted (pos cap) js n).1 ≡ leb cap (n + matching wanted js)
unfolding count_jobs
count_jobs_stop wanted cap [] n h = ground arith
count_jobs_stop wanted cap (j ∷ js) n h =
    ground (arith, count_jobs_stop wanted cap js n h, count_jobs_stop wanted cap js (suc n))

module _ (e : Env) (sp : Spawner) (base : Bytes) (repo : RepoConfig)
    (wanted : QueuedJob → Bool) where
  -- The wanted jobs of all runs, where `listed` is what GitHub says of a run. A run whose jobs
  -- cannot be listed counts as none.
  abbrev pub run_matches : Fallible (List QueuedJob) → ℕ
  run_matches (err x) = 0
  run_matches (ok js) = matching wanted js

  abbrev pub total_matches : (ℤ → Fallible (List QueuedJob)) → List ℤ → ℕ
  total_matches listed [] = 0
  total_matches listed (id ∷ ids) = run_matches (listed id) + total_matches listed ids

  abbrev walk : ℕ → List ℤ → ℕ → Machine → ℕ × Machine
  walk cap ids n m = count_runs e sp base repo wanted (pos cap) ids n m

  -- What the walk over a first run adds, by the answer.
  walk_step :
      (cap : ℕ) (id : ℤ) (ids : List ℤ) (n : ℕ) (m : Machine) (jobs : Fallible (List QueuedJob))
      → (list_run_jobs e sp base repo id m).0 ≡ jobs
      → n < cap
      → let m' = (list_run_jobs e sp base repo id m).1 in
        ((cap ≤ n + run_matches jobs) × ((walk cap (id ∷ ids) n m).0 ≡ cap))
        ⊎ ((n + run_matches jobs < cap)
            × (walk cap (id ∷ ids) n m ≡ walk cap ids (n + run_matches jobs) m'))
  unfolding count_runs
  walk_step cap id ids n m (err x) h below = ground arith
  walk_step cap id ids n m (ok js) h below =
      ground (arith, h, count_jobs-min wanted cap js n below, count_jobs_stop wanted cap js n below)

  -- As long as GitHub says the same of each run, the walk with its early stop counts the smaller of
  -- the capacity and of all wanted, queued jobs of the runs.
  pub count_runs-min :
      (listed : ℤ → Fallible (List QueuedJob))
      → ((id : ℤ) (m : Machine) → (list_run_jobs e sp base repo id m).0 ≡ listed id)
      → (cap : ℕ) (ids : List ℤ) (n : ℕ) (m : Machine) → n < cap
      → (count_runs e sp base repo wanted (pos cap) ids n m).0
        ≡ min cap (n + total_matches listed ids)
  count_runs-min listed same cap [] n m below = unfold count_runs in omega arith
  count_runs-min listed same cap (id ∷ ids) n m below =
      elim (walk_step cap id ids n m (listed id) (same id m) below) [
        | inl (full, stopped) ↦ stopped ∙ omega arith
        | inr (room, goes_on) ↦
            ap (λ r. r.0) goes_on
            ∙ count_runs-min listed same cap ids (n + run_matches (listed id))
                (list_run_jobs e sp base repo id m).1 room
            ∙ omega arith
      ]

  -- Whatever GitHub answers, the count is at most the capacity.
  pub count_runs-le :
      (cap : ℕ) (ids : List ℤ) (n : ℕ) (m : Machine)
      → n < cap
      → (count_runs e sp base repo wanted (pos cap) ids n m).0 ≤ cap
  count_runs-le cap [] n m below = unfold count_runs in omega arith
  count_runs-le cap (id ∷ ids) n m below =
      let jobs = (list_run_jobs e sp base repo id m).0 in
      elim (walk_step cap id ids n m jobs refl below) [
        | inl (full, stopped) ↦ omega (arith, stopped)
        | inr (room, goes_on) ↦ rw goes_on (
            count_runs-le cap ids (n + run_matches jobs) (list_run_jobs e sp base repo id m).1 room)
      ]
