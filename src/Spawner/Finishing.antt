-- ===== src/Spawner/Finishing.antt =====
-- internal/spawner/spawner.go: a goroutine in `Spawn` that holds its mutex goes on to its end.
use autoscaler.Common.{
  Option, arith, false, inl, inr, refl, suc, true, zero, ℕ, ◌<◌, ◌∙◌, ◌≡◌, ◌≢◌, ◌≤◌, ◌⊎◌,
}
use autoscaler.Config.{RepoConfig}
use autoscaler.Env.{Env}
use autoscaler.Spawner.{SpawnError}
use autoscaler.Spawner.Goroutine.{Pc, advance, finished, leaving, queued, ready}
use autoscaler.Spawner.Interleaving.{System, move, set_locked, set_pc, unlock}
use autoscaler.Spawner.Invariant.{set_pc_ne, set_pc_self}
use autoscaler.Spawner.Paths.{
  Leads, Unaided, onward, prepend, prepend-Unaided, stay, steps, steps-prepend,
}
use autoscaler.Spawner.Progress.{advance-rank, rank, runs}
use autoscaler.Spawner.Steps.{advance-holds, holds}
use autoscaler.Text.Equality.{bytes_eq_refl}
use autoscaler.World.{Spawner}

module _ (e : Env) (sp : Spawner) (job : ℕ → RepoConfig) where
  -- The rest of a call that holds its mutex: it ends, gives the mutex back, and leaves the other
  -- goroutines where they were.
  pub record Finishes (s : System) (j : ℕ) : Type 0 where
    pub last : System
    pub path : Leads e sp job s last
    pub short : steps e sp job path ≤ rank (s.pc j)
    pub alone : Unaided e sp job path
    pub result : Option SpawnError
    pub at_end : last.pc j ≡ finished result
    pub others : (k : ℕ) → j ≢ k → last.pc k ≡ s.pc k
    pub freed : last.locked (job j).name ≡ false

  holds_cases :
      (pc : Pc)
      → holds pc ≡ true
      → (runs pc ≡ true) ⊎ ((result : Option SpawnError) × (pc ≡ leaving result))
  holds_cases ready h = cc
  holds_cases queued h = cc
  holds_cases (leaving result) h = inr (result, refl)
  holds_cases (finished result) h = cc
  holds_cases _ h = inl refl

  unlocked :
      (s : System) (j : ℕ) (result : Option SpawnError) → s.pc j ≡ leaving result → Finishes s j
  unlocked s j result at_end = record {
    last = record s {
      pc = set_pc s.pc j (finished result);
      locked = set_locked s.locked (job j).name false;
    };
    path = onward stay (unlock j result at_end);
    short = rw at_end (omega arith);
    alone = (tt, tt);
    result = result;
    at_end = set_pc_self s.pc j (finished result);
    others = λ k differs. set_pc_ne s.pc j (finished result) k differs;
    freed = rw (bytes_eq_refl (job j).name) refl;
  }

  abbrev pub moved_to : System → ℕ → System
  moved_to s j = record s {
    machine = (advance e sp (job j) (s.pc j) s.machine).1;
    pc = set_pc s.pc j (advance e sp (job j) (s.pc j) s.machine).0;
  }

  moved_rank :
      (s : System) (j : ℕ) → runs (s.pc j) ≡ true → rank ((moved_to s j).pc j) < rank (s.pc j)
  moved_rank s j running = ground (arith, advance-rank e sp (job j) (s.pc j) s.machine running)

  after_move :
      (s : System) (j : ℕ) → runs (s.pc j) ≡ true → Finishes (moved_to s j) j → Finishes s j
  after_move s j running f = record {
    last = f.last;
    path = prepend e sp job (move j) f.path;
    short =
        omega
          (arith, f.short, moved_rank s j running, steps-prepend e sp job {s = s} (move j) f.path);
    alone = prepend-Unaided e sp job {s = s} (move j) f.path tt f.alone;
    result = f.result;
    at_end = f.at_end;
    others = λ k differs. f.others k differs ∙ set_pc_ne s.pc j _ k differs;
    freed = f.freed;
  }

  moved_holds : (s : System) (j : ℕ) → holds ((moved_to s j).pc j) ≡ holds (s.pc j)
  moved_holds s j = ground (arith, advance-holds e sp (job j) (s.pc j) s.machine)

  pub give_back :
      (n : ℕ) (s : System) (j : ℕ) → rank (s.pc j) ≤ n → holds (s.pc j) ≡ true → Finishes s j
  give_back zero s j within h = elim (holds_cases (s.pc j) h) [
    | inr (result, at_end) ↦ unlocked s j result at_end
    | inl running ↦ absurd (omega (arith, within, moved_rank s j running))
  ]
  give_back (suc n) s j within h = elim (holds_cases (s.pc j) h) [
    | inr (result, at_end) ↦ unlocked s j result at_end
    | inl running ↦ after_move s j running (
        give_back n (moved_to s j) j (omega (arith, within, moved_rank s j running))
          (moved_holds s j ∙ h))
  ]
