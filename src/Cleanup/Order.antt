-- ===== src/Cleanup/Order.antt =====
-- internal/cleanup/cleanup.go: the order in which the goroutines of a cleanup tick finish.
use mathlib.Core.List.{Permᴰ}
use autoscaler.Cleanup.{RepoResult, add_result, clean_repos, cleanup_repo}
use autoscaler.Common.{List, [], ap, arith, inl, inr, refl, sym, ◌∙◌, ◌∷◌, ◌≡◌}
use autoscaler.Config.{RepoConfig}
use autoscaler.Env.{Env}
use autoscaler.World.{Fallible, Fallible-cases, Machine, Spawner, Summary, err, ok}

-- What a finished goroutine adds; one that fails adds nothing.
abbrev added : Fallible RepoResult → Summary → Summary
added (ok r) s = add_result s r
added (err x) s = s

added_comm : (a b : Fallible RepoResult) (s : Summary) → added b (added a s) ≡ added a (added b s)
unfolding add_result
added_comm (ok a) (ok b) s = ground arith
added_comm (err x) b s = refl
added_comm (ok a) (err x) s = refl

module _ (e : Env) (sp : Spawner) (answer : RepoConfig → Fallible RepoResult)
    (steady : (repo : RepoConfig) (m : Machine) → (cleanup_repo e sp repo m).0 ≡ answer repo) where
  clean_repos-cons :
      (repo : RepoConfig) (repos : List RepoConfig) (s : Summary) (m : Machine)
      → clean_repos e sp (repo ∷ repos) s m
        ≡ clean_repos e sp repos (added (answer repo) s) (cleanup_repo e sp repo m).1
  unfolding clean_repos
  clean_repos-cons repo repos s m = elim (Fallible-cases (answer repo)) [
    | inl (r, there) ↦ ground (arith, steady repo m, there)
    | inr (x, failed) ↦ ground (arith, steady repo m, failed)
  ]

  abbrev summary_of : List RepoConfig → Summary → Summary
  summary_of [] s = s
  summary_of (repo ∷ repos) s = summary_of repos (added (answer repo) s)

  clean_repos-eq-summary_of :
      (repos : List RepoConfig) (s : Summary) (m : Machine)
      → (clean_repos e sp repos s m).0 ≡ summary_of repos s
  unfolding clean_repos
  clean_repos-eq-summary_of [] s m = refl
  clean_repos-eq-summary_of (repo ∷ repos) s m =
      ap (λ r. r.0) (clean_repos-cons repo repos s m)
      ∙ clean_repos-eq-summary_of repos (added (answer repo) s) (cleanup_repo e sp repo m).1

  summary_of-Permᴰ :
      {order order' : List RepoConfig} (s : Summary)
      → Permᴰ order order'
      → summary_of order s ≡ summary_of order' s
  summary_of-Permᴰ s Permᴰ.nil = refl
  summary_of-Permᴰ s (Permᴰ.cons {a} {b} {l₁} {l₂} same p) =
      summary_of-Permᴰ (added (answer a) s) p ∙ ap (λ r. summary_of l₂ (added (answer r) s)) same
  summary_of-Permᴰ s (Permᴰ.swap {a} {b} {a'} {b'} {l} one two) =
      ap (summary_of l) (added_comm (answer a) (answer b) s)
      ∙ ap (λ r. summary_of l (added (answer a) (added (answer r) s))) two
      ∙ ap (λ r. summary_of l (added (answer r) (added (answer a') s))) one
  summary_of-Permᴰ s (Permᴰ.trans p q) = summary_of-Permᴰ s p ∙ summary_of-Permᴰ s q

  -- Where what the pass over a repository returns does not depend on the history, a tick counts the
  -- same ghosts, cancelled runs, deleted and stuck runners, whatever the order of its goroutines.
  pub clean_repos_any_order :
      (order order' : List RepoConfig) (s : Summary) (m m' : Machine)
      → Permᴰ order order'
      → (clean_repos e sp order s m).0 ≡ (clean_repos e sp order' s m').0
  clean_repos_any_order order order' s m m' p =
      clean_repos-eq-summary_of order s m
      ∙ summary_of-Permᴰ s p
      ∙ sym (clean_repos-eq-summary_of order' s m')
