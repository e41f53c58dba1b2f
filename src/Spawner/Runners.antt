-- ===== src/Spawner/Runners.antt =====
-- The counts of a repository's runners, against its listing.
use autoscaler.Common.{Bool, List, [], arith, keep, length, not, ◌&&◌, ◌+◌, ◌∷◌, ◌≡◌, ◌≤◌}
use autoscaler.Env.{CountedRunner}
use autoscaler.Spawner.{RunnerCounts, count_runner, count_runners, no_counts}
use autoscaler.Text.{bytes_eq, codes, has_prefix}

abbrev pub is_auto : CountedRunner → Bool
is_auto r = has_prefix r.name (codes "auto-")

abbrev pub is_online : CountedRunner → Bool
is_online r = is_auto r && bytes_eq r.status (codes "online")

abbrev pub is_busy : CountedRunner → Bool
is_busy r = is_online r && r.busy

abbrev pub is_dead : CountedRunner → Bool
is_dead r = is_auto r && not (bytes_eq r.status (codes "online"))

-- How many of the listed runners are ours and online, of these busy, and ours and not online.
abbrev pub Counts : RunnerCounts → List CountedRunner → Type 0
Counts n rs =
    (n.online ≡ length (keep is_online rs))
    × (n.busy ≡ length (keep is_busy rs))
    × (n.ghost ≡ length (keep is_dead rs))

count_runners_lem :
    (n : RunnerCounts) (rs : List CountedRunner)
    → let r = count_runners n rs in
      (r.online ≡ n.online + length (keep is_online rs))
      × (r.busy ≡ n.busy + length (keep is_busy rs))
      × (r.ghost ≡ n.ghost + length (keep is_dead rs))
unfolding count_runners count_runner
count_runners_lem n [] = omega arith
count_runners_lem n (r ∷ rs) = ground (arith, count_runners_lem (count_runner n r) rs)

pub count_runners-Counts : (rs : List CountedRunner) → Counts (count_runners no_counts rs) rs
count_runners-Counts rs = omega (arith, count_runners_lem no_counts rs)

-- A busy runner is online, and each of our runners is online or a ghost.
pub busy-le-online :
    (rs : List CountedRunner) → length (keep is_busy rs) ≤ length (keep is_online rs)
busy-le-online [] = omega arith
busy-le-online (r ∷ rs) = ground (arith, busy-le-online rs)

pub online_ghosts :
    (rs : List CountedRunner)
    → length (keep is_online rs) + length (keep is_dead rs) ≡ length (keep is_auto rs)
online_ghosts [] = omega arith
online_ghosts (r ∷ rs) = ground (arith, online_ghosts rs)
