-- ===== src/Cleanup/Names.antt =====
-- The name that `Spawn` gives to a runner, as docker, the cleaner and the portal see it.
use autoscaler.Cleanup.{is_ghost}
use autoscaler.Common.{
  All, All-append, Bool, [], arith, if◌then◌else◌, not, refl, true, ℕ, ℤ, ◌%◌, ◌++◌, ◌+◌, ◌/◌, ◌<◌,
  ◌∷◌, ◌≡◌,
}
use autoscaler.Config.{RepoConfig}
use autoscaler.Spawner.{
  RunnerCounts, auto_prefix, count_runner, is_name_byte, runner_name, runner_tag, sanitize,
}
use autoscaler.Text.{Bytes, bytes_eq, codes, has_prefix, hex_digit, hex_encode, strip_prefix}
use autoscaler.Text.Laws.{IsBytes}

-- Only bytes that the name of a container may hold.
abbrev pub IsName : Bytes → Type 0
IsName = All (λ c. is_name_byte c ≡ true)

sanitize-IsName : (s : Bytes) → IsName (sanitize s)
unfolding sanitize
sanitize-IsName [] = tt
sanitize-IsName (c ∷ s) = ground (arith, sanitize-IsName s)

hex_digit_lem : (n : ℕ) → n < 16 → is_name_byte (hex_digit n) ≡ true
unfolding hex_digit
hex_digit_lem n h = ground arith

hex_encode-IsName : (s : Bytes) → IsBytes s → IsName (hex_encode s)
unfolding hex_encode
hex_encode-IsName [] h = tt
hex_encode-IsName (c ∷ s) h = (
  hex_digit_lem (c / 16) (omega arith),
  (hex_digit_lem (c % 16) (omega arith), hex_encode-IsName s h.1),
)

IsName-append : (s t : Bytes) → IsName s → IsName t → IsName (s ++ t)
IsName-append s t h k = All-append (λ c. is_name_byte c ≡ true) s t h k

begins : (s : Bytes) → has_prefix (auto_prefix ++ s) (codes "auto-") ≡ true
unfolding has_prefix strip_prefix
begins s = refl

-- The name of a runner, made of a repository's tag and of random bytes, holds only letters, digits,
-- - and _, and begins with auto-. A registered runner of that name is one of ours for the cleaner
-- and for the portal's counts: for the cleaner it is a ghost exactly if it is not online, and the
-- counts move by one, that of the online runners (with that of the busy ones, if it is busy) if it
-- is online, and that of the ghosts otherwise.
pub runner_name-IsName :
    (repo : RepoConfig) (suffix : Bytes) (id : ℤ) (status : Bytes) (busy : Bool) (n : RunnerCounts)
    → IsBytes suffix
    → let name = runner_name repo suffix in
      IsName name
      × (has_prefix name (codes "auto-") ≡ true)
      × (is_ghost (record { id = id; name = name; status = status; busy = busy })
          ≡ not (bytes_eq status (codes "online")))
      × (count_runner n (record { name = name; status = status; busy = busy }) ≡ (
          if bytes_eq status (codes "online")
          then record n { online = n.online + 1; busy = if busy then n.busy + 1 else n.busy }
          else record n { ghost = n.ghost + 1 }))
unfolding count_runner
runner_name-IsName repo suffix id status busy n h =
    let own = begins (sanitize (runner_tag repo) ++ (codes "-" ++ hex_encode suffix)) in
    (
      IsName-append auto_prefix (sanitize (runner_tag repo) ++ (codes "-" ++ hex_encode suffix))
          (refl, (refl, (refl, (refl, (refl, tt)))))
          (IsName-append (sanitize (runner_tag repo)) (codes "-" ++ hex_encode suffix)
            (sanitize-IsName (runner_tag repo)) (refl, hex_encode-IsName suffix h)),
      own,
      ground (arith, own),
      ground (arith, own),
    )
