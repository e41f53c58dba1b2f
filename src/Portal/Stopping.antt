-- ===== src/Portal/Stopping.antt =====
-- Which containers the portal can stop, and what it answers.
use autoscaler.Common.{Bool-cases, Option-cases, arith, inl, inr, none, true, ℕ, ◌↔◌, ◌≡◌, ◌⊎◌}
use autoscaler.Env.{Env, exec_docker}
use autoscaler.Portal.{PortalRequest, Reply, handle_stop, refused, stop_args, stopped}
use autoscaler.Text.{Bytes, codes, has_prefix, is_empty}
use autoscaler.World.{Machine}

module _ (e : Env) where
  -- What a stop request does: nothing, or one `docker stop` of a container of the program.
  abbrev pub Stops : PortalRequest → Machine → Reply × Machine → Type 0
  Stops r m result =
      (((status : ℕ) × (text : Bytes) × (result.0 ≡ refused status text)) × (result.1 ≡ m))
      ⊎ ((r.is_post ≡ true)
          × (has_prefix r.name (codes "auto-") ≡ true)
          × (result.1 ≡ (exec_docker e (stop_args r.name) m).1)
          × ((result.0 ≡ stopped r.name) ↔ ((exec_docker e (stop_args r.name) m).0.error ≡ none)))

  -- A stop request is refused and changes nothing, or it is a POST for a name that begins with
  -- auto-, and runs docker stop for that name and no other command; the answer says that the
  -- container was stopped exactly if that command succeeded.
  pub handle_stop-Stops : (r : PortalRequest) (m : Machine) → Stops r m (handle_stop e r m)
  unfolding handle_stop
  handle_stop-Stops r m =
      let out = exec_docker e (stop_args r.name) m in
      elim (Bool-cases r.is_post) [
        | inr other ↦ inl ((405, codes "POST only", ground (arith, other)), ground (arith, other))
        | inl posted ↦ elim (Bool-cases (is_empty r.name)) [
          | inl empty ↦ inl (
            (400, codes "name required", ground (arith, posted, empty)),
            ground (arith, posted, empty),
          )
          | inr named ↦ elim (Bool-cases (has_prefix r.name (codes "auto-"))) [
            | inr foreign ↦ inl (
              (
                400,
                codes "only auto-* containers can be stopped via portal",
                ground (arith, posted, named, foreign),
              ),
              ground (arith, posted, named, foreign),
            )
            | inl own ↦ elim (Option-cases out.0.error) [
              | inl fine ↦ inr (
                posted,
                own,
                ground (arith, posted, named, own, fine),
                ground (arith, posted, named, own, fine),
              )
              | inr (x, failed) ↦ inr (
                posted,
                own,
                ground (arith, posted, named, own, failed),
                ground (arith, posted, named, own, failed),
              )
            ]
          ]
        ]
      ]
