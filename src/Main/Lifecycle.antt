-- ===== src/Main/Lifecycle.antt =====
-- cmd/autoscaler/main.go: how the process ends. The goroutine of main runs the relay's client, then
-- waits for the others until a timeout.
use autoscaler.Common.{Bool, Option, false, none, some, suc, true, ℕ, ◌≡◌, ◌≤◌, ◌⊎◌}
use autoscaler.Main.{Startup, exit_status, exits, starts}
use autoscaler.Text.{Bytes, codes}

-- How `runHTTPServer` returns: `ListenAndServe` ended by itself, or `Shutdown` was called.
pub data HttpEnd : Type 0 where
  ended : (failed : Option Bytes) → HttpEnd
  shut : (failed : Option Bytes) → HttpEnd

-- What the goroutine of main does: the relay's client, the wait, and the end of the process, with
-- its status and whether the wait group was empty.
pub data Phase : Type 0 where
  following : Phase
  draining : (smee_error : Option (Bytes × Bool)) → Phase
  exited : (status : ℕ) (drained : Bool) → Phase

-- `canceled` is the context's; the next three say which goroutines of the wait group run. `untracked`
-- counts those that nobody waits for: the handlers of requests, which outlive a `Shutdown` that
-- fails, and the manual reconciles that a handler starts (internal/portal/portal.go).
pub record Life : Type 0 where
  pub canceled : Bool
  pub reconciling : Bool
  pub cleaning : Bool
  pub serving : Bool
  pub untracked : ℕ
  pub phase : Phase

-- What is running behind `start`.
unfoldable pub begun : Startup → Option Life
begun (exits status) = none
begun (starts cfg sp m loops interval cleanup_loop) = some (record {
  canceled = false;
  reconciling = loops;
  cleaning = elim cleanup_loop [ none ↦ false | some i ↦ true ];
  serving = true;
  untracked = 0;
  phase = following;
})

-- The select of `runHTTPServer`: the server may end by itself at any time, and is shut down only
-- when the context is done.
abbrev pub MayReturn : Bool → HttpEnd → Type 0
MayReturn canceled (ended failed) = Unit
MayReturn canceled (shut failed) = canceled ≡ true

-- `Client.Run` returns only the error of the context, and that of a signal is `context.Canceled`.
abbrev pub canceled_error : Option (Bytes × Bool)
canceled_error = some (codes "context canceled", true)

abbrev pub is_over : Phase → Bool
is_over (exited status drained) = true
is_over _ = false

-- The steps, as long as the process is there.
pub data LifeStep (s : Life) : Life → Type 0 where
  signal : is_over s.phase ≡ false → LifeStep s (record s { canceled = true })
  reconciler_ends :
      is_over s.phase ≡ false
      → s.reconciling ≡ true
      → s.canceled ≡ true
      → LifeStep s (record s { reconciling = false })
  cleaner_ends :
      is_over s.phase ≡ false
      → s.cleaning ≡ true
      → s.canceled ≡ true
      → LifeStep s (record s { cleaning = false })
  server_ends :
      (how : HttpEnd)
      → is_over s.phase ≡ false
      → s.serving ≡ true
      → MayReturn s.canceled how
      → LifeStep s (record s { serving = false })
  -- A request comes in, or a handler that runs starts a reconcile.
  untracked_starts :
      is_over s.phase ≡ false
      → (s.serving ≡ true) ⊎ (1 ≤ s.untracked)
      → LifeStep s (record s { untracked = suc s.untracked })
  untracked_ends :
      (n : ℕ)
      → is_over s.phase ≡ false
      → s.untracked ≡ suc n
      → LifeStep s (record s { untracked = n })
  client_ends :
      s.phase ≡ following
      → s.canceled ≡ true
      → LifeStep s (record s { phase = draining canceled_error })
  all_drained :
      (x : Option (Bytes × Bool))
      → s.phase ≡ draining x
      → s.reconciling ≡ false
      → s.cleaning ≡ false
      → s.serving ≡ false
      → LifeStep s (record s { phase = exited (exit_status x) true })
  timed_out :
      (x : Option (Bytes × Bool))
      → s.phase ≡ draining x
      → LifeStep s (record s { phase = exited (exit_status x) false })
