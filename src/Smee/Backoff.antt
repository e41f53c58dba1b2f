-- ===== src/Smee/Backoff.antt =====
-- The reconnect delays.
use Prim.Native.Nat.{min}
use autoscaler.Common.{
  All, Bool, List, [], ap, arith, false, leb_ℤ, pos, refl, suc, true, ℕ, ℤ, ◌*◌, ◌-ℤ◌, ◌^◌, ◌∷◌,
  ◌≡◌, ◌≤◌,
}
use autoscaler.Env.{Env, read_clock}
use autoscaler.Smee.{
  cap_duration, client_rounds, client_run, delays, max_backoff, reconnect, second,
}
use autoscaler.Text.{Bytes}
use autoscaler.World.{M, Machine, pure, ◌>>=◌, ◌>>◌}

-- Every delay of a list is within these bounds.

abbrev pub Within : ℕ → ℕ → List ℕ → Type 0
Within low high [] = Unit {0}
Within low high (d ∷ ds) = (low ≤ d) × (d ≤ high) × Within low high ds

-- From a delay within these bounds, every delay is within them.
pub delays-Within :
    (backoff : ℕ) (ups : List ℤ)
    → second ≤ backoff
    → backoff ≤ max_backoff
    → Within second max_backoff (delays backoff ups)
unfolding delays reconnect cap_duration
delays-Within backoff [] low high = tt
delays-Within backoff (up ∷ ups) low high =
    ground (arith, delays-Within (reconnect up backoff).1 ups (ground arith) (ground arith))

-- The doubling of one second, cut at the longest delay.
abbrev pub doubled : ℕ → ℕ
doubled k = min max_backoff (second * 2 ^ k)

abbrev pub escalation : ℕ → List ℤ → List ℕ
escalation k [] = []
escalation k (up ∷ ups) = doubled k ∷ escalation (suc k) ups

abbrev pub Short : ℤ → Type 0
Short up = leb_ℤ (pos max_backoff) up ≡ false

doubled-suc : (k : ℕ) → cap_duration (doubled k * 2) max_backoff ≡ doubled (suc k)
unfolding cap_duration
doubled-suc k = ground (arith, pow_lem)
  where
    pow_lem : 2 ^ suc k ≡ 2 ^ k * 2
    pow_lem = omega arith

-- While no connection lasts for 30 seconds, the delays double from a power of two of a second on,
-- and stay at 30 seconds once they reach it.
pub delays-escalation :
    (k : ℕ) (ups : List ℤ) → All Short ups → delays (doubled k) ups ≡ escalation k ups
unfolding delays reconnect cap_duration
delays-escalation k [] h = refl
delays-escalation k (up ∷ ups) h =
    ground (arith, h.0, doubled-suc k, delays-escalation (suc k) ups h.1)

-- One connection, between two readings of the clock.
abbrev connection : Env → M Bytes → M ℤ
connection e attempt = do
  connected_at ← read_clock e
  attempt
  closed_at ← read_clock e
  pure (closed_at -ℤ connected_at)

-- The loop waits for the delays of its connections.
client_rounds-delays :
    (e : Env) (attempt : M Bytes) (backoff : ℕ) (rounds : List (Bool × Bool)) (m : Machine)
    → (ups : List ℤ) × ((client_rounds e attempt backoff rounds m).0 ≡ delays backoff ups)
unfolding client_rounds delays
client_rounds-delays e attempt backoff [] m = ([], refl)
client_rounds-delays e attempt backoff ((true, later) ∷ more) m = ([], refl)
client_rounds-delays e attempt backoff ((false, true) ∷ more) m =
    ((connection e attempt m).0 ∷ [], refl)
client_rounds-delays e attempt backoff ((false, false) ∷ more) m =
    let closed = connection e attempt m in
    let round = reconnect closed.0 backoff in
    let (ups, same) = client_rounds-delays e attempt round.1 more closed.1 in
    (closed.0 ∷ ups, ap (λ ds. round.0 ∷ ds) same)

-- Every delay that Run waits for lies between one second and 30 seconds, however long the
-- connections last, whatever they do and whenever the context is done.
pub client_run-Within :
    (e : Env) (attempt : M Bytes) (rounds : List (Bool × Bool)) (m : Machine)
    → Within second max_backoff (client_run e attempt rounds m).0
unfolding client_run
client_run-Within e attempt rounds m =
    let (ups, same) = client_rounds-delays e attempt second rounds m in
    rw same (delays-Within second ups (omega arith) (omega arith))
