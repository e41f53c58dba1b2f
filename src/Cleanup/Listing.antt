-- ===== src/Cleanup/Listing.antt =====
-- What docker prints about the containers of the host, and what the listing reads.
use autoscaler.Cleanup.{
  LocalContainer, list_args, list_managed_containers, parse_lines, resolve_states, three_parts,
  with_states,
}
use autoscaler.Common.{
  ==_iff, All, List, [], ap, append-nil, arith, length, map, none, refl, some, subst, ◌++◌, ◌∙◌,
  ◌∷◌, ◌≡◌,
}
use autoscaler.Env.{Env}
use autoscaler.Spawner.{inspect_args}
use autoscaler.Text.{Bytes, split, split_n, trim_space}
use autoscaler.Text.Lines.{
  Ends, Ends-append, Ends-word, IsWord, Lacks, Lacks-append, Lacks-newline, Starts, Starts-word,
  lines_lem, not_empty, printed, split_at_most-part, split_at_most-rest, trim-word,
}
use autoscaler.World.{DockerAnswer, Machine, Spawner, docker, ok}

-- A container as docker names it: no field is empty or holds white space, and the first two hold no
-- separator.
abbrev pub IsNamed : LocalContainer → Type 0
IsNamed c =
    IsWord c.id
    × IsWord c.name
    × IsWord c.repo
    × IsWord c.state
    × Lacks b'|' c.id
    × Lacks b'|' c.name

abbrev pub ps_line : LocalContainer → Bytes
ps_line c = c.id ++ (b'|' ∷ (c.name ++ (b'|' ∷ c.repo)))

abbrev stateless : LocalContainer → LocalContainer
stateless c = record c { state = [] }

three_parts_lem :
    (c : LocalContainer) → IsNamed c → three_parts (split_n (ps_line c) b'|' 2) ≡ some (stateless c)
unfolding split_n
three_parts_lem c h = ap three_parts (
    split_at_most-part 1 b'|' [] c.id (c.name ++ (b'|' ∷ c.repo)) (h.4)
    ∙ ap (λ r. c.id ∷ r)
        (split_at_most-part 0 b'|' [] c.name c.repo (h.5)
          ∙ ap (λ r. c.name ∷ r) (split_at_most-rest b'|' c.repo)))

ps_line-Starts : (c : LocalContainer) → IsNamed c → Starts (ps_line c)
ps_line-Starts c h = Starts-word c.id (b'|' ∷ (c.name ++ (b'|' ∷ c.repo))) h.0

parse_lines-ps_line :
    (cs : List LocalContainer) → All IsNamed cs → parse_lines (map ps_line cs) ≡ map stateless cs
unfolding parse_lines
parse_lines-ps_line [] h = refl
parse_lines-ps_line (c ∷ cs) h =
    rw (not_empty (ps_line c) (ps_line-Starts c h.0), three_parts_lem c h.0)
      (ap (λ r. stateless c ∷ r) (parse_lines-ps_line cs h.1))

ps_line-Ends : (c : LocalContainer) → IsNamed c → Ends (ps_line c)
ps_line-Ends c h = Ends-append c.id (b'|' ∷ (c.name ++ (b'|' ∷ c.repo))) (
    Ends-append (b'|' ∷ []) (c.name ++ (b'|' ∷ c.repo))
      (Ends-append c.name (b'|' ∷ c.repo) (Ends-append (b'|' ∷ []) c.repo (Ends-word c.repo h.2))))

ps_line-Lacks : (c : LocalContainer) → IsNamed c → Lacks b'\n' (ps_line c)
ps_line-Lacks c h =
    Lacks-append b'\n' c.id (b'|' ∷ (c.name ++ (b'|' ∷ c.repo))) (Lacks-newline c.id h.0.1) (
      refl,
      Lacks-append b'\n' c.name (b'|' ∷ c.repo) (Lacks-newline c.name h.1.1)
          (refl, Lacks-newline c.repo h.2.1),
    )

state-Starts : (c : LocalContainer) → IsNamed c → Starts c.state
state-Starts c h = subst Starts (append-nil c.state) (Starts-word c.state [] h.3)

with_states_lem :
    (cs : List LocalContainer)
    → All IsNamed cs
    → with_states (map stateless cs) (map (λ c. c.state) cs) ≡ cs
unfolding with_states
with_states_lem [] h = refl
with_states_lem (c ∷ cs) h = rw (trim-word c.state h.0.3) (ap (λ r. c ∷ r) (with_states_lem cs h.1))

length-map-map :
    (cs : List LocalContainer) → length (map (λ c. c.state) cs) ≡ length (map stateless cs)
length-map-map [] = refl
length-map-map (c ∷ cs) = omega (arith, length-map-map cs)

resolve_states_lem :
    (c : LocalContainer) (cs : List LocalContainer)
    → All IsNamed (c ∷ cs)
    → resolve_states (map stateless (c ∷ cs)) (printed (map (λ d. d.state) (c ∷ cs))) ≡ c ∷ cs
resolve_states_lem c cs h =
    rw
      (
        lines_lem IsNamed (λ d. d.state) c cs state-Starts (λ d k. Ends-word d.state k.3)
            (λ d k. Lacks-newline d.state k.3.1) h,
        (==_iff _ _).1 (length-map-map (c ∷ cs)),
      )
      (with_states_lem (c ∷ cs) h)

module _ (e : Env) (sp : Spawner) (m : Machine) (c : LocalContainer)
    (cs : List LocalContainer) where
  abbrev pub listed_by : DockerAnswer
  listed_by = e.run_docker m.trace list_args

  abbrev pub inspected_by : DockerAnswer
  inspected_by =
      e.run_docker (docker list_args listed_by ∷ m.trace) (inspect_args (map (λ l. l.id) (c ∷ cs)))

  list_eq :
      IsNamed c
      → All IsNamed cs
      → listed_by.stdout ≡ printed (map ps_line (c ∷ cs))
      → parse_lines (split (trim_space listed_by.stdout) b'\n') ≡ map stateless (c ∷ cs)
  list_eq h k output =
      ap (λ s. parse_lines (split (trim_space s) b'\n')) output
      ∙ ap parse_lines
          (lines_lem IsNamed ps_line c cs ps_line-Starts ps_line-Ends ps_line-Lacks (h, k))
      ∙ parse_lines-ps_line (c ∷ cs) (h, k)

  same_ids : (ds : List LocalContainer) → map (λ l. l.id) (map stateless ds) ≡ map (λ l. l.id) ds
  same_ids [] = refl
  same_ids (d ∷ ds) = ap (λ r. d.id ∷ r) (same_ids ds)

  -- Where docker ps prints a line for each of some containers, and docker inspect a line with each
  -- one's state, the cleaner reads exactly these containers with these states, in order. No field
  -- is empty or holds white space, and no id or name holds the separator.
  pub list_managed-printed :
      IsNamed c
      → All IsNamed cs
      → listed_by.error ≡ none
      → listed_by.stdout ≡ printed (map ps_line (c ∷ cs))
      → inspected_by.error ≡ none
      → inspected_by.stdout ≡ printed (map (λ d. d.state) (c ∷ cs))
      → (list_managed_containers e sp m).0 ≡ ok (c ∷ cs)
  unfolding list_managed_containers
  list_managed-printed h k listed output inspected states = ground (
    arith,
    listed,
    list_eq h k output,
    same_ids cs,
    inspected,
    states,
    resolve_states_lem c cs (h, k),
  )
