-- ===== src/Cleanup/Local.antt =====
-- internal/cleanup/cleanup.go: the containers of the host. `dockerOutput` is `exec_docker`, whose
-- output counts only where there is no error.
use autoscaler.Cleanup.Defs.{cleaner_get, default_local_grace, repo_url_of, update_cleaner}
use autoscaler.Common.{
  Bool, List, Option, [], false, if◌then◌else◌, leb_ℤ, length, ltb_ℤ, map, none, not, pos, some,
  suc, true, ℕ, ℤ, ◌&&◌, ◌++◌, ◌-ℤ◌, ◌==◌, ◌∷◌,
}
use autoscaler.Config.{RepoConfig}
use autoscaler.Env.{Env, exec_docker, read_clock}
use autoscaler.Spawner.{inspect_args, managed_label, repo_label_key}
use autoscaler.Text.{Bytes, bytes_eq, codes, elem, is_empty, split, split_n, trim_space}
use autoscaler.World.{Fallible, M, Machine, Spawner, err, increment, ok, pure, ◌>>=◌, ◌>>◌}

pub record LocalContainer : Type 0 where
  pub id : Bytes
  pub name : Bytes
  pub repo : Bytes
  pub state : Bytes

-- One line of `docker ps`: id, name and repository. A line with fewer parts is skipped.
abbrev pub three_parts : List Bytes → Option LocalContainer
three_parts (a ∷ b ∷ c ∷ rest) = some (record { id = a; name = b; repo = c; state = [] })
three_parts parts = none

unfoldable pub parse_lines : List Bytes → List LocalContainer
parse_lines [] = []
parse_lines (line ∷ lines) =
    let rest = parse_lines lines in
    if is_empty line
    then rest
    else elim (three_parts (split_n line b'|' 2)) [ none ↦ rest | some c ↦ c ∷ rest ]

-- `cs[i].state = strings.TrimSpace(states[i])`, for lists of one length.
unfoldable pub with_states : List LocalContainer → List Bytes → List LocalContainer
with_states [] states = []
with_states (c ∷ cs) [] = c ∷ cs
with_states (c ∷ cs) (s ∷ states) = record c { state = trim_space s } ∷ with_states cs states

abbrev pub resolve_states : List LocalContainer → Bytes → List LocalContainer
resolve_states cs out =
    let states = split (trim_space out) b'\n' in
    if length states == length cs then with_states cs states else cs

abbrev pub list_args : List Bytes
list_args =
    codes "ps"
    ∷ codes "-a"
    ∷ codes "--filter"
    ∷ (codes "label=" ++ managed_label)
    ∷ codes "--format"
    ∷ (codes "{{.ID}}|{{.Names}}|{{.Label \"" ++ (repo_label_key ++ codes "\"}}"))
    ∷ []

abbrev pub rm_args : Bytes → List Bytes
rm_args id = codes "rm" ∷ codes "-f" ∷ id ∷ []

abbrev pub created_args : Bytes → List Bytes
created_args id = codes "inspect" ∷ codes "--format" ∷ codes "{{.Created}}" ∷ id ∷ []

-- The names registered for a repository, as the map of the source: the latest entry of a name.
abbrev pub Registered : Type 0
Registered = List (Bytes × List Bytes)

unfoldable pub names_of : Registered → Bytes → Option (List Bytes)
names_of [] repo = none
names_of ((r, names) ∷ more) repo = if bytes_eq r repo then some names else names_of more repo

abbrev pub is_corpse : LocalContainer → Bool
is_corpse lc = not (is_empty lc.state) && not (bytes_eq lc.state (codes "running"))

module _ (e : Env) (sp : Spawner) where
  unfoldable pub list_managed_containers : M (Fallible (List LocalContainer))
  list_managed_containers = do
    listed ← exec_docker e list_args
    elim listed.error [
      | some x ↦ pure (err x)
      | none ↦ elim (parse_lines (split (trim_space listed.stdout) b'\n')) [
        | [] ↦ pure (ok [])
        | c ∷ cs ↦ do
          states ← exec_docker e (inspect_args (map (λ l. l.id) (c ∷ cs)))
          elim states.error [
            | some x ↦ pure (ok (c ∷ cs))
            | none ↦ pure (ok (resolve_states (c ∷ cs) states.stdout))
          ]
      ]
    ]

  -- `time.Parse` at both layouts, and `time.Since`.
  unfoldable pub container_age : Bytes → M (Fallible ℤ)
  container_age id = do
    created ← exec_docker e (created_args id)
    elim created.error [
      | some x ↦ pure (err x)
      | none ↦ elim (e.rfc3339_nano (trim_space created.stdout)) [
        | some t ↦ do clock_now ← read_clock e; pure (ok (clock_now -ℤ t))
        | none ↦ elim (e.rfc3339 (trim_space created.stdout)) [
          | some t ↦ do clock_now ← read_clock e; pure (ok (clock_now -ℤ t))
          | none ↦ pure (err (codes "parsing time"))
        ]
      ]
    ]

  unfoldable pub list_all_runner_names : RepoConfig → M (Fallible (List Bytes))
  list_all_runner_names repo = do
    body ← cleaner_get e sp (repo_url_of e sp repo (codes "/actions/runners?per_page=100"))
    elim body [
      | err x ↦ pure (err x)
      | ok b ↦ elim (e.name_page b).1 [ some x ↦ pure (err x) | none ↦ pure (ok (e.name_page b).0) ]
    ]

  -- The loop that asks for the registered names: a repository that cannot be read has no entry.
  unfoldable pub registered_names : List RepoConfig → Registered → M Registered
  registered_names [] known = pure known
  registered_names (repo ∷ repos) known = do
    names ← list_all_runner_names repo
    elim names [
      | err x ↦ registered_names repos known
      | ok l ↦ registered_names repos ((repo.name, l) ∷ known)
    ]

  -- `docker rm -f`, and the counter.
  unfoldable pub remove_container : LocalContainer → M Bool
  remove_container lc = do
    out ← exec_docker e (rm_args lc.id)
    elim out.error [
      | some x ↦ pure false
      | none ↦ do
        update_cleaner (λ c. record c { local_ghosts_reaped = increment c.local_ghosts_reaped })
        pure true
    ]

  -- One round of the loop over the containers: whether the container was reaped.
  unfoldable pub reap_one : ℤ → Registered → LocalContainer → M Bool
  reap_one grace registered lc = elim (is_corpse lc) [
    | true ↦ remove_container lc
    | false ↦ elim (names_of registered lc.repo) [
      | none ↦ pure false
      | some names ↦ elim (elem lc.name names) [
        | true ↦ pure false
        | false ↦ do
          age ← container_age lc.id
          elim age [
            | err x ↦ pure false
            | ok a ↦ elim (ltb_ℤ a grace) [ true ↦ pure false | false ↦ remove_container lc ]
          ]
      ]
    ]
  ]

  unfoldable pub reap_all : ℤ → Registered → List LocalContainer → M ℕ
  reap_all grace registered [] = pure 0
  reap_all grace registered (lc ∷ lcs) = do
    reaped ← reap_one grace registered lc
    n ← reap_all grace registered lcs
    pure (if reaped then suc n else n)

  abbrev pub grace_of : Machine → ℤ
  grace_of m =
      if leb_ℤ m.cleaner.local_grace (pos 0) then default_local_grace else m.cleaner.local_grace

  unfoldable pub reap_local_ghosts : List RepoConfig → M ℕ
  reap_local_ghosts repos = do
    locals ← list_managed_containers
    elim locals [
      | err x ↦ pure 0
      | ok [] ↦ pure 0
      | ok (c ∷ cs) ↦ do
        registered ← registered_names repos []
        λ m. reap_all (grace_of m) registered (c ∷ cs) m
    ]
