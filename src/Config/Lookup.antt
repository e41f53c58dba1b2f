-- ===== src/Config/Lookup.antt =====
-- `RepoByName` against its description: the first repository of the name.
use autoscaler.Common.{
  All, Bool-cases, List, [], ap, arith, inl, inr, none, some, ◌++◌, ◌∷◌, ◌≡◌, ◌≢◌,
}
use autoscaler.Config.{RepoConfig, repo_by_name}
use autoscaler.Text.{Bytes, bytes_eq}
use autoscaler.Text.Equality.{bytes_eq_iff, eq_of_bytes_eq}

-- r is the first of rs with that name.
pub record FirstNamed (rs : List RepoConfig) (name : Bytes) (r : RepoConfig) : Type 0 where
  pub before : List RepoConfig
  pub after : List RepoConfig
  pub parts : rs ≡ before ++ r ∷ after
  pub others : All (λ q. q.name ≢ name) before
  pub named : r.name ≡ name

repo_by_name-FirstNamed :
    (rs : List RepoConfig) (name : Bytes) {r : RepoConfig}
    → repo_by_name rs name ≡ some r
    → FirstNamed rs name r
unfolding repo_by_name
repo_by_name-FirstNamed [] name h = cc
repo_by_name-FirstNamed (q ∷ rs) name {r} h = elim (Bool-cases (bytes_eq q.name name)) [
  | inl same ↦ record {
    before = [];
    after = rs;
    parts = ground arith;
    others = tt;
    named = ground (arith, eq_of_bytes_eq q.name name same);
  }
  | inr other ↦
      let rest : FirstNamed rs name r = repo_by_name-FirstNamed rs name (ground arith) in
      record {
        before = q ∷ rest.before;
        after = rest.after;
        parts = ap (◌∷◌ q) rest.parts;
        others = (λ e. ground (arith, (bytes_eq_iff q.name name).1 e), rest.others);
        named = rest.named;
      }
]

repo_by_name-none :
    (rs : List RepoConfig) (name : Bytes)
    → repo_by_name rs name ≡ none
    → All (λ q. q.name ≢ name) rs
unfolding repo_by_name
repo_by_name-none [] name h = tt
repo_by_name-none (q ∷ rs) name h =
    (λ e. ground (arith, (bytes_eq_iff q.name name).1 e), repo_by_name-none rs name (ground arith))

-- `RepoByName` finds the first repository of the name, and finds none only if no repository has it.
pub repo_by_name_lem :
    (rs : List RepoConfig) (name : Bytes)
    → ((r : RepoConfig) → repo_by_name rs name ≡ some r → FirstNamed rs name r)
      × (repo_by_name rs name ≡ none → All (λ q. q.name ≢ name) rs)
repo_by_name_lem rs name = (λ r h. repo_by_name-FirstNamed rs name h, repo_by_name-none rs name)
