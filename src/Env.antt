-- ===== src/Env.antt =====
-- The world as the program meets it: every answer is a function of the calls made before, so any
-- behaviour of Docker, of GitHub and of the operating system is one value of `Env`.
use autoscaler.Common.{Bool, List, Option, ℕ, ℤ, ◌∷◌}
use autoscaler.Text.{Bytes}
use autoscaler.World.{
  Body, DockerAnswer, Fallible, M, Request, Response, Trace, chmod, clock, close, create_temp,
  docker, http_do, random, remove, write_string,
}

-- The anonymous structs into which the answers of GitHub are decoded.
pub record IdleRunner : Type 0 where
  pub status : Bytes
  pub busy : Bool
  pub labels : List Bytes

pub record CountedRunner : Type 0 where
  pub name : Bytes
  pub status : Bytes
  pub busy : Bool

pub record ListedRunner : Type 0 where
  pub id : ℤ
  pub name : Bytes
  pub status : Bytes
  pub busy : Bool

pub record QueuedJob : Type 0 where
  pub status : Bytes
  pub labels : List Bytes

pub record RunningJob : Type 0 where
  pub runner_name : Bytes
  pub status : Bytes

-- What `Decode(&page)` leaves in `page`, and its error.
abbrev pub Decoded : Type 0 → Type 0
Decoded A = A × Option Bytes

pub record Env : Type 0 where
  -- Docker, GitHub and the operating system.
  pub run_docker : Trace → List Bytes → DockerAnswer
  pub do_http : Trace → Request → Fallible Response
  pub read_random : Trace → ℕ → Bytes
  pub make_temp : Trace → Bytes → Fallible Bytes
  pub set_mode : Trace → Bytes → ℕ → Option Bytes
  pub write_file : Trace → Bytes → Bytes → Option Bytes
  pub close_file : Trace → Bytes → Option Bytes
  pub remove_path : Trace → Bytes → Option Bytes
  pub now : Trace → ℤ
  -- The order in which Go ranges over a map with these keys.
  pub map_order : Trace → List ℤ → List ℤ
  -- Functions of the standard library whose tables or grammar are not spelled out.
  pub unicode_lower : Bytes → Bytes
  pub clean_path : Bytes → Bytes
  pub url_error : Bytes → Option Bytes
  pub rfc3339_nano : Bytes → Option ℤ
  pub rfc3339 : Bytes → Option ℤ
  pub hmac_sha256 : Bytes → Bytes → Bytes
  -- encoding/json, one decoder for each type that the program decodes into.
  pub idle_page : Body → Decoded (List IdleRunner)
  pub count_page : Body → Decoded (List CountedRunner)
  pub runner_page : Body → Decoded (List ListedRunner)
  pub name_page : Body → Decoded (List Bytes)
  pub run_page : Body → Decoded (List ℤ)
  pub queued_page : Body → Decoded (List QueuedJob)
  pub running_page : Body → Decoded (List RunningJob)
  pub total_page : Body → ℤ

module _ (e : Env) where
  abbrev pub exec_docker : List Bytes → M DockerAnswer
  exec_docker args m =
      let a = e.run_docker m.trace args in (a, record m { trace = docker args a ∷ m.trace })

  abbrev pub send : Request → M (Fallible Response)
  send req m = let a = e.do_http m.trace req in (a, record m { trace = http_do req a ∷ m.trace })

  abbrev pub rand_bytes : ℕ → M Bytes
  rand_bytes n m = let a = e.read_random m.trace n in (a, record m { trace = random n a ∷ m.trace })

  abbrev pub temp_file : Bytes → M (Fallible Bytes)
  temp_file pattern m =
      let a = e.make_temp m.trace pattern in
      (a, record m { trace = create_temp pattern a ∷ m.trace })

  abbrev pub chmod_file : Bytes → ℕ → M (Option Bytes)
  chmod_file path mode m =
      let a = e.set_mode m.trace path mode in (a, record m { trace = chmod path mode a ∷ m.trace })

  abbrev pub write_text : Bytes → Bytes → M (Option Bytes)
  write_text path text m =
      let a = e.write_file m.trace path text in
      (a, record m { trace = write_string path text a ∷ m.trace })

  abbrev pub close_handle : Bytes → M (Option Bytes)
  close_handle path m =
      let a = e.close_file m.trace path in (a, record m { trace = close path a ∷ m.trace })

  -- The wall clock, in nanoseconds.
  abbrev pub read_clock : M ℤ
  read_clock m = let a = e.now m.trace in (a, record m { trace = clock a ∷ m.trace })

  -- `os.Remove`, whose error is dropped everywhere.
  abbrev pub remove_file : Bytes → M (Unit {0})
  remove_file path m = (tt, record m { trace = remove path (e.remove_path m.trace path) ∷ m.trace })
