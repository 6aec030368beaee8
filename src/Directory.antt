-- ===== src/Directory.antt =====
-- `get_file` and `dispatch_threads` of src/server/main.c: the threads that share the directory of
-- job files. `readdir` gives the names of the directory one after the other; a name stands for what
-- `d_name` is while its job runs.
pub mod Entries
use so_proj.Base.{
  ℕ, Bool, true, false, List, [], ◌∷◌, ◌++◌, Option, none, some, if◌then◌else◌, Bytes, set, get_or,
  replicate,
}
use so_proj.Entries.{entry_files}
use so_proj.Jobs.{Job}
use so_proj.Operations.{Store}

pub record Found : Type 0 where
  pub d_name : Bytes
  pub in_path : Bytes
  pub out_path : Bytes

-- The loop from one `readdir` to the next job, under `directory_mutex`: the job, and the names left.
unfoldable pub next_job : Bytes → List Bytes → Option (Found × List Bytes)
next_job dir [] = none
next_job dir (d_name ∷ entries) = elim (entry_files dir d_name) [
  | none ↦ next_job dir entries
  | some (in_path, out_path) ↦
      some (record { d_name = d_name; in_path = in_path; out_path = out_path }, entries)
]

-- The contents of the files that can be opened, and whether a path can be created.
pub record Files : Type 0 where
  pub reads : Bytes → Option Bytes
  pub creates : Bytes → Bool

-- A job that a thread runs: the name and the path of its results, what belongs to it alone in
-- `run_job`, and the commands left.
pub record Task : Type 0 where
  pub entry : Bytes
  pub out_path : Bytes
  pub out : Bytes
  pub file_backups : ℕ
  pub filename : Bytes
  pub input : Bytes

abbrev pub task : Found → Bytes → Task
task f text = record {
  entry = f.d_name;
  out_path = f.out_path;
  out = [];
  file_backups = 0;
  filename = f.d_name;
  input = text;
}

-- The two calls of `open`: none if one of them fails.
abbrev pub open_job : Files → Found → Option Task
open_job files f = elim (files.reads f.in_path) [
  | none ↦ none
  | some text ↦ if files.creates f.out_path then some (task f text) else none
]

-- Where a thread stands: before it takes `directory_mutex`, in `run_job`, or at its end.
pub data Worker : Type 0 where
  waiting gone : Worker
  working : (t : Task) → Worker

abbrev pub worker_at : List Worker → ℕ → Worker
worker_at workers i = get_or workers i gone
