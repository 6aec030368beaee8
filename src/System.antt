-- ===== src/System.antt =====
-- The server as a whole: the threads of src/server/main.c, which run jobs on the store, and its
-- `handle_fifo`, which lets clients in, beside the sessions of src/server/client.c. One command of a job is a step: the calls on the store run under
-- `tablelock`, and a backup counts itself under `n_current_backups_lock`. A job that is opened shares
-- nothing else until its thread takes `directory_mutex` again.
pub mod Sessions
pub mod Registrations
pub mod States
pub mod Invariant
use so_proj.Base.{
  ℕ, zero, suc, ◌<◌, ◌≡◌, Bool, true, List, [], ◌∷◌, ◌++◌, Option, none, some, length, set,
  replicate, Bytes, Run, ok, ℤ,
}
use so_proj.Directory.{
  Found, Files, Task, Worker, waiting, gone, working, next_job, open_job, worker_at,
}
use so_proj.Fifo.{fifo_round}
use so_proj.Jobs.{Settings, Job, serve}
use so_proj.Operations.Files.{Backup}
use so_proj.Operations.{Store, kvs_init}
use so_proj.Parser.{get_next}
use so_proj.Session.{World}
use so_proj.Slots.{Server, Slot, all_start, start_client_threads}
use so_proj.Slots

-- The sessions and the store, the names that `readdir` has not given yet, the threads, the backups
-- counted and their files, the jobs that have ended, and those whose files could not be opened.
pub record System : Type 0 where
  pub server : Server
  pub entries : List Bytes
  pub workers : List Worker
  pub active_backups : ℕ
  pub backups : List Backup
  pub finished : List Task
  pub failures : List Bytes

-- The job as `run_job` has it.
abbrev pub job_of : System → Task → Job World
job_of s t = record {
  store = s.server.store;
  out = t.out;
  backups = s.backups;
  active_backups = s.active_backups;
  file_backups = t.file_backups;
  filename = t.filename;
}

abbrev pub task_of : Task → Job World → Bytes → Task
task_of t j rest = record t {
  out = j.out;
  file_backups = j.file_backups;
  filename = j.filename;
  input = rest;
}

-- The shared variables as a round has left them, with the thread `i` at `w`.
abbrev pub after_round : System → ℕ → Worker → Job World → System
after_round s i w j =
    let server = s.server in
    record s {
      server = record server { store = j.store };
      active_backups = j.active_backups;
      backups = j.backups;
      workers = set s.workers i w;
    }

-- The thread `i` has found a job: it runs it, or it ends if a file cannot be opened.
abbrev pub taken : System → ℕ → Found → List Bytes → Option Task → System
taken s i f rest (some t) = record s { entries = rest; workers = set s.workers i (working t) }
taken s i f rest none = record s {
  entries = rest;
  workers = set s.workers i gone;
  failures = s.failures ++ (f.d_name ∷ []);
}

-- A step of a session, or the signal.
abbrev pub IsSession : {s s' : Server} → Slots.Step s s' → Type 0
IsSession (Slots.Step.job _ _ _) = ⊥
IsSession (Slots.Step.connect _ _ _ _ _ _) = ⊥
IsSession _ = Unit

module _ (settings : Settings) (files : Files) where
  pub data Step (s s' : System) : Type 0 where
    session :
        (server' : Server) (st : Slots.Step s.server server')
        → IsSession st
        → s' ≡ record s { server = server' }
        → Step s s'
    register :
        (opens : Bytes → ℤ) (eintr : Bool) (buffer : Bytes) (server' : Server)
        → fifo_round s.server opens eintr buffer ≡ some server'
        → s' ≡ record s { server = server' }
        → Step s s'
    take :
        (i : ℕ) (f : Found) (rest : List Bytes)
        → i < length s.workers
        → worker_at s.workers i ≡ waiting
        → next_job settings.jobs_directory s.entries ≡ some (f, rest)
        → s' ≡ taken s i f rest (open_job files f)
        → Step s s'
    stop :
        (i : ℕ)
        → i < length s.workers
        → worker_at s.workers i ≡ waiting
        → next_job settings.jobs_directory s.entries ≡ none
        → s' ≡ record s { entries = []; workers = set s.workers i gone }
        → Step s s'
    command :
        (i : ℕ) (t : Task) (j : Job World) (rest : Bytes)
        → i < length s.workers
        → worker_at s.workers i ≡ working t
        → serve settings (job_of s t) (get_next t.input).0 (get_next t.input).1 ≡ ok (none, j, rest)
        → s' ≡ after_round s i (working (task_of t j rest)) j
        → Step s s'
    close :
        (i : ℕ) (t : Task) (j : Job World) (rest : Bytes)
        → i < length s.workers
        → worker_at s.workers i ≡ working t
        → serve settings (job_of s t) (get_next t.input).0 (get_next t.input).1
          ≡ ok (some 0, j, rest)
        → s' ≡ (
            let s1 = after_round s i waiting j in
            record s1 { finished = s.finished ++ (task_of t j rest ∷ []) })
        → Step s s'

  pub data Reach (s : System) : System → Type 0 where
    here : Reach s s
    next : {t u : System} → Reach s t → Step t u → Reach s u

-- `kvs_init`, `start_client_threads` and `dispatch_threads`, all of which succeed: the threads are
-- at their start, `found` is what `malloc` finds, and `entries` what `readdir` will give.
unfoldable pub start : World → (ℕ → List ℤ) → ℕ → List Bytes → System
start w found max_threads entries =
    let empty : Store World = record {
      kvs_table = none;
      write_callback = none;
      delete_callback = none;
      world = w;
    } in
    let server : Server = record { store = (kvs_init empty true).0; clients_data = [] } in
    record {
      server = (start_client_threads server true true all_start found).0;
      entries = entries;
      workers = replicate max_threads waiting;
      active_backups = 0;
      backups = [];
      finished = [];
      failures = [];
    }
