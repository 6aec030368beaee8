-- ===== src/Launch.antt =====
-- `main` and `dispatch_threads` of src/server/main.c, and `fifo_init` of src/server/operations.c: how
-- the server starts. What the program asks of the system is a parameter.
pub mod Stages
pub mod Starts
pub mod Names
pub mod Reaches
use so_proj.Base.{
  ℕ, zero, suc, ◌+◌, ◌-◌, Bool, true, false, List, [], ◌∷◌, ◌++◌, Option, none, some, ◌==◌, ltb,
  leb, ◌&&◌, if◌then◌else◌, length, get_or, take, replicate, Bytes, codes, ℤ,
}
use so_proj.Directory.{Worker, waiting}
use so_proj.Fifo.{max_pipe_path_length}
use so_proj.Jobs.{Settings, is_none}
use so_proj.Operations.{Store, kvs_init}
use so_proj.Session.{World}
use so_proj.Slots.{Server, start_client_threads}
use so_proj.System.{System}

-- `strtoul` in base ten, with what `endptr` is left at; the names that `readdir` will give of a
-- directory that can be opened; whether a FIFO can be made behind `unlink`; what `malloc` finds and
-- whether it finds room for the table of the store, for the other table and for the threads; whether
-- `sem_init` succeeds, which slots get their mutex, condition variable and thread, and which threads
-- of the jobs and processes can be made; whether `sigaction` succeeds, and
-- whether the FIFO can be opened.
pub record Host : Type 0 where
  pub strtoul : Bytes → ℕ × Bytes
  pub opendir : Bytes → Option (List Bytes)
  pub mkfifo : Bytes → Bool
  pub sem_init : Bool
  pub has_table : Bool
  pub has_int_table : Bool
  pub has_threads : Bool
  pub found : ℕ → List ℤ
  pub starts : ℕ → Bool
  pub creates : ℕ → Bool
  pub forks : ℕ → Bool
  pub sigaction : Bool
  pub opens : Bytes → Bool

pub fifo_init : Host → Bytes → ℕ
fifo_init h fifo_name = if h.mkfifo fifo_name then 0 else 1

-- How many of the threads from the `i`th on are made, and whether all are.
pub create_threads : (ℕ → Bool) → ℕ → ℕ → ℕ × Bool
create_threads creates i zero = (0, true)
create_threads creates i (suc n) =
    let (made, all) = create_threads creates (i + 1) n in
    if creates i then (suc made, all) else (0, false)

-- The threads, and whether `handle_fifo` is called.
pub dispatch_threads : Host → ℕ → List Worker × Bool
dispatch_threads h max_threads =
    let (made, all) = create_threads h.creates 0 max_threads in
    if h.has_threads then (replicate made waiting, all) else ([], false)

-- The server as it is when `handle_fifo` is called.
pub record Launch : Type 0 where
  pub settings : Settings
  pub regist_fifo_name : Bytes
  pub system : System

-- The program returns, or it waits for clients, or it waits for the threads of the jobs alone and
-- takes all down behind them.
pub data Outcome : Type 0 where
  exits : (returned : ℕ) → Outcome
  serves : (l : Launch) → Outcome
  winds_up : (l : Launch) → Outcome

-- `handle_fifo` up to its loop. Without a handler or the FIFO it returns, and `dispatch_threads`
-- joins the threads.
pub handle_fifo : Host → Launch → Outcome
handle_fifo h l = if h.sigaction && h.opens l.regist_fifo_name then serves l else winds_up l

-- A test that ends the program if it fails.
pub require : Bool → ℕ → Outcome → Outcome
require test returned next = if test then next else exits returned

-- `snprintf` into `regist_fifo_name`
abbrev pub fifo_name : Bytes → Bytes
fifo_name argument = take (max_pipe_path_length - 1) (codes "/tmp/" ++ argument)

abbrev pub started : Server → List Bytes → List Worker → System
started server entries workers = record {
  server = server;
  entries = entries;
  workers = workers;
  active_backups = 0;
  backups = [];
  finished = [];
  failures = [];
}

-- Behind `opendir`. If a thread cannot be made, the program takes all down and returns 0.
pub main_opened : Host → Settings → ℕ → Bytes → Store World → Option (List Bytes) → Outcome
unfolding require
main_opened h settings max_threads name store none = exits 0
main_opened h settings max_threads name store (some entries) =
    let (server, failed) =
      start_client_threads (record { store = store; clients_data = [] }) h.sem_init h.has_int_table
        h.starts h.found in
    let (workers, all) = dispatch_threads h max_threads in
    require (fifo_init h name == 0) 1 (
      require (failed == 0) 1 (
        require all 0 (
          handle_fifo h (record {
            settings = settings;
            regist_fifo_name = name;
            system = started server entries workers;
          }))))

abbrev pub uninitialised : World → Store World
uninitialised w = record {
  kvs_table = none;
  write_callback = none;
  delete_callback = none;
  world = w;
}

-- The program with its arguments, the first of them its name.
pub server_main : Host → World → List Bytes → Outcome
unfolding main_opened
server_main h w arguments =
    let jobs_directory = get_or arguments 1 [] in
    let (max_backups, end) = h.strtoul (get_or arguments 3 []) in
    let (max_threads, end') = h.strtoul (get_or arguments 2 []) in
    let (store, failed) = kvs_init (uninitialised w) h.has_table in
    let settings : Settings = record {
      jobs_directory = jobs_directory;
      max_backups = max_backups;
      forks = h.forks;
    } in
    require (leb 5 (length arguments)) 1 (
      require (is_none end) 1 (
        require (is_none end') 1 (
          require (ltb 0 max_backups) 0 (
            require (ltb 0 max_threads) 0 (
              require (failed == 0) 1 (
                main_opened h settings max_threads (fifo_name (get_or arguments 4 [])) store
                  (h.opendir jobs_directory)))))))
