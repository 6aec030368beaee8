-- ===== src/Tests/Systems.antt =====
-- Whole jobs, sessions and starts of src/server and src/client, at small inputs.
use so_proj.Base.{
  ℕ, leb, ◌&&◌, ◌-◌, if◌then◌else◌, ◌≡◌, refl, true, false, List, [], ◌∷◌, ◌++◌, ◌↔◌, none, some,
  arith, length, replicate, Bytes, codes, ok, Returns, ◌>>=◌, pos, equal,
}
use so_proj.Io.{Answer, moves}
use so_proj.Io.Transfers.{interruptions}
use so_proj.Api.{Link, Exchange, replied}
use so_proj.Client.{Console, exits, client_loop}
use so_proj.Client.Scripts.{concat, script}
use so_proj.Client.Sessions.{client_loop-act_all}
use so_proj.Directory.{Files, Found, Task, task, next_job}
use so_proj.Entries.{entry_files, strrchr}
use so_proj.Jobs.{Settings, Job, serve, run_job}
use so_proj.Jobs.Meaning.{run_job-DoesAll}
use so_proj.Jobs.Programs.{Statement, write, read, backup, show, job_text, DoesAll}
use so_proj.Jobs.Statements.{abstract}
use so_proj.Kvs.{HashTable, hash}
use so_proj.Kvs.Mapping.{view, IsTable, HasSlot}
use so_proj.Launch.{Host, Launch, serves, server_main}
use so_proj.Launch.Stages.{Ready, launch}
use so_proj.Launch.Reaches.{Runs, server_main-IsSystem}
use so_proj.Launch.Starts.{server_main-Ready}
use so_proj.Listener.{listen}
use so_proj.Listener.Delivery.{sent_to, told, kvs_write-listen}
use so_proj.Listener.Frames.{IsEnough, listener, lines}
use so_proj.Operations.{kvs_write, kvs_show}
use so_proj.Parser.{get_next, cmd_show}
use so_proj.Parser.Commands.{get_next-command_word}
use so_proj.Operations.Writes.{dict_changes}
use so_proj.Session.{World, register_callbacks}
use so_proj.Session.Notices.{Messages}
use so_proj.Slots
use so_proj.Slots.{init_slots, activate_client, occupy, start_client_threads}
use so_proj.Fifo.{fifo_round, connect, parse_registration}
use so_proj.Operations.{register_write_callback, register_delete_callback}
use so_proj.Slots.{Server}
use so_proj.System.{System, taken, job_of, take, command, session, register, Reach, start}
use so_proj.Tests.Clients.{world, client, served}
use so_proj.Tests.Inputs.{a-IsWord}
use so_proj.Tests.Stores.{sample, sample-IsTable, ab-HasSlot, zero-HasSlot, new_pairs}
use so_proj.Threads.{loop}
use so_proj.Threads.Sessions.{Request, subscribe, unsubscribe, never, thread, act_all, finished}

abbrev settings : Settings
settings = record { jobs_directory = codes "jobs"; max_backups = 1; forks = λ _. true }

abbrev job : Job World
job = record {
  store = served;
  out = [];
  backups = [];
  active_backups = 0;
  file_backups = 0;
  filename = codes "one.job";
}

a-HasSlot : HasSlot (codes "a")
unfolding hash
a-HasSlot = (0, refl)

abbrev program : List Statement
program = write ((codes "a", codes "a") ∷ []) ∷ read (codes "a" ∷ []) ∷ backup ∷ show ∷ []

run_job-DoesAll_example : Returns (run_job 5 settings job (job_text program)) λ r.
    (j' : Job World) × (ht' : HashTable) × (r ≡ some (0, j'))
    × (j'.store.kvs_table ≡ some ht')
    × IsTable ht'
    × DoesAll settings none none program (abstract sample job) (abstract ht' j')
run_job-DoesAll_example =
    run_job-DoesAll settings program 5 sample job refl sample-IsTable
      (
        ((λ e. cc), omega arith, (a-IsWord, a-IsWord, tt), (a-HasSlot, tt)),
        (((λ e. cc), omega arith, (a-IsWord, tt), (a-HasSlot, tt)), (tt, (tt, tt))),
      )
      (omega arith)

abbrev whole_reads : ℕ → List Answer
whole_reads _ = replicate 301 (moves 400)

reads-IsEnough : (k : ℕ) → IsEnough (whole_reads k)
unfolding interruptions
reads-IsEnough k = record { fine = tt; quiet = refl; enough = omega arith }

kvs_write-listen_example :
    (let heard = told world (pos 5) (dict_changes (view sample) new_pairs) in
      Returns (kvs_write (register_callbacks served) new_pairs) (λ r.
        (sent : Messages) × (last : Bytes) × (r.0.world.sent ≡ [] ++ sent)
        × (listen
              (length heard)
              whole_reads
              0
              (listener (replicate 300 0) (sent_to (pos 5) sent) [])
            ≡ some (false, listener last [] ([] ++ lines heard)))))
kvs_write-listen_example =
    kvs_write-listen served sample new_pairs (pos 5) whole_reads 0 (replicate 300 0) [] refl
      sample-IsTable (ab-HasSlot, (ab-HasSlot, (zero-HasSlot, tt)))
      (
        (refl, (refl, tt)),
        (refl, tt),
        ((refl, (refl, tt)), (refl, tt), ((refl, tt), (refl, tt), tt)),
      )
      refl reads-IsEnough refl

abbrev link : Link
link = record {
  req_path = codes "/tmp/req1";
  resp_path = codes "/tmp/resp1";
  notif_path = codes "/tmp/notif1";
  request_fd = pos 3;
  response_fd = pos 4;
  notification_fd = pos 5;
  disconnect = false;
  thread_finished = false;
  requests = [];
}

abbrev console : Console
console = record { link = link; delays = [] }

abbrev exchanges : ℕ → Exchange
exchanges k = record { accepts = true; reply = replied b'3' b'1' }

abbrev requests : List Request
requests = subscribe (codes "a") ∷ unsubscribe (codes "a") ∷ []

client_loop-act_all_example :
    (s' : Console) × (client_loop 5 console true exchanges (λ _. true) 0 (script requests)
      ≡ ok (exits s' 0))
    × (loop 5 never 0 (thread served client (concat s'.link.requests))
        ≡ (act_all requests served client >>= finished []))
client_loop-act_all_example =
    client_loop-act_all requests 5 5 console exchanges (λ _. true) served client
      (a-IsWord, (a-IsWord, tt)) (omega arith) (omega arith) (record { stays = refl; pipes = refl })
      refl (λ i. (refl, (b'3', b'1', refl)))

-- Numbers of one digit.
abbrev digit : Bytes → ℕ × Bytes
digit [] = (0, [])
digit (c ∷ rest) = if leb b'0' c && leb c b'9' then (c - b'0', rest) else (0, c ∷ rest)

abbrev host : Host
host = record {
  strtoul = digit;
  opendir = λ _. some (codes "x" ∷ codes "a.job" ∷ []);
  mkfifo = λ _. true;
  sem_init = true;
  has_table = true;
  has_int_table = true;
  has_threads = true;
  found = λ _. replicate 8 (pos 0);
  starts = λ _. true;
  creates = λ _. true;
  forks = λ _. true;
  sigaction = true;
  opens = λ _. true;
}

abbrev arguments : List Bytes
arguments = codes "kvs" ∷ codes "jobs" ∷ codes "2" ∷ codes "1" ∷ codes "fifo" ∷ []

abbrev first : Launch
first = record {
  settings = settings;
  regist_fifo_name = codes "/tmp/fifo";
  system = start world host.found 2 (codes "x" ∷ codes "a.job" ∷ []);
}

server_main-Ready_example :
    (server_main host world arguments ≡ serves first)
    ↔ ((r : Ready host arguments) × (first ≡ launch host world r))
server_main-Ready_example = server_main-Ready host world arguments first

serves_first : server_main host world arguments ≡ serves first
serves_first = (server_main-Ready host world arguments first).1 (
  record {
    program = codes "kvs";
    dir = codes "jobs";
    threads = codes "2";
    backups = codes "1";
    fifo = codes "fifo";
    more = [];
    given = refl;
    max_threads = 1;
    max_backups = 0;
    threads_read = refl;
    backups_read = refl;
    entries = codes "x" ∷ codes "a.job" ∷ [];
    opened = refl;
    made = refl;
    memory = (refl, refl, refl);
    semaphore = refl;
    sessions = λ i lt. refl;
    created = λ i lt. refl;
    listens = (refl, refl);
  },
  refl,
)

abbrev files : Files
files = record { reads = λ _. some (codes "SHOW\n"); creates = λ _. true }

abbrev found_job : Found
found_job = record {
  d_name = codes "a.job";
  in_path = codes "jobs/a.job";
  out_path = codes "jobs/a.out";
}

abbrev opened_job : Task
opened_job = task found_job (codes "SHOW\n")

-- The first thread has taken the job.
abbrev busy : System
busy = taken first.system 0 found_job [] (some opened_job)

job_taken : Reach settings files first.system busy
unfolding next_job entry_files strrchr equal start
job_taken = Reach.next Reach.here (take 0 found_job [] (omega arith) refl refl refl)

abbrev shown : Job World
shown = record (job_of busy opened_job) { out = [] ++ kvs_show busy.server.store }

job_shows :
    serve settings
      (job_of busy opened_job)
      (get_next (codes "SHOW\n")).0
      (get_next (codes "SHOW\n")).1
    ≡ ok (none, shown, [])
unfolding serve
job_shows = rw (get_next-command_word cmd_show [] tt) refl

-- The job runs its only command, a client connects, and all sessions are told to end.
job_ran : (t : System) × Reach settings files first.system t
unfolding start fifo_round connect parse_registration activate_client occupy start_client_threads
    init_slots register_callbacks register_write_callback register_delete_callback
job_ran = (
  _,
  Reach.next
      (Reach.next
        (Reach.next job_taken (command 0 opened_job shown [] (omega arith) refl job_shows refl))
        (register (λ _. pos 3) false (codes "1") _ refl refl))
      (session _ (Slots.Step.force refl) tt refl),
)

server_main-IsSystem_example : Runs host first job_ran.0
server_main-IsSystem_example =
    server_main-IsSystem host world arguments first files job_ran.0 (λ i. refl) serves_first
      job_ran.1
