-- ===== src/System/Invariant.antt =====
-- What holds of the server in every state that it can reach, however its threads are interleaved.
use so_proj.Base.{
  ℕ, ◌+◌, ◌<◌, ◌≡◌, true, refl, sym, ap, ◌∙◌, subst, List, [], ◌∷◌, ◌++◌, Option, none, some, map,
  arith, Bool-cases, Option-cases, inl, inr, length, set, Bytes, equal, ℤ,
}
use so_proj.Coperations.{max_session_count}
use so_proj.Coperations.Nodes.{to_nat}
use so_proj.Directory.{
  Found, Files, Task, Worker, waiting, gone, working, next_job, open_job, worker_at,
}
use so_proj.Directory.Entries.{
  jobs, times, times-append, runs, running, running-replicate, running-set, picked, jobs-next_job,
}
use so_proj.Jobs.{Settings, Job}
use so_proj.Kvs.Mapping.{create_hash_table-empty}
use so_proj.Operations.{Store, kvs_init, register_write_callback, register_delete_callback}
use so_proj.Session.{World, register_callbacks}
use so_proj.Slots.Invariant.{IsServer, Step-IsServer, start_client_threads-IsServer}
use so_proj.Slots.{Server, start_client_threads}
use so_proj.System.{
  System, task_of, after_round, taken, Step, session, register, take, stop, command, close, Reach,
  start,
}
use so_proj.System.Registrations.{RoundKept, fifo_round-RoundKept}
use so_proj.System.Sessions.{session-OwnWorld}
use so_proj.Session.Worlds.{OwnWorld}
use so_proj.System.States.{all_jobs, IsSystem, Ran, round-Ran}

module _ (settings : Settings) (entries : List Bytes) where
  -- The places of the jobs behind a step that moves the thread `i` to `w`.
  moved :
      (s : System) (i : ℕ) (w : Worker) (q : Bytes)
      → i < length s.workers
      → running q (set s.workers i w) + runs q (worker_at s.workers i)
        ≡ running q s.workers + runs q w
  moved s i w q lt = running-set q s.workers i w lt

  OwnWorld-IsSystem :
      (s : System) (server' : Server)
      → IsServer server'
      → OwnWorld s.server.store server'.store
      → IsSystem settings entries s
      → IsSystem settings entries (record s { server = server' })
  OwnWorld-IsSystem s server' sessions (w, same) h = record {
    sessions = sessions;
    ht = h.ht;
    has = ap (λ (st : Store World). st.kvs_table) same ∙ h.has;
    table = h.table;
    writes = ap (λ (st : Store World). st.write_callback) same ∙ h.writes;
    deletes = ap (λ (st : Store World). st.delete_callback) same ∙ h.deletes;
    few = h.few;
    once = h.once;
  }

  abbrev IsOf : Found → Option Task → Type 0
  IsOf f none = Unit
  IsOf f (some t) = t.entry ≡ f.d_name

  open_job-IsOf : (files : Files) (f : Found) → IsOf f (open_job files f)
  open_job-IsOf files f = elim (Option-cases (files.reads f.in_path)) [
    | inl unread ↦ rw (unread, IsOf) tt
    | inr (text, read) ↦ elim (Bool-cases (files.creates f.out_path)) [
      | inl made ↦ rw (read, made, IsOf) refl
      | inr failed ↦ rw (read, failed, IsOf) tt
    ]
  ]

  taken-once :
      (s : System) (i : ℕ) (f : Found) (rest : List Bytes) (o : Option Task) (q : Bytes)
      → i < length s.workers
      → worker_at s.workers i ≡ waiting
      → next_job settings.jobs_directory s.entries ≡ some (f, rest)
      → IsOf f o
      → all_jobs settings.jobs_directory q (taken s i f rest o)
        ≡ all_jobs settings.jobs_directory q s
  taken-once s i f rest (some t) q lt at found same =
      let dir = settings.jobs_directory in
      let left = ap (times q) (jobs-next_job dir s.entries ∙ ap (picked dir) found) in
      let named = ap (λ (n : Bytes). to_nat (equal n q)) same in
      omega (arith, left, named, moved s i (working t) q lt, ap (runs q) at)
  taken-once s i f rest none q lt at found same =
      let dir = settings.jobs_directory in
      let left = ap (times q) (jobs-next_job dir s.entries ∙ ap (picked dir) found) in
      omega (
        arith,
        left,
        moved s i gone q lt,
        ap (runs q) at,
        times-append q s.failures (f.d_name ∷ []),
      )

  take-IsSystem :
      (s : System) (i : ℕ) (f : Found) (rest : List Bytes) (o : Option Task)
      → ((q : Bytes)
          → all_jobs settings.jobs_directory q (taken s i f rest o)
            ≡ all_jobs settings.jobs_directory q s)
      → IsSystem settings entries s
      → IsSystem settings entries (taken s i f rest o)
  take-IsSystem s i f rest (some t) same h = record {
    sessions = h.sessions;
    ht = h.ht;
    has = h.has;
    table = h.table;
    writes = h.writes;
    deletes = h.deletes;
    few = h.few;
    once = λ q. same q ∙ h.once q;
  }
  take-IsSystem s i f rest none same h = record {
    sessions = h.sessions;
    ht = h.ht;
    has = h.has;
    table = h.table;
    writes = h.writes;
    deletes = h.deletes;
    few = h.few;
    once = λ q. same q ∙ h.once q;
  }

  Ran-IsSystem :
      (s s' : System) (j : Job World)
      → Ran settings entries s j
      → (let server = s.server in s'.server ≡ record server { store = j.store })
      → s'.active_backups ≡ j.active_backups
      → ((q : Bytes)
          → all_jobs settings.jobs_directory q s' ≡ times q (jobs settings.jobs_directory entries))
      → IsSystem settings entries s'
  Ran-IsSystem s s' j r e few once = record {
    sessions = subst IsServer (sym e) r.sessions;
    ht = r.ht;
    has = ap (λ (v : Server). v.store.kvs_table) e ∙ r.has;
    table = r.table;
    writes = ap (λ (v : Server). v.store.write_callback) e ∙ r.writes;
    deletes = ap (λ (v : Server). v.store.delete_callback) e ∙ r.deletes;
    few = let le = r.few in omega arith;
    once = once;
  }

  finished-snoc :
      (q : Bytes) (ts : List Task) (t : Task)
      → times q (map (λ t. t.entry) (ts ++ t ∷ []))
        ≡ times q (map (λ t. t.entry) ts) + to_nat (equal t.entry q)
  finished-snoc q [] t = omega arith
  finished-snoc q (u ∷ ts) t = omega (arith, finished-snoc q ts t)

  module _ (files : Files) where
    Step-IsSystem :
        {s s' : System}
        → Step settings files s s'
        → IsSystem settings entries s
        → IsSystem settings entries s'
    unfolding jobs
    Step-IsSystem {s} (session server' st own e) h =
        subst (IsSystem settings entries) (sym e)
          (OwnWorld-IsSystem s server' (Step-IsServer st h.sessions) (session-OwnWorld st own) h)
    Step-IsSystem {s} (register opens eintr buffer server' ran e) h =
        let (sessions, own) =
          subst (RoundKept s.server) ran
            (fifo_round-RoundKept s.server opens eintr buffer h.sessions) in
        subst (IsSystem settings entries) (sym e) (OwnWorld-IsSystem s server' sessions own h)
    Step-IsSystem {s} (take i f rest lt at found e) h =
        let o = open_job files f in
        subst (IsSystem settings entries) (sym e) (
          take-IsSystem s i f rest o
            (λ q. taken-once s i f rest o q lt at found (open_job-IsOf files f)) h)
    Step-IsSystem {s} (stop i lt at none_left e) h =
        subst (IsSystem settings entries) (sym e) (record {
          sessions = h.sessions;
          ht = h.ht;
          has = h.has;
          table = h.table;
          writes = h.writes;
          deletes = h.deletes;
          few = h.few;
          once = λ q.
              let none_left' = ap (times q) (
                jobs-next_job settings.jobs_directory s.entries
                ∙ ap (picked settings.jobs_directory) none_left) in
              omega (arith, none_left', h.once q, moved s i gone q lt, ap (runs q) at);
        })
    Step-IsSystem {s} (command i t j rest lt at ran e) h =
        subst (IsSystem settings entries) (sym e) (
          Ran-IsSystem s (after_round s i (working (task_of t j rest)) j) j
            (round-Ran settings entries s t h ran) refl refl
            λ q.
              omega (arith, h.once q, moved s i (working (task_of t j rest)) q lt, ap (runs q) at))
    Step-IsSystem {s} (close i t j rest lt at ran e) h = subst (IsSystem settings entries) (sym e) (
        Ran-IsSystem s _ j (round-Ran settings entries s t h ran) refl refl λ q. omega (
          arith,
          h.once q,
          moved s i waiting q lt,
          ap (runs q) at,
          finished-snoc q s.finished (task_of t j rest),
        ))

    Reach-IsSystem :
        {s t : System}
        → IsSystem settings entries s
        → Reach settings files s t
        → IsSystem settings entries t
    Reach-IsSystem h Reach.here = h
    Reach-IsSystem h (Reach.next r st) = Step-IsSystem st (Reach-IsSystem h r)

start-IsSystem :
    (settings : Settings) (entries : List Bytes) (w : World) (found : ℕ → List ℤ) (max_threads : ℕ)
    → ((i : ℕ) → length (found i) ≡ max_session_count)
    → IsSystem settings entries (start w found max_threads entries)
unfolding start start_client_threads kvs_init register_callbacks register_write_callback
    register_delete_callback
start-IsSystem settings entries w found max_threads wide =
    let (ht, made, t, _) = create_hash_table-empty in
    let empty : Store World = record {
      kvs_table = none;
      write_callback = none;
      delete_callback = none;
      world = w;
    } in
    let server : Server = record { store = (kvs_init empty true).0; clients_data = [] } in
    record {
      sessions = start_client_threads-IsServer server found wide;
      ht = ht;
      has = rw made;
      table = t;
      writes = refl;
      deletes = refl;
      few = omega arith;
      once = λ q. omega (arith, running-replicate q max_threads);
    }

-- In every state that the server can reach from its start, by commands of jobs, threads that take
-- and end jobs, messages that ask for a connection, requests, ends of sessions and signals,
-- interleaved in any order and with any number of threads: the sessions agree with the semaphore,
-- the table of the store is well formed and its callbacks notify the clients, at most
-- `max_backups` backups are counted, and every job of the directory is as often as it is there in
-- one place: not taken yet, run by one thread, ended, or given up since a file could not be
-- opened.
pub Reach-start :
    (settings : Settings) (files : Files) (entries : List Bytes) (w : World) (found : ℕ → List ℤ)
    (max_threads : ℕ) (s : System)
    → ((i : ℕ) → length (found i) ≡ max_session_count)
    → Reach settings files (start w found max_threads entries) s
    → IsSystem settings entries s
Reach-start settings files entries w found max_threads s wide =
    Reach-IsSystem settings entries files (start-IsSystem settings entries w found max_threads wide)
