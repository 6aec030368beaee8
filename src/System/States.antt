-- ===== src/System/States.antt =====
-- The invariant of the server, and what a command of a job in src/server/main.c keeps of it.
use so_proj.Base.{
  ℕ, ◌+◌, ◌≤◌, ◌≡◌, refl, sym, ap, ◌∙◌, subst, List, ◌++◌, Option, some, map, Bytes, ok, Ensures-ok,
  ℤ,
}
use so_proj.Coperations.{get_fds}
use so_proj.Directory.{Task}
use so_proj.Directory.Entries.{jobs, times, running}
use so_proj.Jobs.Keeps.{serve-RoundKept}
use so_proj.Jobs.{Settings, Job, serve}
use so_proj.Kvs.{HashTable}
use so_proj.Kvs.Mapping.{IsTable}
use so_proj.Operations.{Callback, Store, call}
use so_proj.Parser.{get_next}
use so_proj.Session.Notices.{messages, notify_clients-messages}
use so_proj.Session.{World, notification, notify_clients}
use so_proj.Slots
use so_proj.Slots.Invariant.{IsServer, Step-IsServer}
use so_proj.Slots.{
  Server, is_invalid, thread_of, slot_at, activate_client, occupy, start_client_threads,
}
use so_proj.System.{System, job_of}

-- The names of jobs: those not taken, those that run, those that have ended, and those that could
-- not be opened.
abbrev pub all_jobs : Bytes → Bytes → System → ℕ
all_jobs dir q s =
    times q (jobs dir s.entries)
    + (running q s.workers + (times q (map (λ t. t.entry) s.finished) + times q s.failures))

-- The sessions and the semaphore agree; the table of the store is well formed, and its callbacks
-- notify the clients; no more backups are counted than may run; and each job of the directory is
-- somewhere just as often as the directory has it.
pub record IsSystem (settings : Settings) (entries : List Bytes) (s : System) : Type 0 where
  pub sessions : IsServer s.server
  pub ht : HashTable
  pub has : s.server.store.kvs_table ≡ some ht
  pub table : IsTable ht
  pub writes : s.server.store.write_callback ≡ some notify_clients
  pub deletes : s.server.store.delete_callback ≡ some notify_clients
  pub few : s.active_backups ≤ settings.max_backups
  pub once :
      (q : Bytes)
      → all_jobs settings.jobs_directory q s ≡ times q (jobs settings.jobs_directory entries)

-- What the callbacks keep of a world.
abbrev Sends : World → World → Type 0
Sends w w' = (sent : List (ℤ × Bytes)) × (w' ≡ record w { sent = sent })

notify_clients-Sends :
    (w : World) (key : Bytes) (value : Option Bytes) (w' : World)
    → Sends w w'
    → Sends w (call (some notify_clients) key value w')
notify_clients-Sends w key value w' (sent, same) =
    let sent' =
      w'.sent ++ messages w'.accepts (notification key value) (get_fds w'.subscribed_keys key) in
    (
      sent',
      notify_clients-messages key value w' ∙ ap (λ (v : World). record v { sent = sent' }) same,
    )

keeps :
    (w : World) (callback : Option (Callback World))
    → callback ≡ some notify_clients
    → (key : Bytes) (value : Option Bytes) (w' : World) → Sends w w'
    → Sends w (call callback key value w')
keeps w callback e =
    subst
      (λ (c : Option (Callback World)).
        (key : Bytes) (value : Option Bytes) (w' : World)
        → Sends w w'
        → Sends w (call c key value w'))
      (sym e) (notify_clients-Sends w)

module _ (settings : Settings) (entries : List Bytes) where
  -- The state behind a round of a job, but for where its thread stands.
  pub record Ran (s : System) (j : Job World) : Type 0 where
    pub sessions : (let server = s.server in IsServer (record server { store = j.store }))
    pub ht : HashTable
    pub has : j.store.kvs_table ≡ some ht
    pub table : IsTable ht
    pub writes : j.store.write_callback ≡ some notify_clients
    pub deletes : j.store.delete_callback ≡ some notify_clients
    pub few : j.active_backups ≤ settings.max_backups

  pub round-Ran :
      (s : System) (t : Task) {returned : Option ℕ} {j : Job World} {rest : Bytes}
      → IsSystem settings entries s
      → serve settings (job_of s t) (get_next t.input).0 (get_next t.input).1
        ≡ ok (returned, j, rest)
      → Ran s j
  round-Ran s t {returned} {j} {rest} h ran =
      let server = s.server in
      let store = s.server.store in
      let w = s.server.store.world in
      let kept =
        Ensures-ok _ (serve settings (job_of s t) (get_next t.input).0 (get_next t.input).1)
          (serve-RoundKept (Sends w) settings (job_of s t) h.ht h.has h.table (w.sent, refl)
            (keeps w store.write_callback h.writes) (keeps w store.delete_callback h.deletes)
            (get_next t.input).0 (get_next t.input).1)
          ran in
      let stored = kept.stored in
      let same = stored.same in
      record {
        sessions =
            Step-IsServer
              (Slots.Step.job (some stored.ht) stored.holds.0 (
                ap (λ (st : Store World). record server { store = st }) same
                ∙ ap
                    (λ (v : World). record server {
                      store = record store { kvs_table = some stored.ht; world = v };
                    })
                    stored.holds.1))
              h.sessions;
        ht = stored.ht;
        has = ap (λ (st : Store World). st.kvs_table) same;
        table = stored.table;
        writes = ap (λ (st : Store World). st.write_callback) same ∙ h.writes;
        deletes = ap (λ (st : Store World). st.delete_callback) same ∙ h.deletes;
        few = kept.few h.few;
      }
