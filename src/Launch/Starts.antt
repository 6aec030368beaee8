-- ===== src/Launch/Starts.antt =====
-- When the server of src/server/main.c starts, and with what.
use so_proj.Base.{
  ℕ, suc, ◌≡◌, ◌↔◌, subst, refl, sym, ap, ◌∙◌, true, List, [], ◌∷◌, ltb, leb, arith, length, Bytes,
}
use so_proj.Jobs.{Settings}
use so_proj.Session.{World}
use so_proj.Operations.{kvs_init}
use so_proj.Kvs.{create_hash_table}
use so_proj.Slots.{start_client_threads, init_slots}
use so_proj.Coperations.{max_session_count}
use so_proj.System.{start}
use so_proj.Launch.{
  Host, uninitialised, Launch, serves, require, fifo_name, main_opened, server_main,
  dispatch_threads, fifo_init, handle_fifo,
}
use so_proj.Launch.Stages.{
  Ready, launch, Opened, require-serves, five_arguments, create_threads-all, init_slots-all,
  positive_number, kvs_init-zero, main_opened-Opened,
}

module _ (h : Host) (w : World) (program dir threads backups fifo : Bytes) (more : List Bytes)
    (l : Launch) where
  abbrev asked : Settings
  asked = record { jobs_directory = dir; max_backups = (h.strtoul backups).0; forks = h.forks }

  given-Ready :
      (t b : ℕ)
      → h.strtoul threads ≡ (suc t, [])
      → h.strtoul backups ≡ (suc b, [])
      → h.has_table ≡ true
      → Opened h asked
          (h.strtoul threads).0
          (fifo_name fifo)
          (kvs_init (uninitialised w) h.has_table).0
          (h.opendir dir)
          l
      → (r : Ready h (program ∷ dir ∷ threads ∷ backups ∷ fifo ∷ more)) × (serves l
          ≡ serves (launch h w r))
  unfolding start
  given-Ready t b threads_read backups_read table o =
      let memory = o.memory in
      let number = ap (λ (r : ℕ × Bytes). r.0) threads_read in
      (
        record {
          program = program;
          dir = dir;
          threads = threads;
          backups = backups;
          fifo = fifo;
          more = more;
          given = refl;
          max_threads = t;
          max_backups = b;
          threads_read = threads_read;
          backups_read = backups_read;
          entries = o.entries;
          opened = o.opened;
          made = o.made;
          memory = (table, memory.0, memory.1);
          semaphore = o.semaphore;
          sessions = o.sessions;
          created = λ i lt. o.created i (rw number lt);
          listens = o.listens;
        },
        o.launched ∙ rw (table, threads_read, backups_read) refl,
      )

  given-serves :
      server_main h w (program ∷ dir ∷ threads ∷ backups ∷ fifo ∷ more) ≡ serves l
      → (r : Ready h (program ∷ dir ∷ threads ∷ backups ∷ fifo ∷ more)) × (serves l
          ≡ serves (launch h w r))
  unfolding server_main
  given-serves e =
      let arguments = program ∷ dir ∷ threads ∷ backups ∷ fifo ∷ more in
      let (_, e1) = require-serves (leb 5 (length arguments)) 1 _ l e in
      let (whole, e2) = require-serves _ _ _ l e1 in
      let (whole', e3) = require-serves _ _ _ l e2 in
      let (positive, e4) = require-serves _ _ _ l e3 in
      let (positive', e5) = require-serves _ _ _ l e4 in
      let (returned, e6) = require-serves _ _ _ l e5 in
      let (b, backups_read) = positive_number (h.strtoul backups) whole positive in
      let (t, threads_read) = positive_number (h.strtoul threads) whole' positive' in
      given-Ready t b threads_read backups_read (kvs_init-zero w h.has_table returned)
        (main_opened-Opened h _ (h.strtoul threads).0 _ _ (h.opendir dir) l e6)

granted-serves :
    (h : Host) (w : World) (arguments : List Bytes) (r : Ready h arguments)
    → server_main h w arguments ≡ serves (launch h w r)
unfolding server_main start init_slots main_opened require fifo_init kvs_init create_hash_table
    dispatch_threads start_client_threads handle_fifo
granted-serves h w arguments r =
    let given = r.given in
    let threads_read = r.threads_read in
    let backups_read = r.backups_read in
    let opened = r.opened in
    let made = r.made in
    let (table, int_table, threads) = r.memory in
    let semaphore = r.semaphore in
    let (handled, opens) = r.listens in
    let slots =
      init_slots-all h.starts 0 max_session_count
        λ k lt. ap h.starts (omega arith) ∙ r.sessions k lt in
    let created =
      create_threads-all h.creates 0 (suc r.max_threads)
        λ k lt. ap h.creates (omega arith) ∙ r.created k lt in
    let five : leb 5 (length (r.program ∷ r.dir ∷ r.threads ∷ r.backups ∷ r.fifo ∷ r.more)) ≡ true =
      ground arith in
    let positive : ltb 0 (suc r.max_backups) ≡ true = ground arith in
    let positive' : ltb 0 (suc r.max_threads) ≡ true = ground arith in
    rw (given, threads_read, backups_read, opened, made)
      (rw (table, int_table, threads, semaphore, created)
        (rw (five, positive, positive') (rw (slots, handled, opens) refl)))

-- The server serves clients just where its arguments are the directory, two whole numbers above 0 and
-- the name of a FIFO, and the system grants what it needs: the directory, the FIFO, the memory, the
-- semaphore, the handler of the signal, for each of the eight slots a mutex, a condition variable and
-- a thread, and every thread of the jobs. It then serves with the two limits, under the first 39
-- bytes of the name, from its first state.
pub server_main-Ready :
    (h : Host) (w : World) (arguments : List Bytes) (l : Launch)
    → (server_main h w arguments ≡ serves l) ↔ ((r : Ready h arguments) × (l ≡ launch h w r))
unfolding server_main
server_main-Ready h w arguments l = (
  λ e.
      let (five, _) = require-serves (leb 5 (length arguments)) 1 _ l e in
      let (program, dir, threads, backups, fifo, more, given) = five_arguments arguments five in
      let (r, same) =
        subst
          (λ (a : List Bytes).
            server_main h w a ≡ serves l → (r : Ready h a) × (serves l ≡ serves (launch h w r)))
          (sym given) (given-serves h w program dir threads backups fifo more l) e in
      (r, cc),
  λ (r, same). granted-serves h w arguments r ∙ ap serves (sym same),
)
