-- ===== src/Launch/Stages.antt =====
-- What src/server/main.c needs to start, one stage at a time.
use so_proj.Base.{
  ◌&&◌, ℕ, zero, suc, ◌+◌, ◌<◌, ◌≡◌, refl, sym, ap, ◌∙◌, Bool, true, false, List, [], ◌∷◌, Option,
  none, some, ◌==◌, ltb, leb, arith, Bool-cases, inl, inr, length, replicate, Bytes, ℤ,
}
use so_proj.Directory.{waiting}
use so_proj.Jobs.{Settings, is_none}
use so_proj.Session.{World}
use so_proj.Operations.{Store, kvs_init}
use so_proj.Kvs.{create_hash_table}
use so_proj.Coperations.{max_session_count}
use so_proj.Slots.{Server, start_client_threads, init_slots, all_start}
use so_proj.System.{start}
use so_proj.Launch.{
  Host, create_threads, started, uninitialised, Launch, Outcome, serves, winds_up, handle_fifo,
  require, fifo_name, main_opened, dispatch_threads, fifo_init,
}

-- What the arguments have to be and the system has to grant.
pub record Ready (h : Host) (arguments : List Bytes) : Type 0 where
  pub program : Bytes
  pub dir : Bytes
  pub threads : Bytes
  pub backups : Bytes
  pub fifo : Bytes
  pub more : List Bytes
  pub given : arguments ≡ program ∷ dir ∷ threads ∷ backups ∷ fifo ∷ more
  pub max_threads : ℕ
  pub max_backups : ℕ
  pub threads_read : h.strtoul threads ≡ (suc max_threads, [])
  pub backups_read : h.strtoul backups ≡ (suc max_backups, [])
  pub entries : List Bytes
  pub opened : h.opendir dir ≡ some entries
  pub made : h.mkfifo (fifo_name fifo) ≡ true
  pub memory : (h.has_table ≡ true) × (h.has_int_table ≡ true) × (h.has_threads ≡ true)
  pub semaphore : h.sem_init ≡ true
  pub sessions : (i : ℕ) → i < max_session_count → h.starts i ≡ true
  pub created : (i : ℕ) → i < suc max_threads → h.creates i ≡ true
  pub listens : (h.sigaction ≡ true) × (h.opens (fifo_name fifo) ≡ true)

-- The server that starts.
abbrev pub launch : (h : Host) → World → {arguments : List Bytes} → Ready h arguments → Launch
launch h w r = record {
  settings = record { jobs_directory = r.dir; max_backups = suc r.max_backups; forks = h.forks };
  regist_fifo_name = fifo_name r.fifo;
  system = start w h.found (suc r.max_threads) r.entries;
}

pub require-serves :
    (test : Bool) (returned : ℕ) (next : Outcome) (l : Launch)
    → require test returned next ≡ serves l
    → (test ≡ true) × (next ≡ serves l)
unfolding require
require-serves true returned next l e = (refl, e)
require-serves false returned next l e = absurd cc

pub five_arguments :
    (arguments : List Bytes)
    → leb 5 (length arguments) ≡ true
    → (program dir threads backups fifo : Bytes) × (more : List Bytes) × (arguments
        ≡ program ∷ dir ∷ threads ∷ backups ∷ fifo ∷ more)
five_arguments (a ∷ b ∷ c ∷ d ∷ e ∷ more) le = (a, b, c, d, e, more, refl)
five_arguments [] le = absurd cc
five_arguments (_ ∷ []) le = absurd cc
five_arguments (_ ∷ _ ∷ []) le = absurd cc
five_arguments (_ ∷ _ ∷ _ ∷ []) le = absurd cc
five_arguments (_ ∷ _ ∷ _ ∷ _ ∷ []) le = absurd cc

pub create_threads-all :
    (creates : ℕ → Bool) (i n : ℕ)
    → ((k : ℕ) → k < n → creates (i + k) ≡ true)
    → create_threads creates i n ≡ (n, true)
unfolding create_threads
create_threads-all creates i zero h = refl
create_threads-all creates i (suc n) h =
    let this : i + 0 ≡ i = omega arith in
    let here = ap creates (sym this) ∙ h 0 (omega arith) in
    let rest =
      create_threads-all creates (i + 1) n
        λ k lt. ap creates (omega arith) ∙ h (k + 1) (omega arith) in
    rw (rest, here) refl

create_threads-Made :
    (creates : ℕ → Bool) (i n : ℕ)
    → (create_threads creates i n).1 ≡ true
    → (k : ℕ) → k < n
    → creates (i + k) ≡ true
unfolding create_threads
create_threads-Made creates i zero all k lt = absurd (omega arith)
create_threads-Made creates i (suc n) all zero lt = elim (Bool-cases (creates i)) [
  | inl made ↦ ap creates (omega arith) ∙ made
  | inr failed ↦ absurd (grind (arith, failed, all))
]
create_threads-Made creates i (suc n) all (suc k) lt = elim (Bool-cases (creates i)) [
  | inl made ↦
      let all' : (create_threads creates (i + 1) n).1 ≡ true = sym (rw made refl) ∙ all in
      ap creates (omega arith) ∙ create_threads-Made creates (i + 1) n all' k (omega arith)
  | inr failed ↦ absurd (grind (arith, failed, all))
]

dispatch_threads-all :
    (h : Host) (n : ℕ)
    → (dispatch_threads h n).1 ≡ true
    → (h.has_threads ≡ true)
      × ((i : ℕ) → i < n → h.creates i ≡ true)
      × (dispatch_threads h n ≡ (replicate n waiting, true))
unfolding dispatch_threads
dispatch_threads-all h n all = elim (Bool-cases h.has_threads) [
  | inl room ↦
      let all' : (create_threads h.creates 0 n).1 ≡ true = sym (rw room refl) ∙ all in
      let created : (i : ℕ) → i < n → h.creates (0 + i) ≡ true =
        create_threads-Made h.creates 0 n all' in
      (
        room,
        λ i lt. ap h.creates (omega arith) ∙ created i lt,
        rw (room, create_threads-all h.creates 0 n created) refl,
      )
  | inr none_left ↦ absurd (grind (arith, none_left, all))
]

pub positive_number :
    (r : ℕ × Bytes) → is_none r.1 ≡ true → ltb 0 r.0 ≡ true → (n : ℕ) × (r ≡ (suc n, []))
positive_number (suc n, []) whole positive = (n, refl)
positive_number (zero, _) whole positive = absurd cc
positive_number (suc n, _ ∷ _) whole positive = absurd cc

fifo_init-made : (h : Host) (name : Bytes) → (fifo_init h name == 0) ≡ true → h.mkfifo name ≡ true
unfolding fifo_init
fifo_init-made h name made = elim (Bool-cases (h.mkfifo name)) [
  | inl makes ↦ makes
  | inr fails ↦ absurd (grind (arith, fails, made))
]

pub init_slots-all :
    (starts : ℕ → Bool) (i n : ℕ)
    → ((k : ℕ) → k < n → starts (i + k) ≡ true)
    → init_slots starts i n ≡ init_slots all_start i n
unfolding init_slots
init_slots-all starts i zero h = refl
init_slots-all starts i (suc n) h =
    let this : i + 0 ≡ i = omega arith in
    let here = ap starts (sym this) ∙ h 0 (omega arith) in
    let rest =
      init_slots-all starts (i + 1) n λ k lt. ap starts (omega arith) ∙ h (k + 1) (omega arith) in
    rw (here, rest) refl

init_slots-zero :
    (starts : ℕ → Bool) (i n : ℕ)
    → ((init_slots starts i n).1 == 0) ≡ true
    → (k : ℕ) → k < n
    → starts (i + k) ≡ true
unfolding init_slots
init_slots-zero starts i zero e k lt = absurd (omega arith)
init_slots-zero starts i (suc n) e zero lt = elim (Bool-cases (starts i)) [
  | inl made ↦ ap starts (omega arith) ∙ made
  | inr failed ↦ absurd (grind (arith, failed, e))
]
init_slots-zero starts i (suc n) e (suc k) lt = elim (Bool-cases (starts i)) [
  | inl made ↦
      let e' : ((init_slots starts (i + 1) n).1 == 0) ≡ true = sym (rw made refl) ∙ e in
      ap starts (omega arith) ∙ init_slots-zero starts (i + 1) n e' k (omega arith)
  | inr failed ↦ absurd (grind (arith, failed, e))
]

start_client_threads-zero :
    (s : Server) (sem_made allocated : Bool) (starts : ℕ → Bool) (found : ℕ → List ℤ)
    → ((start_client_threads s sem_made allocated starts found).1 == 0) ≡ true
    → (sem_made ≡ true) × (allocated ≡ true) × ((i : ℕ) → i < max_session_count → starts i ≡ true)
unfolding start_client_threads
start_client_threads-zero s true true starts found e = (
  refl,
  refl,
  λ i lt. ap starts (omega arith) ∙ init_slots-zero starts 0 max_session_count e i lt,
)
start_client_threads-zero s true false starts found e = absurd cc
start_client_threads-zero s false allocated starts found e = absurd cc

-- A start in which every slot gets what it needs.
pub start_client_threads-all :
    (s : Server) (starts : ℕ → Bool) (found : ℕ → List ℤ)
    → ((i : ℕ) → i < max_session_count → starts i ≡ true)
    → start_client_threads s true true starts found
      ≡ start_client_threads s true true all_start found
unfolding start_client_threads
start_client_threads-all s starts found h =
    let same : init_slots starts 0 max_session_count ≡ init_slots all_start 0 max_session_count =
      init_slots-all starts 0 max_session_count λ k lt. ap starts (omega arith) ∙ h k lt in
    rw same refl

pub kvs_init-zero :
    (w : World) (allocated : Bool)
    → ((kvs_init (uninitialised w) allocated).1 == 0) ≡ true
    → allocated ≡ true
unfolding kvs_init create_hash_table
kvs_init-zero w true e = refl
kvs_init-zero w false e = absurd cc

handle_fifo-serves :
    (h : Host) (l l' : Launch)
    → handle_fifo h l ≡ serves l'
    → (h.sigaction ≡ true) × (h.opens l.regist_fifo_name ≡ true) × (l ≡ l')
unfolding handle_fifo
handle_fifo-serves h l l' e = elim (Bool-cases (h.sigaction && h.opens l.regist_fifo_name)) [
  | inl on ↦
      let same : serves l ≡ serves l' = sym (rw on refl) ∙ e in
      (ground (arith, on), ground (arith, on), cc)
  | inr off ↦ let none_served : winds_up l ≡ serves l' = sym (rw off refl) ∙ e in absurd cc
]

-- What the program finds behind `opendir`.
pub record Opened (h : Host) (settings : Settings) (max_threads : ℕ) (name : Bytes)
    (store : Store World) (o : Option (List Bytes)) (l : Launch) : Type 0 where
  pub entries : List Bytes
  pub opened : o ≡ some entries
  pub made : h.mkfifo name ≡ true
  pub memory : (h.has_int_table ≡ true) × (h.has_threads ≡ true)
  pub semaphore : h.sem_init ≡ true
  pub sessions : (i : ℕ) → i < max_session_count → h.starts i ≡ true
  pub created : (i : ℕ) → i < max_threads → h.creates i ≡ true
  pub listens : (h.sigaction ≡ true) × (h.opens name ≡ true)
  pub launched :
      serves l
      ≡ serves (record {
        settings = settings;
        regist_fifo_name = name;
        system =
            started
              (start_client_threads
                (record { store = store; clients_data = [] })
                true
                true
                all_start
                h.found).0
              entries
              (replicate max_threads waiting);
      })

pub main_opened-Opened :
    (h : Host) (settings : Settings) (max_threads : ℕ) (name : Bytes) (store : Store World)
    (o : Option (List Bytes)) (l : Launch)
    → main_opened h settings max_threads name store o ≡ serves l
    → Opened h settings max_threads name store o l
unfolding main_opened
main_opened-Opened h settings max_threads name store none l e = absurd cc
main_opened-Opened h settings max_threads name store (some entries) l e =
    let s : Server = record { store = store; clients_data = [] } in
    let (made, e1) = require-serves _ _ _ l e in
    let (zero_returned, e2) = require-serves _ _ _ l e1 in
    let (all, e3) = require-serves _ _ _ l e2 in
    let (semaphore, table, sessions) =
      start_client_threads-zero s h.sem_init h.has_int_table h.starts h.found zero_returned in
    let (threads, created, workers) = dispatch_threads-all h max_threads all in
    let (handled, opens, e4) = handle_fifo-serves h _ l e3 in
    record {
      entries = entries;
      opened = refl;
      made = fifo_init-made h name made;
      memory = (table, threads);
      semaphore = semaphore;
      sessions = sessions;
      created = created;
      listens = (handled, opens);
      launched =
          ap serves (sym e4)
          ∙ rw workers
              (rw (semaphore, table, start_client_threads-all s h.starts h.found sessions) refl);
    }
