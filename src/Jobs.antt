-- ===== src/Jobs.antt =====
-- `run_job` of src/server/main.c: the commands of one job file, one round at a time.
-- Messages to the terminal are left out, and `kvs_wait`, which only lets time pass.
pub mod Ends
pub mod Programs
pub mod Statements
pub mod Meaning
pub mod Keeps
use so_proj.Base.{
  ℕ, zero, suc, ◌+◌, Bool, true, false, List, [], ◌∷◌, ◌++◌, Option, none, some, leb, if◌then◌else◌,
  Bytes, Run, ok, ◌>>=◌, ℤ, pos,
}
use so_proj.Operations.Files.{Backup}
use so_proj.Operations.{Store, kvs_write, kvs_read, kvs_delete, kvs_show, kvs_backup}
use so_proj.Parser.{
  Command, cmd_write, cmd_read, cmd_delete, cmd_show, cmd_wait, cmd_backup, cmd_help, cmd_empty,
  cmd_invalid, eoc, max_write_size, max_string_size, get_next, parse_write, parse_read_delete,
  parse_wait,
}

-- The server's settings, and which calls of `fork` succeed, by the number of the backup.
pub record Settings : Type 0 where
  pub jobs_directory : Bytes
  pub max_backups : ℕ
  pub forks : ℕ → Bool

-- What a job changes: the store, the file of results, the files of its backups, the backups that
-- the server counts and those of the job, and the name of the job file.
pub record Job (W : Type 0) : Type 0 where
  pub store : Store W
  pub out : Bytes
  pub backups : List Backup
  pub active_backups : ℕ
  pub file_backups : ℕ
  pub filename : Bytes

abbrev pub is_none {ℓ} : {A : Type ℓ} → List A → Bool
is_none [] = true
is_none (_ ∷ _) = false

-- The number with which `run_job` returns, if it does, the job and the input left.
abbrev pub Round : Type 0 → Type 0
Round W = Option ℕ × Job W × Bytes

abbrev pub add_backup : List Backup → Option Backup → List Backup
add_backup backups none = backups
add_backup backups (some b) = backups ++ b ∷ []

-- A backup beyond the limit first waits for one that is running, so the count stays.
abbrev pub admitted : Settings → ℕ → ℕ
admitted settings active = if leb settings.max_backups active then active else active + 1

-- 1 would be the result in a child, which `kvs_backup` ends itself.
abbrev pub backup_ends : ℤ → Option ℕ
backup_ends (pos (suc zero)) = some 1
backup_ends _ = none

module _ {W : Type 0} where
  abbrev pub after_write : Job W → List (Bytes × Bytes) × Bytes → Run (Round W)
  after_write j ([], rest) = ok (none, j, rest)
  after_write j (pair ∷ pairs, rest) = do
    (s, _) ← kvs_write j.store (pair ∷ pairs)
    ok (none, record j { store = s }, rest)

  abbrev pub after_read : Job W → List Bytes × Bytes → Run (Round W)
  after_read j ([], rest) = ok (none, j, rest)
  after_read j (key ∷ keys, rest) = do
    (printed, _) ← kvs_read j.store (key ∷ keys)
    ok (none, record j { out = j.out ++ printed }, rest)

  abbrev pub after_delete : Job W → List Bytes × Bytes → Run (Round W)
  after_delete j ([], rest) = ok (none, j, rest)
  after_delete j (key ∷ keys, rest) = do
    (s, printed, _) ← kvs_delete j.store (key ∷ keys)
    ok (none, record j { store = s; out = j.out ++ printed }, rest)

  pub run_backup : Settings → Job W → Bytes → Run (Round W)
  run_backup settings j rest = do
    let number = j.file_backups + 1
    (file, filename', aux) ←
        kvs_backup j.store number j.filename settings.jobs_directory (settings.forks number)
    ok (
      backup_ends aux,
      record j {
        backups = add_backup j.backups file;
        active_backups = admitted settings j.active_backups;
        file_backups = number;
        filename = filename';
      },
      rest,
    )

  -- The cases of the `switch`, on the input behind the command.
  unfoldable pub serve : Settings → Job W → Command → Bytes → Run (Round W)
  unfolding run_backup
  serve settings j cmd_write rest = do r ← parse_write max_write_size rest; after_write j r
  serve settings j cmd_read rest = do
    r ← parse_read_delete max_write_size max_string_size rest
    after_read j r
  serve settings j cmd_delete rest = do
    r ← parse_read_delete max_write_size max_string_size rest
    after_delete j r
  serve settings j cmd_show rest = ok (none, record j { out = j.out ++ kvs_show j.store }, rest)
  serve settings j cmd_wait rest = do w ← parse_wait false rest; ok (none, j, w.rest)
  serve settings j cmd_backup rest = run_backup settings j rest
  serve settings j eoc rest = ok (some 0, j, rest)
  serve settings j _ rest = ok (none, j, rest)

  -- `none` if the fuel runs out; else the number that `run_job` returns, and the job at its end.
  pub run_job : ℕ → Settings → Job W → Bytes → Run (Option (ℕ × Job W))
  unfolding serve
  run_job zero settings j input = ok none
  run_job (suc fuel) settings j input =
      let (command, rest) = get_next input in
      do
        (returned, j', rest') ← serve settings j command rest
        let more = run_job fuel settings j' rest'
        elim returned [ none ↦ more | some code ↦ ok (some (code, j')) ]
