-- ===== src/Jobs/Programs.antt =====
-- Job files as programs: their text, and what they mean for a map of keys to values.
use so_proj.Base.{
  ℕ, ◌+◌, ◌≤◌, ◌<◌, ◌≡◌, ◌≢◌, Bool, List, [], ◌∷◌, ◌++◌, Option, none, some, if◌then◌else◌, length,
  Bytes, codes,
}
use so_proj.Kvs.Chains.{count}
use so_proj.Kvs.{Chain, find}
use so_proj.Operations.Deletes.{KeysHaveSlots, dict_delete, dict_missing, deletions, missing_report}
use so_proj.Operations.Files.{Backup, write_uint, show_chain, bck_name, strtok_dot}
use so_proj.Operations.Shows.{read_items}
use so_proj.Operations.Writes.{AllHaveSlots, Dict, deliver, dict_write, dict_changes}
use so_proj.Operations.{Callback}
use so_proj.Parser.Commands.{command_word}
use so_proj.Parser.Lists.{AreWords, write_text, KeysAreWords, list_text}
use so_proj.Parser.{
  Pairs, Command, cmd_write, cmd_read, cmd_delete, cmd_show, cmd_wait, cmd_backup, cmd_help,
  cmd_empty, max_write_size,
}
use so_proj.Scan.{uint_max}
use so_proj.Jobs.{Settings, add_backup, admitted}

pub data Statement : Type 0 where
  write : (pairs : Pairs) → Statement
  read delete : (keys : List Bytes) → Statement
  show backup help blank : Statement
  wait : (delay_ms : ℕ) → Statement

-- The word of a statement, and what stands behind it, in front of the lines that follow.
abbrev pub command : Statement → Command
command (write pairs) = cmd_write
command (read keys) = cmd_read
command (delete keys) = cmd_delete
command show = cmd_show
command backup = cmd_backup
command help = cmd_help
command blank = cmd_empty
command (wait delay_ms) = cmd_wait

abbrev pub arguments : Statement → Bytes → Bytes
arguments (write pairs) rest = write_text pairs (b'\n' ∷ rest)
arguments (read keys) rest = list_text keys (b'\n' ∷ rest)
arguments (delete keys) rest = list_text keys (b'\n' ∷ rest)
arguments (wait delay_ms) rest = write_uint delay_ms ++ (b'\n' ∷ rest)
arguments _ rest = rest

unfoldable pub job_text : List Statement → Bytes
job_text [] = []
job_text (st ∷ program) = command_word (command st) ++ arguments st (job_text program)

-- Statements that a line can hold: fewer items than the limit, and at least one, whose keys and
-- values are words and whose keys have slots.
abbrev pub IsProper : Statement → Type 0
IsProper (write pairs) =
    (pairs ≢ []) × (length pairs < max_write_size) × AreWords pairs × AllHaveSlots pairs
IsProper (read keys) =
    (keys ≢ []) × (length keys < max_write_size) × KeysAreWords keys × KeysHaveSlots keys
IsProper (delete keys) =
    (keys ≢ []) × (length keys < max_write_size) × KeysAreWords keys × KeysHaveSlots keys
IsProper (wait delay_ms) = delay_ms ≤ uint_max
IsProper _ = Unit

abbrev pub AreProper : List Statement → Type 0
AreProper [] = Unit
AreProper (st ∷ program) = IsProper st × AreProper program

-- What a job sees of the server, with the mapping of the store in place of its table.
pub record Abstract (W : Type 0) : Type 0 where
  pub dict : Dict
  pub world : W
  pub out : Bytes
  pub backups : List Backup
  pub active_backups : ℕ
  pub file_backups : ℕ
  pub filename : Bytes

-- Nodes that list a mapping: every key of it once, with its value, and no other.
abbrev pub Lists : Dict → Chain → Type 0
Lists m nodes = (q : Bytes) → (find q nodes ≡ m q) × (count q nodes ≤ 1)

-- The file of a backup, if there is a process for it.
abbrev pub backup_file : Bytes → Bytes → Bool → Option Backup
backup_file path content made =
    if made then some (record { path = path; content = content }) else none

module _ {W : Type 0} (settings : Settings) (on_write on_delete : Option (Callback W)) where
  -- A backup is a file only if its process can be made; it is counted all the same.
  abbrev pub backed_up : Abstract W → Bytes → Abstract W
  backed_up a content =
      let number = a.file_backups + 1 in
      let (name, left) = strtok_dot a.filename in
      let path = bck_name settings.jobs_directory name number in
      record a {
        backups = add_backup a.backups (backup_file path content (settings.forks number));
        active_backups = admitted settings a.active_backups;
        file_backups = number;
        filename = left;
      }

  -- The meaning of a statement. The order in which the pairs are shown is left open.
  abbrev pub Does : Statement → Abstract W → Abstract W → Type 0
  Does (write pairs) a a' = a' ≡ record a {
    dict = dict_write a.dict pairs;
    world = deliver on_write a.world (dict_changes a.dict pairs);
  }
  Does (read keys) a a' =
      a' ≡ record a { out = a.out ++ (codes "[" ++ (read_items a.dict keys ++ codes "]\n")) }
  Does (delete keys) a a' = a' ≡ record a {
    dict = dict_delete a.dict keys;
    world = deliver on_delete a.world (deletions keys);
    out = a.out ++ missing_report (dict_missing a.dict keys);
  }
  Does show a a' =
      (nodes : Chain) × Lists a.dict nodes × (a' ≡ record a { out = a.out ++ show_chain nodes })
  Does backup a a' = (nodes : Chain) × Lists a.dict nodes × (a' ≡ backed_up a (show_chain nodes))
  Does _ a a' = a' ≡ a

  unfoldable pub DoesAll : List Statement → Abstract W → Abstract W → Type 0
  DoesAll [] a a' = a' ≡ a
  DoesAll (st ∷ program) a a' = (b : Abstract W) × Does st a b × DoesAll program b a'
