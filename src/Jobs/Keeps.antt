-- ===== src/Jobs/Keeps.antt =====
-- What one command of a job, whatever it is, keeps of the store in src/server/main.c.
use so_proj.Base.{
  ℕ, ◌≤◌, ◌≡◌, false, List, [], ◌∷◌, Option, none, some, arith, Bytes, Ensures, Ensures-any,
  Ensures-bind,
}
use so_proj.Kvs.{HashTable}
use so_proj.Kvs.Mapping.{IsTable}
use so_proj.Operations.Keeps.{Stored, kvs_write-Stored, kvs_delete-Stored}
use so_proj.Operations.{call, kvs_write, kvs_read, kvs_delete, kvs_backup}
use so_proj.Parser.{
  Command, cmd_write, cmd_read, cmd_delete, cmd_show, cmd_wait, cmd_backup, cmd_help, cmd_empty,
  cmd_invalid, eoc, max_write_size, max_string_size, parse_write, parse_read_delete, parse_wait,
}
use so_proj.Jobs.{
  Settings, Job, Round, admitted, after_write, after_read, after_delete, run_backup, serve,
}

admitted-le :
    (settings : Settings) (n : ℕ)
    → n ≤ settings.max_backups
    → admitted settings n ≤ settings.max_backups
admitted-le settings n le = ground arith

module _ {W : Type 0} (P : W → Type 0) (settings : Settings) (j : Job W) (ht : HashTable)
    (e : j.store.kvs_table ≡ some ht) (t : IsTable ht) (p : P j.store.world)
    (writes : (key : Bytes) (value : Option Bytes) (w : W)
      → P w
      → P (call j.store.write_callback key value w))
    (deletes : (key : Bytes) (value : Option Bytes) (w : W)
      → P w
      → P (call j.store.delete_callback key value w)) where
  -- The store has a well-formed table, and no more backups are counted than may run.
  pub record RoundKept (r : Round W) : Type 0 where
    pub stored : Stored P j.store r.1.store
    pub few : j.active_backups ≤ settings.max_backups → r.1.active_backups ≤ settings.max_backups

  unchanged_store : Stored P j.store j.store
  unchanged_store = record {
    ht = ht;
    world = j.store.world;
    same = λ i. record (j.store) { kvs_table = e i };
    table = t;
    holds = p;
  }

  idle :
      (returned : Option ℕ) (out rest : Bytes) → RoundKept (returned, record j { out = out }, rest)
  idle returned out rest = record { stored = unchanged_store; few = λ le. le }

  after_write-RoundKept : (r : List (Bytes × Bytes) × Bytes) → Ensures RoundKept (after_write j r)
  after_write-RoundKept ([], rest) = idle none j.out rest
  after_write-RoundKept (pair ∷ pairs, rest) =
      Ensures-bind _ RoundKept (kvs_write j.store (pair ∷ pairs)) _
        (kvs_write-Stored P j.store ht e t p writes (pair ∷ pairs))
        λ r stored. record { stored = stored; few = λ le. le }

  after_read-RoundKept : (r : List Bytes × Bytes) → Ensures RoundKept (after_read j r)
  after_read-RoundKept ([], rest) = idle none j.out rest
  after_read-RoundKept (key ∷ keys, rest) =
      Ensures-any RoundKept (kvs_read j.store (key ∷ keys)) _ λ r. idle none _ rest

  after_delete-RoundKept : (r : List Bytes × Bytes) → Ensures RoundKept (after_delete j r)
  after_delete-RoundKept ([], rest) = idle none j.out rest
  after_delete-RoundKept (key ∷ keys, rest) =
      Ensures-bind _ RoundKept (kvs_delete j.store (key ∷ keys)) _
        (kvs_delete-Stored P j.store ht e t p deletes (key ∷ keys))
        λ r stored. record { stored = stored; few = λ le. le }

  run_backup-RoundKept : (rest : Bytes) → Ensures RoundKept (run_backup settings j rest)
  unfolding run_backup
  run_backup-RoundKept rest =
      Ensures-any RoundKept (kvs_backup j.store _ j.filename settings.jobs_directory _) _
        λ r. record { stored = unchanged_store; few = admitted-le settings j.active_backups }

  -- Any command of a job on a store with a well-formed table, whose callbacks keep `P`, faults or
  -- leaves such a store, changes nothing of it but the table and the world, and does not count more
  -- backups than may run.
  pub serve-RoundKept :
      (command : Command) (input : Bytes) → Ensures RoundKept (serve settings j command input)
  unfolding serve
  serve-RoundKept cmd_write input =
      Ensures-any RoundKept (parse_write max_write_size input) _ after_write-RoundKept
  serve-RoundKept cmd_read input =
      Ensures-any RoundKept (parse_read_delete max_write_size max_string_size input) _
        after_read-RoundKept
  serve-RoundKept cmd_delete input =
      Ensures-any RoundKept (parse_read_delete max_write_size max_string_size input) _
        after_delete-RoundKept
  serve-RoundKept cmd_show input = idle none _ input
  serve-RoundKept cmd_wait input =
      Ensures-any RoundKept (parse_wait false input) _ λ w. idle none j.out w.rest
  serve-RoundKept cmd_backup input = run_backup-RoundKept input
  serve-RoundKept cmd_help input = idle none j.out input
  serve-RoundKept cmd_empty input = idle none j.out input
  serve-RoundKept cmd_invalid input = idle none j.out input
  serve-RoundKept eoc input = idle (some 0) j.out input
