-- ===== src/Jobs/Statements.antt =====
-- One command of a job file in src/server/main.c: `serve` does what its statement means.
use so_proj.Base.{
  ℕ, ◌+◌, ◌≤◌, ◌≡◌, refl, ap, ◌∙◌, false, List, [], ◌∷◌, ◌++◌, Option, none, some, arith,
  Bool-cases, inl, inr, ltb, Bytes, codes, ◌>>=◌, Returns,
}
use so_proj.Kvs.{HashTable}
use so_proj.Kvs.Mapping.{view, IsTable}
use so_proj.Operations.Deletes.{deletions, kvs_delete-Deleted}
use so_proj.Operations.Files.{Backup, bck_name, strtok_dot}
use so_proj.Operations.Shows.{read_items, kvs_read-read_items, kvs_backup-kvs_show, kvs_show-view}
use so_proj.Operations.Writes.{deliver, dict_changes, kvs_write-Written}
use so_proj.Operations.{Callback, Store, kvs_show}
use so_proj.Parser.Lines.{parse_wait-write_uint}
use so_proj.Parser.Lists.{parse_write-write_text, parse_read_delete-list_text}
use so_proj.Parser.{
  Pairs, cmd_write, cmd_read, cmd_delete, cmd_show, cmd_wait, cmd_backup, max_write_size,
}
use so_proj.Scan.{uint_max}
use so_proj.Jobs.{Settings, Job, add_backup, admitted, Round, run_backup, serve}
use so_proj.Jobs.Programs.{
  Statement, write, read, delete, show, backup, help, blank, wait, command, arguments, IsProper,
  backup_file, Abstract, Does,
}

module _ {W : Type 0} where
  -- A job whose store has the table `ht`.
  abbrev pub abstract : HashTable → Job W → Abstract W
  abstract ht j = record {
    dict = view ht;
    world = j.store.world;
    out = j.out;
    backups = j.backups;
    active_backups = j.active_backups;
    file_backups = j.file_backups;
    filename = j.filename;
  }

  -- What a job keeps between two statements.
  pub record IsRunning (on_write on_delete : Option (Callback W)) (ht : HashTable) (j : Job W)
      : Type 0 where
    pub has : j.store.kvs_table ≡ some ht
    pub table : IsTable ht
    pub writes : j.store.write_callback ≡ on_write
    pub deletes : j.store.delete_callback ≡ on_delete

module _ {W : Type 0} (settings : Settings) (on_write on_delete : Option (Callback W)) where
  -- A round that has done a statement.
  pub record Done (st : Statement) (ht : HashTable) (j : Job W) (rest : Bytes) (r : Round W)
      : Type 0 where
    pub goes_on : r.0 ≡ none
    pub left : r.2 ≡ rest
    pub table' : HashTable
    pub running : IsRunning on_write on_delete table' r.1
    pub does : Does settings on_write on_delete st (abstract ht j) (abstract table' r.1)

  -- The job has another store, with the table `ht'`, and its results have grown.
  stored :
      {ht : HashTable} {j : Job W} (ht' : HashTable) (s : Store W) (w : W)
      → IsRunning on_write on_delete ht j
      → s ≡ record (j.store) { kvs_table = some ht'; world = w }
      → IsTable ht'
      → (out : Bytes) → IsRunning on_write on_delete ht' (record j { store = s; out = out })
  stored ht' s w h same t out = record {
    has = ap (λ (s : Store W). s.kvs_table) same;
    table = t;
    writes = ap (λ (s : Store W). s.write_callback) same ∙ h.writes;
    deletes = ap (λ (s : Store W). s.delete_callback) same ∙ h.deletes;
  }

  kept :
      {ht : HashTable} {j j' : Job W}
      → IsRunning on_write on_delete ht j
      → j'.store ≡ j.store
      → IsRunning on_write on_delete ht j'
  kept h same = record {
    has = ap (λ (s : Store W). s.kvs_table) same ∙ h.has;
    table = h.table;
    writes = ap (λ (s : Store W). s.write_callback) same ∙ h.writes;
    deletes = ap (λ (s : Store W). s.delete_callback) same ∙ h.deletes;
  }

  module _ (ht : HashTable) (j : Job W) (rest : Bytes) (h : IsRunning on_write on_delete ht j) where
    serve_write-Done :
        (pair : Bytes × Bytes) (pairs : Pairs)
        → IsProper (write (pair ∷ pairs))
        → Returns
            (serve settings j cmd_write (arguments (write (pair ∷ pairs)) rest))
            (Done (write (pair ∷ pairs)) ht j rest)
    unfolding serve
    serve_write-Done pair pairs (ne, few, words, slots) =
        let read_ = parse_write-write_text (pair ∷ pairs) max_write_size rest ne few words in
        let ((s, code), ran, (zero_, (ht', same, t, reads))) =
          kvs_write-Written j.store ht (pair ∷ pairs) h.has h.table slots in
        let told =
          ap (λ (s : Store W). s.world) same
          ∙ ap
              (λ (c : Option (Callback W)).
                deliver c j.store.world (dict_changes (view ht) (pair ∷ pairs)))
              h.writes in
        (
          (none, record j { store = s }, rest),
          rw (read_, ◌>>=◌, ran),
          record {
            goes_on = refl;
            left = refl;
            table' = ht';
            running = stored ht' s _ h same t j.out;
            does = λ i. record (abstract ht j) { dict = reads i; world = told i };
          },
        )

    serve_read-Done :
        (key : Bytes) (keys : List Bytes)
        → IsProper (read (key ∷ keys))
        → Returns
            (serve settings j cmd_read (arguments (read (key ∷ keys)) rest))
            (Done (read (key ∷ keys)) ht j rest)
    unfolding serve
    serve_read-Done key keys (ne, few, words, slots) =
        let read_ = parse_read_delete-list_text (key ∷ keys) max_write_size rest ne few words in
        let ran = kvs_read-read_items j.store ht (key ∷ keys) h.has slots in
        let printed = codes "[" ++ (read_items (view ht) (key ∷ keys) ++ codes "]\n") in
        (
          (none, record j { out = j.out ++ printed }, rest),
          rw (read_, ◌>>=◌, ran),
          record { goes_on = refl; left = refl; table' = ht; running = kept h refl; does = refl },
        )

    serve_delete-Done :
        (key : Bytes) (keys : List Bytes)
        → IsProper (delete (key ∷ keys))
        → Returns
            (serve settings j cmd_delete (arguments (delete (key ∷ keys)) rest))
            (Done (delete (key ∷ keys)) ht j rest)
    unfolding serve
    serve_delete-Done key keys (ne, few, words, slots) =
        let read_ = parse_read_delete-list_text (key ∷ keys) max_write_size rest ne few words in
        let ((s, printed, code), ran, (text, zero_, (ht', same, t, reads))) =
          kvs_delete-Deleted j.store ht (key ∷ keys) h.has h.table slots in
        let told =
          ap (λ (s : Store W). s.world) same
          ∙ ap (λ (c : Option (Callback W)). deliver c j.store.world (deletions (key ∷ keys)))
              h.deletes in
        (
          (none, record j { store = s; out = j.out ++ printed }, rest),
          rw (read_, ◌>>=◌, ran),
          record {
            goes_on = refl;
            left = refl;
            table' = ht';
            running = stored ht' s _ h same t (j.out ++ printed);
            does = λ i. record (abstract ht j) {
              dict = reads i;
              world = told i;
              out = j.out ++ text i;
            };
          },
        )

    serve_show-Done : Returns (serve settings j cmd_show rest) (Done show ht j rest)
    unfolding serve
    serve_show-Done =
        let (nodes, shown, lists) = kvs_show-view j.store ht h.has h.table in
        (
          (none, record j { out = j.out ++ kvs_show j.store }, rest),
          refl,
          record {
            goes_on = refl;
            left = refl;
            table' = ht;
            running = kept h refl;
            does = (nodes, lists, λ i. record (abstract ht j) { out = j.out ++ shown i });
          },
        )

    serve_backup-Done : Returns (serve settings j cmd_backup rest) (Done backup ht j rest)
    unfolding serve run_backup
    serve_backup-Done =
        let number = j.file_backups + 1 in
        let (nodes, shown, lists) = kvs_show-view j.store ht h.has h.table in
        let (name, left) = strtok_dot j.filename in
        let path = bck_name settings.jobs_directory name number in
        let ran =
          kvs_backup-kvs_show j.store ht number j.filename settings.jobs_directory
            (settings.forks number) h.has in
        let j' = λ (file : Option Backup). record j {
          backups = add_backup j.backups file;
          active_backups = admitted settings j.active_backups;
          file_backups = number;
          filename = left;
        } in
        (
          (none, j' (backup_file path (kvs_show j.store) (settings.forks number)), rest),
          elim (Bool-cases (settings.forks number)) [
            | inl made ↦ rw (ran, made)
            | inr failed ↦ rw (ran, failed)
          ],
          record {
            goes_on = refl;
            left = refl;
            table' = ht;
            running = kept h refl;
            does = (
              nodes,
              lists,
              λ i. abstract ht (j' (backup_file path (shown i) (settings.forks number))),
            );
          },
        )

    serve_wait-Done :
        (delay_ms : ℕ)
        → delay_ms ≤ uint_max
        → Returns
            (serve settings j cmd_wait (arguments (wait delay_ms) rest))
            (Done (wait delay_ms) ht j rest)
    unfolding serve
    serve_wait-Done delay_ms le =
        let small : ltb uint_max delay_ms ≡ false = ground arith in
        let ran = parse_wait-write_uint delay_ms false rest (omega arith) in
        (
          (none, j, rest),
          rw (ran, small),
          record { goes_on = refl; left = refl; table' = ht; running = h; does = refl },
        )

    pub serve-Done :
        (st : Statement)
        → IsProper st
        → Returns (serve settings j (command st) (arguments st rest)) (Done st ht j rest)
    unfolding serve
    serve-Done (write []) (ne, _, _, _) = absurd (ne refl)
    serve-Done (write (pair ∷ pairs)) proper = serve_write-Done pair pairs proper
    serve-Done (read []) (ne, _, _, _) = absurd (ne refl)
    serve-Done (read (key ∷ keys)) proper = serve_read-Done key keys proper
    serve-Done (delete []) (ne, _, _, _) = absurd (ne refl)
    serve-Done (delete (key ∷ keys)) proper = serve_delete-Done key keys proper
    serve-Done show proper = serve_show-Done
    serve-Done backup proper = serve_backup-Done
    serve-Done (wait delay_ms) le = serve_wait-Done delay_ms le
    serve-Done help proper =
        (_, refl, record { goes_on = refl; left = refl; table' = ht; running = h; does = refl })
    serve-Done blank proper =
        (_, refl, record { goes_on = refl; left = refl; table' = ht; running = h; does = refl })
