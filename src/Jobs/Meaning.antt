-- ===== src/Jobs/Meaning.antt =====
-- `run_job` of src/server/main.c carries a job file out as the program that it is.
use so_proj.Base.{
  ℕ, zero, suc, ◌<◌, ◌≡◌, refl, List, [], ◌∷◌, Option, some, arith, length, ok, ◌>>=◌, Returns,
}
use so_proj.Kvs.{HashTable}
use so_proj.Kvs.Mapping.{IsTable}
use so_proj.Operations.{Callback}
use so_proj.Parser.Commands.{get_next-command_word, HasWord}
use so_proj.Parser.{get_next}
use so_proj.Jobs.{Settings, Job, serve, run_job}
use so_proj.Jobs.Programs.{
  Statement, write, read, delete, show, backup, help, blank, wait, command, arguments, job_text,
  AreProper, DoesAll,
}
use so_proj.Jobs.Statements.{abstract, IsRunning, serve-Done}

command-HasWord : (st : Statement) → HasWord (command st)
command-HasWord (write _) = tt
command-HasWord (read _) = tt
command-HasWord (delete _) = tt
command-HasWord (wait _) = tt
command-HasWord show = tt
command-HasWord backup = tt
command-HasWord help = tt
command-HasWord blank = tt

run_job-nil :
    {W : Type 0} (fuel : ℕ) (settings : Settings) (j : Job W)
    → run_job (suc fuel) settings j [] ≡ ok (some (0, j))
unfolding run_job get_next serve
run_job-nil fuel settings j = refl

module _ {W : Type 0} (settings : Settings) (on_write on_delete : Option (Callback W)) where
  Finished : List Statement → HashTable → Job W → Option (ℕ × Job W) → Type 0
  Finished program ht j r =
      (j' : Job W) × (ht' : HashTable) × (r ≡ some (0, j'))
      × IsRunning on_write on_delete ht' j'
      × DoesAll settings on_write on_delete program (abstract ht j) (abstract ht' j')

  run_job-Finished :
      (program : List Statement) (fuel : ℕ) (ht : HashTable) (j : Job W)
      → IsRunning on_write on_delete ht j
      → AreProper program
      → length program < fuel
      → Returns (run_job fuel settings j (job_text program)) (Finished program ht j)
  unfolding run_job job_text Finished DoesAll
  run_job-Finished program zero ht j h proper lt = absurd (omega arith)
  run_job-Finished [] (suc fuel) ht j h proper lt =
      (some (0, j), run_job-nil fuel settings j, (j, ht, refl, h, refl))
  run_job-Finished (st ∷ program) (suc fuel) ht j h (this, proper) lt =
      let rest = job_text program in
      let word = get_next-command_word (command st) (arguments st rest) (command-HasWord st) in
      let ((returned, j1, rest'), ran, d) =
        serve-Done settings on_write on_delete ht j rest h st this in
      let (r, ran', (j', ht', e, h', does)) =
        run_job-Finished program fuel d.table' j1 d.running proper (omega arith) in
      let left = d.left in
      let goes_on = d.goes_on in
      (
        r,
        rw (word, ran, ◌>>=◌, goes_on, left) ran',
        (j', ht', e, h', (abstract d.table' j1, d.does, does)),
      )

-- A job file whose lines are proper statements, run on a store with a well-formed table, with more
-- fuel than there are lines, ends with 0 and does just what the statements mean for the mapping of
-- the store, one after the other: the mapping, the calls of the callbacks, the results, the files of
-- the backups and their counts. The table is well formed at the end.
pub run_job-DoesAll :
    {W : Type 0} (settings : Settings) (program : List Statement) (fuel : ℕ) (ht : HashTable)
    (j : Job W)
    → j.store.kvs_table ≡ some ht
    → IsTable ht
    → AreProper program
    → length program < fuel
    → Returns (run_job fuel settings j (job_text program)) λ r.
      (j' : Job W) × (ht' : HashTable) × (r ≡ some (0, j'))
      × (j'.store.kvs_table ≡ some ht')
      × IsTable ht'
      × DoesAll settings j.store.write_callback j.store.delete_callback program
          (abstract ht j)
          (abstract ht' j')
unfolding Finished
run_job-DoesAll settings program fuel ht j has t proper lt =
    let h : IsRunning _ _ ht j = record { has = has; table = t; writes = refl; deletes = refl } in
    let (r, ran, (j', ht', e, h', does)) =
      run_job-Finished settings _ _ program fuel ht j h proper lt in
    (r, ran, (j', ht', e, h'.has, h'.table, does))
