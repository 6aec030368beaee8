-- ===== src/Jobs/Ends.antt =====
-- The loop of `run_job` in src/server/main.c comes to its end.
use so_proj.Base.{
  ℕ, zero, suc, ◌+◌, ◌≤◌, ◌<◌, ◌≡◌, refl, Bool, false, ◌==◌, ◌⊎◌, List, [], ◌∷◌, Option, none, some,
  arith, Bool-cases, Option-cases, inl, inr, length, Bytes, ok, Ensures, Ensures-any, Ensures-bind,
  ℤ,
}
use so_proj.Scan.{is_digit, read_digits, read_uint}
use so_proj.Operations.Files.{Backup}
use so_proj.Operations.{Store, kvs_write, kvs_read, kvs_delete, kvs_backup}
use so_proj.Parser.{
  Command, cmd_write, cmd_read, cmd_delete, cmd_show, cmd_wait, cmd_backup, cmd_help, cmd_empty,
  cmd_invalid, eoc, max_write_size, max_string_size, Wait, parse_write, parse_read_delete,
  parse_wait, delay_read, ends_number, get_next,
}
use so_proj.Parser.Commands.{length-cleanup-le, length-get_next-le}
use so_proj.Parser.Bounds.{KeyFits, parse_write-Listed, parse_read_delete-Listed}
use so_proj.Parser.Reads.{Listed, PairFits}
use so_proj.Jobs.{
  Settings, Job, Round, after_write, after_read, after_delete, backup_ends, run_backup, serve,
  run_job,
}

DigitsRead : Bytes → Bytes × ℕ × Bytes → Type 0
DigitsRead input (digits, next, rest) = length rest ≤ length input

read_digits-le : (room : ℕ) (input : Bytes) → Ensures (DigitsRead input) (read_digits room input)
unfolding read_digits DigitsRead
read_digits-le room [] = tt
read_digits-le zero (c ∷ input) = tt
read_digits-le (suc room) (c ∷ input) = elim (Bool-cases (is_digit c)) [
  | inr ne ↦ rw ne (omega arith)
  | inl e ↦ rw e (
      Ensures-bind (DigitsRead input) (DigitsRead (c ∷ input)) (read_digits room input) _
        (read_digits-le room input) λ (digits, next, rest) le. omega arith)
]

read_uint-le :
    (input : Bytes)
    → Ensures (λ (r : Option ℕ × ℕ × Bytes). length r.2 ≤ length input) (read_uint input)
unfolding read_uint DigitsRead
read_uint-le input =
    Ensures-bind (DigitsRead input) _ (read_digits 16 input) _ (read_digits-le 16 input)
      λ (digits, next, rest) le. le

delay_read-le :
    (input : Bytes) (r : Option ℕ × ℕ × Bytes)
    → length r.2 ≤ length input
    → Ensures (λ (w : Wait). length w.rest ≤ length input) (delay_read false r)
delay_read-le input (none, ch, rest) le = let c = length-cleanup-le rest in omega arith
delay_read-le input (some delay, ch, rest) le =
    let c = length-cleanup-le rest in
    elim (Bool-cases (ch == b' ')) [
      | inl blank ↦ rw blank (omega arith)
      | inr not_blank ↦ elim (Bool-cases (ends_number ch)) [
        | inl ended ↦ rw (not_blank, ended) le
        | inr junk ↦ rw (not_blank, junk) (omega arith)
      ]
    ]

parse_wait-le :
    (input : Bytes) → Ensures (λ (w : Wait). length w.rest ≤ length input) (parse_wait false input)
unfolding parse_wait
parse_wait-le input =
    Ensures-bind (λ (r : Option ℕ × ℕ × Bytes). length r.2 ≤ length input) _ (read_uint input) _
      (read_uint-le input) (delay_read-le input)

-- A round either ends the job with 0 or leaves no more input than it found.
Served : {W : Type 0} → Bytes → Round W → Type 0
Served input (returned, j, rest) =
    (returned ≡ some 0) ⊎ ((returned ≡ none) × (length rest ≤ length input))

module _ {W : Type 0} where
  after_write-Served :
      (j : Job W) (input : Bytes) (r : List (Bytes × Bytes) × Bytes)
      → length r.1 ≤ length input
      → Ensures (Served input) (after_write j r)
  unfolding Served
  after_write-Served j input ([], rest) le = inr (refl, le)
  after_write-Served j input (p ∷ pairs, rest) le =
      Ensures-any _ (kvs_write j.store (p ∷ pairs)) _ λ r. inr (refl, le)

  after_read-Served :
      (j : Job W) (input : Bytes) (r : List Bytes × Bytes)
      → length r.1 ≤ length input
      → Ensures (Served input) (after_read j r)
  unfolding Served
  after_read-Served j input ([], rest) le = inr (refl, le)
  after_read-Served j input (key ∷ keys, rest) le =
      Ensures-any _ (kvs_read j.store (key ∷ keys)) _ λ r. inr (refl, le)

  after_delete-Served :
      (j : Job W) (input : Bytes) (r : List Bytes × Bytes)
      → length r.1 ≤ length input
      → Ensures (Served input) (after_delete j r)
  unfolding Served
  after_delete-Served j input ([], rest) le = inr (refl, le)
  after_delete-Served j input (key ∷ keys, rest) le =
      Ensures-any _ (kvs_delete j.store (key ∷ keys)) _ λ r. inr (refl, le)

  -- In the process that runs the jobs a backup never returns 1.
  kvs_backup-parent :
      (s : Store W) (number : ℕ) (name directory : Bytes) (forked : Bool)
      → Ensures
          (λ (r : Option Backup × Bytes × ℤ). backup_ends r.2 ≡ none)
          (kvs_backup s number name directory forked)
  unfolding kvs_backup
  kvs_backup-parent s number name directory forked = elim (Option-cases s.kvs_table) [
    | inl e ↦ rw e tt
    | inr (ht, e) ↦ elim (Bool-cases forked) [ inl f ↦ rw (e, f) refl | inr f ↦ rw (e, f) refl ]
  ]

  run_backup-Served :
      (settings : Settings) (j : Job W) (input : Bytes)
      → Ensures (Served input) (run_backup settings j input)
  unfolding run_backup Served
  run_backup-Served settings j input =
      let number = j.file_backups + 1 in
      Ensures-bind (λ (r : Option Backup × Bytes × ℤ). backup_ends r.2 ≡ none) _
        (kvs_backup j.store number j.filename settings.jobs_directory (settings.forks number)) _
        (kvs_backup-parent j.store number j.filename settings.jobs_directory
          (settings.forks number))
        λ r never. inr (never, omega arith)

  serve-Served :
      (settings : Settings) (j : Job W) (command : Command) (input : Bytes)
      → Ensures (Served input) (serve settings j command input)
  unfolding serve Served
  serve-Served settings j cmd_write input =
      Ensures-bind (Listed PairFits max_write_size input) _ (parse_write max_write_size input) _
        (parse_write-Listed max_write_size input) λ r l. after_write-Served j input r l.rest
  serve-Served settings j cmd_read input =
      Ensures-bind (Listed (KeyFits max_string_size) max_write_size input) _
        (parse_read_delete max_write_size max_string_size input) _
        (parse_read_delete-Listed max_write_size max_string_size input)
        λ r l. after_read-Served j input r l.rest
  serve-Served settings j cmd_delete input =
      Ensures-bind (Listed (KeyFits max_string_size) max_write_size input) _
        (parse_read_delete max_write_size max_string_size input) _
        (parse_read_delete-Listed max_write_size max_string_size input)
        λ r l. after_delete-Served j input r l.rest
  serve-Served settings j cmd_show input = inr (refl, omega arith)
  serve-Served settings j cmd_wait input =
      Ensures-bind (λ (w : Wait). length w.rest ≤ length input) _ (parse_wait false input) _
        (parse_wait-le input) λ w le. inr (refl, le)
  serve-Served settings j cmd_backup input = run_backup-Served settings j input
  serve-Served settings j cmd_help input = inr (refl, omega arith)
  serve-Served settings j cmd_empty input = inr (refl, omega arith)
  serve-Served settings j cmd_invalid input = inr (refl, omega arith)
  serve-Served settings j eoc input = inl refl

  Ended : Option (ℕ × Job W) → Type 0
  Ended r = (j : Job W) × (r ≡ some (0, j))

  after_round :
      (fuel : ℕ) (settings : Settings) (input : Bytes) (r : Round W)
      → Served input r
      → (length r.2 ≤ length input → Ensures Ended (run_job fuel settings r.1 r.2))
      → Ensures Ended
          (elim r.0 [ none ↦ run_job fuel settings r.1 r.2 | some code ↦ ok (some (code, r.1)) ])
  unfolding Served Ended
  after_round fuel settings input (returned, j, rest) (inl e) more = rw e (j, refl)
  after_round fuel settings input (returned, j, rest) (inr (e, le)) more = rw e (more le)

  -- With more fuel than the input has bytes, `run_job` comes to the end of the input: unless a
  -- round faults, it returns 0. No input makes it read for ever.
  pub run_job-Ended :
      (fuel : ℕ) (settings : Settings) (j : Job W) (input : Bytes)
      → length input < fuel
      → Ensures (λ r. (j' : Job W) × (r ≡ some (0, j'))) (run_job fuel settings j input)
  unfolding run_job get_next Ended
  run_job-Ended zero settings j input lt = absurd (omega arith)
  run_job-Ended (suc fuel) settings j [] lt = (j, refl)
  run_job-Ended (suc fuel) settings j (c ∷ input) lt =
      let (command, rest) = get_next (c ∷ input) in
      Ensures-bind (Served rest) Ended (serve settings j command rest) _
        (serve-Served settings j command rest)
        λ r served. after_round fuel settings rest r served λ le.
          run_job-Ended fuel settings r.1 r.2
            (let shrinks = length-get_next-le c input in omega arith)
