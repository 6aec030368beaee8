-- ===== src/Directory/Entries.antt =====
-- How the threads of src/server/main.c share the names of the directory.
use so_proj.Base.{
  ℕ, zero, suc, ◌+◌, ◌<◌, ◌≡◌, refl, List, [], ◌∷◌, ◌++◌, Option, none, some, arith, Option-cases,
  inl, inr, length, set, Bytes, equal, replicate,
}
use so_proj.Coperations.Nodes.{to_nat}
use so_proj.Entries.{entry_files}
use so_proj.Directory.{Found, next_job, Worker, waiting, gone, working, worker_at}

-- The names of the directory that are jobs.
unfoldable pub jobs : Bytes → List Bytes → List Bytes
jobs dir [] = []
jobs dir (d_name ∷ entries) = elim (entry_files dir d_name) [
  | none ↦ jobs dir entries
  | some _ ↦ d_name ∷ jobs dir entries
]

-- How often a name is among some.
abbrev pub times : Bytes → List Bytes → ℕ
times q [] = 0
times q (name ∷ names) = to_nat (equal name q) + times q names

pub times-append : (q : Bytes) (a b : List Bytes) → times q (a ++ b) ≡ times q a + times q b
times-append q [] b = omega arith
times-append q (name ∷ a) b = omega (arith, times-append q a b)

abbrev pub runs : Bytes → Worker → ℕ
runs q waiting = 0
runs q gone = 0
runs q (working t) = to_nat (equal t.entry q)

-- How many threads run the job of a name.
pub running : Bytes → List Worker → ℕ
running q [] = 0
running q (w ∷ workers) = runs q w + running q workers

pub running-replicate : (q : Bytes) (n : ℕ) → running q (replicate n waiting) ≡ 0
unfolding running
running-replicate q zero = refl
running-replicate q (suc n) = omega (arith, running-replicate q n)

pub running-set :
    (q : Bytes) (workers : List Worker) (i : ℕ) (w : Worker)
    → i < length workers
    → running q (set workers i w) + runs q (worker_at workers i) ≡ running q workers + runs q w
unfolding running
running-set q [] i w lt = absurd (omega arith)
running-set q (v ∷ workers) zero w lt = omega arith
running-set q (v ∷ workers) (suc i) w lt = omega (arith, running-set q workers i w (omega arith))

-- The jobs that a search leaves, with the one that it finds.
abbrev pub picked : Bytes → Option (Found × List Bytes) → List Bytes
picked dir none = []
picked dir (some (f, rest)) = f.d_name ∷ jobs dir rest

pub jobs-next_job :
    (dir : Bytes) (entries : List Bytes) → jobs dir entries ≡ picked dir (next_job dir entries)
unfolding next_job jobs
jobs-next_job dir [] = refl
jobs-next_job dir (d_name ∷ entries) = elim (Option-cases (entry_files dir d_name)) [
  | inl other ↦ rw (other, jobs, next_job) (jobs-next_job dir entries)
  | inr ((in_path, out_path), job) ↦ rw (job, jobs, next_job)
]
