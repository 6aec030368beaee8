-- ===== src/Entries.antt =====
-- `entry_files` of src/server/main.c: which files of the directory are jobs, and where their output
-- goes.
pub mod Jobs
use so_proj.Base.{
  ℕ, ◌+◌, ◌-◌, ◌<◌, Bool, true, false, not, ◌&&◌, List, [], ◌∷◌, ◌++◌, Option, none, some, ◌==◌,
  ltb, if◌then◌else◌, length, take, Bytes, codes, equal,
}

-- MAX_JOB_FILE_NAME_SIZE
abbrev pub max_job_file_name_size : ℕ
max_job_file_name_size = 256

-- `strrchr`: the string from its last byte `c` on.
unfoldable pub strrchr : Bytes → ℕ → Option Bytes
strrchr [] c = none
strrchr (b ∷ bytes) c = elim (strrchr bytes c) [
  | some rest ↦ some rest
  | none ↦ if b == c then some (b ∷ bytes) else none
]

-- `strcpy` of a text over the rest of a string from its last dot on.
abbrev pub over_dot : Bytes → Option Bytes → Bytes → Bytes
over_dot path none text = path
over_dot path (some dot) text = take (length path - length dot) path ++ text

abbrev pub is_job : Bytes → Bytes → Bool
is_job d_name dot =
    not (length dot == length d_name) && (length dot == 4 && equal dot (codes ".job"))

-- The paths of the input and of the output, if the number 0 is returned.
unfoldable pub entry_files : Bytes → Bytes → Option (Bytes × Bytes)
unfolding strrchr
entry_files dir d_name =
    let in_path = dir ++ (codes "/" ++ d_name) in
    elim (strrchr d_name b'.') [
      | none ↦ none
      | some dot ↦
          if is_job d_name dot
          then (if ltb max_job_file_name_size (length d_name + length dir + 2)
              then none
              else some (in_path, over_dot in_path (strrchr in_path b'.') (codes ".out")))
          else none
    ]
