-- ===== src/Entries/Jobs.antt =====
-- The names that `entry_files` of src/server/main.c takes for jobs.
use so_proj.Base.{
  ℕ, ◌+◌, ◌-◌, ◌≤◌, ◌<◌, ◌≡◌, ◌≢◌, inl, inr, refl, sym, ap, ◌∙◌, true, false, [], ◌∷◌, ◌++◌, Option,
  none, some, append_assoc, append-nil, Option-cases, arith, ◌==◌, ltb, Bool-cases, length,
  length-append, take-append, Bytes, codes, equal, equal_iff, subst, ◌↔◌,
}
use so_proj.Entries.{max_job_file_name_size, strrchr, over_dot, is_job, entry_files}

strrchr-append :
    (before text rest : Bytes) (c : ℕ)
    → strrchr text c ≡ some rest
    → strrchr (before ++ text) c ≡ some rest
unfolding strrchr
strrchr-append [] text rest c e = e
strrchr-append (b ∷ before) text rest c e = rw (strrchr-append before text rest c e)

strrchr-job : (before : Bytes) → strrchr (before ++ codes ".job") b'.' ≡ some (codes ".job")
unfolding strrchr
strrchr-job before = strrchr-append before (codes ".job") (codes ".job") b'.' refl

-- The path of a file of the directory, of whose name `stem` is the part in front of the ending.
abbrev pub path_of : Bytes → Bytes → Bytes → Bytes
path_of dir stem ending = dir ++ (codes "/" ++ (stem ++ ending))

path_of-append : (dir stem ending : Bytes) → path_of dir stem ending ≡ path_of dir stem [] ++ ending
path_of-append dir stem ending =
    rw (append-nil stem) (sym (append_assoc dir (codes "/" ++ stem) ending))

over_dot-job :
    (dir stem : Bytes)
    → over_dot
        (path_of dir stem (codes ".job"))
        (strrchr (path_of dir stem (codes ".job")) b'.')
        (codes ".out")
      ≡ path_of dir stem (codes ".out")
over_dot-job dir stem =
    let start = path_of dir stem [] in
    let size : length (start ++ codes ".job") - 4 ≡ length start =
      omega (arith, length-append start (codes ".job")) in
    rw (
      path_of-append dir stem (codes ".job"),
      path_of-append dir stem (codes ".out"),
      strrchr-job start,
      size,
      take-append start (codes ".job"),
    )

job_name : (stem : Bytes) → stem ≢ [] → is_job (stem ++ codes ".job") (codes ".job") ≡ true
unfolding equal
job_name [] ne = absurd (ne refl)
job_name (c ∷ stem) ne = ground (arith, length-append stem (codes ".job"))

entry_files-job :
    (dir stem : Bytes)
    → stem ≢ []
    → length stem + length dir + 6 ≤ max_job_file_name_size
    → entry_files dir (stem ++ codes ".job")
      ≡ some (path_of dir stem (codes ".job"), path_of dir stem (codes ".out"))
unfolding entry_files
entry_files-job dir stem ne room =
    let fits : ltb max_job_file_name_size (length (stem ++ codes ".job") + length dir + 2) ≡ false =
      ground (arith, length-append stem (codes ".job")) in
    rw (entry_files, strrchr-job stem, job_name stem ne, fits, over_dot-job dir stem)

strrchr-split :
    (bytes rest : Bytes) (c : ℕ)
    → strrchr bytes c ≡ some rest
    → (before : Bytes) × (bytes ≡ before ++ rest)
unfolding strrchr
strrchr-split [] rest c e = cc
strrchr-split (b ∷ bytes) rest c e = elim (Option-cases (strrchr bytes c)) [
  | inr (found, e') ↦
      let (before, split) = strrchr-split bytes found c e' in
      let same : some found ≡ some rest = rw e' at e in
      (b ∷ before, ap (◌∷◌ b) split ∙ ap (λ (cs : Bytes). (b ∷ before) ++ cs) (cc))
  | inl e' ↦ elim (Bool-cases (b == c)) [
    | inl same ↦ ([], let found : some (b ∷ bytes) ≡ some rest = rw (e', same) at e in cc)
    | inr other ↦ let found : none ≡ some rest = rw (e', other) at e in cc
  ]
]

is_job-parts :
    (name dot : Bytes) → is_job name dot ≡ true → (length dot ≢ length name) × (dot ≡ codes ".job")
is_job-parts name dot job =
    let same : equal dot (codes ".job") ≡ true = ground arith in
    (ground arith, (equal_iff dot (codes ".job")).0 same)

none-some : (p : Bytes × Bytes) → none ≡ some p → ⊥
none-some p e = cc

first : Bytes × Bytes → Option (Bytes × Bytes) → Bytes × Bytes
first d none = d
first d (some p) = p

-- The paths of a job whose name is known to have the ending.
paths_of :
    (dir stem in_path out_path : Bytes)
    → stem ≢ []
    → entry_files dir (stem ++ codes ".job") ≡ some (in_path, out_path)
    → (in_path ≡ path_of dir stem (codes ".job"))
      × (out_path ≡ path_of dir stem (codes ".out"))
      × (length in_path < max_job_file_name_size)
unfolding entry_files first
paths_of dir stem in_path out_path ne e =
    elim (Bool-cases
      (ltb max_job_file_name_size (length (stem ++ codes ".job") + length dir + 2))) [
        | inl long ↦ absurd (
            none-some (in_path, out_path)
              (rw (entry_files, strrchr-job stem, job_name stem ne, long) at e))
        | inr fits ↦
            let room : length stem + length dir + 6 ≤ max_job_file_name_size =
              ground (arith, length-append stem (codes ".job")) in
            let paths = ap (first ([], [])) (sym e ∙ entry_files-job dir stem ne room) in
            let in_path' = ap (λ (p : Bytes × Bytes). p.0) paths in
            (
              in_path',
              ap (λ (p : Bytes × Bytes). p.1) paths,
              rw in_path' (
                  omega (
                    arith,
                    length-append dir (codes "/" ++ (stem ++ codes ".job")),
                    length-append stem (codes ".job"),
                  )),
            )
      ]

-- A name with ".job" behind a stem that is not empty, and the paths of the input and the output,
-- which are as long but for the ending, and fit in their arrays with the terminator.
abbrev pub IsJob : Bytes → Bytes → Bytes → Bytes → Type 0
IsJob dir name in_path out_path =
    (stem : Bytes) × (stem ≢ [])
    × (name ≡ stem ++ codes ".job")
    × (in_path ≡ path_of dir stem (codes ".job"))
    × (out_path ≡ path_of dir stem (codes ".out"))
    × (length in_path < max_job_file_name_size)

entry_files-only :
    (dir name in_path out_path : Bytes)
    → entry_files dir name ≡ some (in_path, out_path)
    → IsJob dir name in_path out_path
unfolding entry_files
entry_files-only dir name in_path out_path e = elim (Option-cases (strrchr name b'.')) [
  | inl absent ↦ absurd (none-some (in_path, out_path) (rw (entry_files, absent) at e))
  | inr (dot, found) ↦ elim (Bool-cases (is_job name dot)) [
    | inr other ↦ absurd (none-some (in_path, out_path) (rw (entry_files, found, other) at e))
    | inl job ↦
        let (stem, split) = strrchr-split name dot b'.' found in
        let (longer, ending) = is_job-parts name dot job in
        let name' : name ≡ stem ++ codes ".job" = split ∙ ap (λ (cs : Bytes). stem ++ cs) ending in
        let ne : stem ≢ [] =
          λ none_. longer (sym (ap length (split ∙ ap (λ (cs : Bytes). cs ++ dot) none_))) in
        let (i, o, fits) =
          paths_of dir stem in_path out_path ne
            (subst (λ (cs : Bytes). entry_files dir cs ≡ some (in_path, out_path)) name' e) in
        (stem, ne, name', i, o, fits)
  ]
]

job-entry_files :
    (dir name in_path out_path : Bytes)
    → IsJob dir name in_path out_path
    → entry_files dir name ≡ some (in_path, out_path)
job-entry_files dir name in_path out_path (stem, ne, name', i, o, fits) =
    let size = ap length i in
    rw (name', i, o)
      (entry_files-job dir stem ne (
        omega (
          arith,
          length-append dir (codes "/" ++ (stem ++ codes ".job")),
          length-append stem (codes ".job"),
        )))

-- `entry_files` gives two paths for an entry of the directory just if its name ends in ".job" behind
-- at least one byte, and the paths have room in their arrays. They are those of the entry in the
-- directory and of the file that ends in ".out" in its place.
pub entry_files-IsJob :
    (dir name in_path out_path : Bytes)
    → (entry_files dir name ≡ some (in_path, out_path)) ↔ IsJob dir name in_path out_path
entry_files-IsJob dir name in_path out_path =
    (entry_files-only dir name in_path out_path, job-entry_files dir name in_path out_path)
