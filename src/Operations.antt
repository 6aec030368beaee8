-- ===== src/Operations.antt =====
-- src/server/operations.c: the store behind its lock, and the calls that serve the commands.
-- Each call holds `tablelock` from its first access of the table to its last, so it is one step.
-- Messages on the standard error are left out; the bytes for `fd` are part of the result.
pub mod Files
pub mod Texts
pub mod Writes
pub mod Deletes
pub mod Shows
pub mod Orders
pub mod Items
pub mod Keeps
use so_proj.Base.{
  ℕ, Bool, true, false, List, [], ◌∷◌, ◌++◌, Option, none, some, ◌==◌, if◌then◌else◌, Bytes, codes,
  equal, snprintf, Run, ok, ◌>>=◌, ℤ, pos, negsuc, fault, null_pointer,
}
use so_proj.Kvs.{HashTable, create_hash_table, write_pair, read_pair, delete_pair}
use Files.{max_string_size, show_table, Backup, backup_table, bck_name, strtok_dot}

-- A callback acts on what the rest of the program keeps, here a type `W`. A value NULL is `none`.
abbrev pub Callback : Type 0 → Type 0
Callback W = Bytes → Option Bytes → W → W

-- The variables of the file, with the world on which the callbacks act. NULL is `none`.
pub record Store (W : Type 0) : Type 0 where
  pub kvs_table : Option HashTable
  pub write_callback : Option (Callback W)
  pub delete_callback : Option (Callback W)
  pub world : W

-- `old_value != NULL && strcmp(old_value, value) == 0`
abbrev pub unchanged : Option Bytes → Bytes → Bool
unchanged none value = false
unchanged (some old) value = equal old value

-- What `kvs_read` prints for one key.
abbrev pub read_item : Bytes → Option Bytes → Bytes
read_item key none = snprintf max_string_size (codes "(" ++ (key ++ codes ",KVSERROR)"))
read_item key (some value) =
    snprintf max_string_size (codes "(" ++ (key ++ (codes "," ++ (value ++ codes ")"))))

pub read_loop : HashTable → List Bytes → Run Bytes
read_loop ht [] = ok []
read_loop ht (key ∷ keys) = do
  result ← read_pair ht key
  rest ← read_loop ht keys
  ok (read_item key result ++ rest)

pub record Deleting (W : Type 0) : Type 0 where
  pub table : HashTable
  pub world : W
  pub aux : Bool
  pub out : Bytes

abbrev pub missing_item : Bytes → Bytes
missing_item key = snprintf max_string_size (codes "(" ++ (key ++ codes ",KVSMISSING)"))

module _ {W : Type 0} where
  unfoldable pub register_write_callback : Store W → Callback W → Store W
  register_write_callback s callback = record s { write_callback = some callback }

  unfoldable pub register_delete_callback : Store W → Callback W → Store W
  register_delete_callback s callback = record s { delete_callback = some callback }

  -- `if (callback != NULL) callback(key, value)`
  abbrev pub call : Option (Callback W) → Bytes → Option Bytes → W → W
  call none key value w = w
  call (some callback) key value w = callback key value w

  abbrev created : Store W → Option HashTable → Store W × ℕ
  created s none = (record s { kvs_table = none }, 1)
  created s (some ht) = (record s { kvs_table = some ht }, 0)

  -- The flag tells whether `malloc` succeeds.
  unfoldable pub kvs_init : Store W → Bool → Store W × ℕ
  kvs_init s allocated = elim s.kvs_table [
    | some _ ↦ (s, 1)
    | none ↦ created s (create_hash_table allocated)
  ]

  unfoldable pub kvs_terminate : Store W → Store W × ℕ
  kvs_terminate s = elim s.kvs_table [ none ↦ (s, 1) | some _ ↦ (record s { kvs_table = none }, 0) ]

  -- One round of the loop of `kvs_write`.
  pub write_round : Option (Callback W) → HashTable → W → Bytes → Bytes → Run (HashTable × W)
  write_round callback ht w key value = do
    old_value ← read_pair ht key
    elim (unchanged old_value value) [
      | true ↦ ok (ht, w)
      | false ↦ do (ht', _) ← write_pair ht key value; ok (ht', call callback key (some value) w)
    ]

  pub write_loop : Option (Callback W) → HashTable → W → List (Bytes × Bytes) → Run (HashTable × W)
  unfolding write_round
  write_loop callback ht w [] = ok (ht, w)
  write_loop callback ht w ((key, value) ∷ pairs) = do
    (ht', w') ← write_round callback ht w key value
    write_loop callback ht' w' pairs

  pub kvs_write : Store W → List (Bytes × Bytes) → Run (Store W × ℕ)
  unfolding write_loop
  kvs_write s pairs = elim s.kvs_table [
    | none ↦ ok (s, 1)
    | some ht ↦ do
      (ht', w) ← write_loop s.write_callback ht s.world pairs
      ok (record s { kvs_table = some ht'; world = w }, 0)
  ]

  -- The result is what is written to `fd`, and the number returned.
  unfoldable pub kvs_read : Store W → List Bytes → Run (Bytes × ℕ)
  unfolding read_loop
  kvs_read s keys = elim s.kvs_table [
    | none ↦ ok ([], 1)
    | some ht ↦ do items ← read_loop ht keys; ok (codes "[" ++ (items ++ codes "]\n"), 0)
  ]

  -- What one round prints, by the number that `delete_pair` returns.
  abbrev pub report : Deleting W → Bytes → ℕ → Bytes
  report d key returned =
      if returned == 0
      then d.out
      else if d.aux
      then d.out ++ missing_item key
      else d.out ++ (codes "[" ++ missing_item key)

  pub delete_loop : Option (Callback W) → Deleting W → List Bytes → Run (Deleting W)
  delete_loop callback d [] = ok d
  delete_loop callback d (key ∷ keys) = do
    (ht, returned) ← delete_pair d.table key
    delete_loop callback
        (record {
          table = ht;
          world = call callback key none d.world;
          aux = if returned == 0 then d.aux else true;
          out = report d key returned;
        })
        keys

  pub kvs_delete : Store W → List Bytes → Run (Store W × Bytes × ℕ)
  unfolding delete_loop
  kvs_delete s keys = elim s.kvs_table [
    | none ↦ ok (s, [], 1)
    | some ht ↦ do
      d ←
          delete_loop s.delete_callback
            (record { table = ht; world = s.world; aux = false; out = [] }) keys
      ok (
        record s { kvs_table = some d.table; world = d.world },
        if d.aux then d.out ++ codes "]\n" else d.out,
        0,
      )
  ]

  pub kvs_show : Store W → Bytes
  kvs_show s = elim s.kvs_table [ none ↦ [] | some ht ↦ show_table ht ]

  -- The flag tells whether `fork` succeeds. The result is the file that the child writes, if there
  -- is one, the job's name as `strtok` leaves it, and the number that the parent returns.
  unfoldable pub kvs_backup : Store W → ℕ → Bytes → Bytes → Bool → Run (Option Backup × Bytes × ℤ)
  kvs_backup s num_backup job_filename directory forked = elim s.kvs_table [
    | none ↦ fault null_pointer
    | some ht ↦
        let (name, left) = strtok_dot job_filename in
        if forked
        then ok (
          some (record { path = bck_name directory name num_backup; content = backup_table ht }),
          left,
          pos 0,
        )
        else ok (none, left, negsuc 0)
  ]

  -- 0 if the key exists, 1 otherwise
  pub kvs_key_exists : Store W → Bytes → Run ℕ
  kvs_key_exists s key = elim s.kvs_table [
    | none ↦ ok 1
    | some ht ↦ do result ← read_pair ht key; ok (elim result [ none ↦ 1 | some _ ↦ 0 ])
  ]
