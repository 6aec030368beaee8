-- ===== src/Operations/Files.antt =====
-- What `kvs_show` and the child of `kvs_backup` write (src/server/operations.c), with
-- `strn_memcpy` and `write_uint` of src/server/io.c.
use so_proj.Base.{
  ℕ, zero, suc, ◌+◌, ◌-◌, ◌/◌, ◌%◌, List, [], ◌∷◌, ◌++◌, ◌==◌, if◌then◌else◌, length, take, Bytes,
  codes, snprintf,
}
use so_proj.Kvs.{KeyNode, Chain, HashTable}

-- MAX_STRING_SIZE
abbrev pub max_string_size : ℕ
max_string_size = 40

-- One line of `kvs_show`.
abbrev pub show_node : KeyNode → Bytes
show_node n =
    snprintf max_string_size (codes "(" ++ (n.key ++ (codes ", " ++ (n.value ++ codes ")\n"))))

unfoldable pub show_chain : Chain → Bytes
show_chain [] = []
show_chain (n ∷ next) = show_node n ++ show_chain next

unfoldable pub show_slots : List Chain → Bytes
unfolding show_chain
show_slots [] = []
show_slots (c ∷ cs) = show_chain c ++ show_slots cs

abbrev pub show_table : HashTable → Bytes
show_table ht = show_slots ht.table

-- `aux[0 .. num_bytes_copied]` after a call of `strn_memcpy(aux + num_bytes_copied, src, n)` with
-- `n` the room left: the copy ends at the terminator of `src` or after `n` bytes.
unfoldable pub strn_memcpy : Bytes → Bytes → Bytes
strn_memcpy aux src = aux ++ take (max_string_size - length aux - 1) src

unfoldable pub backup_node : KeyNode → Bytes
backup_node n =
    strn_memcpy (strn_memcpy (strn_memcpy (strn_memcpy (codes "(") n.key) (codes ", ")) n.value)
      (codes ")\n")

unfoldable pub backup_chain : Chain → Bytes
backup_chain [] = []
backup_chain (n ∷ next) = backup_node n ++ backup_chain next

unfoldable pub backup_slots : List Chain → Bytes
backup_slots [] = []
backup_slots (c ∷ cs) = backup_chain c ++ backup_slots cs

abbrev pub backup_table : HashTable → Bytes
backup_table ht = backup_slots ht.table

-- The file that the child of a backup writes.
pub record Backup : Type 0 where
  pub path : Bytes
  pub content : Bytes

-- `strtok(s, ".")` on a string with a character that is no dot: the token, and the string that is
-- left in the buffer, in which the dot behind the token has become the terminator.
pub token : Bytes → Bytes
token [] = []
token (c ∷ cs) = if c == b'.' then [] else c ∷ token cs

pub strtok_dot : Bytes → Bytes × Bytes
unfolding token
strtok_dot [] = ([], [])
strtok_dot (c ∷ cs) =
    if c == b'.'
    then (let (name, left) = strtok_dot cs in (name, c ∷ left))
    else (c ∷ token cs, c ∷ token cs)

-- The digits that `buffer[--i]` receives, least significant first, in front of `buffer`. The
-- fuel is the number of digits at most; an `int` has ten.
unfoldable pub digits_onto : ℕ → ℕ → Bytes → Bytes
digits_onto zero value buffer = buffer
digits_onto (suc fuel) value buffer =
    let more = digits_onto fuel (value / 10) ((b'0' + value % 10) ∷ buffer) in
    if value == 0 then buffer else more

-- `write_uint`, and `%ld` of a number that is not negative
unfoldable pub write_uint : ℕ → Bytes
write_uint value = if value == 0 then b'0' ∷ [] else digits_onto 20 value []

-- `snprintf(bck_name, 50, "%s/%s-%ld.bck", …)`
pub bck_name : Bytes → Bytes → ℕ → Bytes
bck_name directory name num_backup =
    snprintf 50
      (directory ++ (codes "/" ++ (name ++ (codes "-" ++ (write_uint num_backup ++ codes ".bck")))))
