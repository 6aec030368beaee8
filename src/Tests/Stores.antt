-- ===== src/Tests/Stores.antt =====
-- The store of src/server/kvs.c and src/server/operations.c at small tables.
use mathlib.Core.List.{flatten, Perm}
use so_proj.Base.{
  true, false, arith, map, equal_iff, subst, ◌≡◌, ◌≤◌, refl, List, [], ◌∷◌, ◌++◌, some, replicate,
  Bytes, codes, ok, Returns, Returns-eq, equal,
}
use so_proj.Kvs.Mapping.{
  view, IsTable, Updates, HasSlot, Deletes, empty-IsTable, write_pair-Updates, delete_pair-Updates,
}
use so_proj.Kvs.{
  HashTable, Chain, table_size, hash, set_bucket, find, write_pair, read_pair, delete_pair,
  write_chain, overwrite,
}
use so_proj.Kvs.Chains.{count}
use so_proj.Operations.Deletes.{KvsDeleted, kvs_delete-Deleted}
use so_proj.Operations.Files.{show_node}
use so_proj.Operations.Orders.{kvs_show-Perm}
use so_proj.Operations.Texts.{trim_trailing_whitespace}
use so_proj.Operations.Writes.{Changes, KvsWritten, kvs_write-Written}
use so_proj.Operations.{Store, Callback, kvs_write, kvs_read, kvs_delete, kvs_show}

abbrev empty_table : HashTable
empty_table = record { table = replicate table_size [] }

-- "ab" and "a" share the slot 0; "0" has it too.
abbrev pub sample : HashTable
sample = set_bucket empty_table 0 (record { key = codes "ab"; value = codes "x" } ∷ [])

pub ab-HasSlot : HasSlot (codes "ab")
unfolding hash
ab-HasSlot = (0, refl)

pub zero-HasSlot : HasSlot (codes "0")
unfolding hash
zero-HasSlot = (0, refl)

write_pair-Updates_example :
    Returns
      (write_pair empty_table (codes "ab") (codes "x"))
      λ r. Updates empty_table (codes "ab") (some (codes "x")) r.0 × (r.1 ≡ 0)
write_pair-Updates_example =
    write_pair-Updates empty_table (codes "ab") (codes "x") empty-IsTable ab-HasSlot

wrote_sample : write_pair empty_table (codes "ab") (codes "x") ≡ ok (sample, 0)
unfolding write_pair hash write_chain overwrite
wrote_sample = refl

pub sample-IsTable : IsTable sample
sample-IsTable =
    (Returns-eq _ (write_pair-Updates empty_table (codes "ab") (codes "x") empty-IsTable ab-HasSlot)
      wrote_sample).0.table

delete_pair-Updates_example :
    Returns (delete_pair sample (codes "ab")) (Deletes sample (codes "ab"))
delete_pair-Updates_example = delete_pair-Updates sample (codes "ab") sample-IsTable ab-HasSlot

-- A callback that keeps a record of its calls.
abbrev logging : Callback Changes
logging key value calls = calls ++ ((key, value) ∷ [])

abbrev store : Store Changes
store = record {
  kvs_table = some sample;
  write_callback = some logging;
  delete_callback = some logging;
  world = [];
}

abbrev pub new_pairs : List (Bytes × Bytes)
new_pairs = (codes "ab", codes "x") ∷ (codes "ab", codes "y") ∷ (codes "0", codes "z") ∷ []

kvs_write-Written_example : Returns (kvs_write store new_pairs) (KvsWritten store sample new_pairs)
kvs_write-Written_example =
    kvs_write-Written store sample new_pairs refl sample-IsTable
      (ab-HasSlot, (ab-HasSlot, (zero-HasSlot, tt)))

abbrev old_keys : List Bytes
old_keys = codes "0" ∷ codes "ab" ∷ codes "ab" ∷ []

kvs_delete-Deleted_example : Returns (kvs_delete store old_keys) (KvsDeleted store sample old_keys)
kvs_delete-Deleted_example =
    kvs_delete-Deleted store sample old_keys refl sample-IsTable
      (zero-HasSlot, (ab-HasSlot, (ab-HasSlot, tt)))

read_prints : kvs_read store old_keys ≡ ok (codes "[(0,KVSERROR)(ab,x)(ab,x)]\n", 0)
unfolding kvs_read read_pair hash find equal
read_prints = refl

-- The same two pairs, written in two orders.
abbrev zero_first : HashTable
zero_first = set_bucket empty_table 0 (record { key = codes "0"; value = codes "z" } ∷ [])

abbrev ab_then_zero : HashTable
ab_then_zero = set_bucket empty_table 0 (
    record { key = codes "0"; value = codes "z" }
    ∷ record { key = codes "ab"; value = codes "x" }
    ∷ [])

abbrev zero_then_ab : HashTable
zero_then_ab = set_bucket empty_table 0 (
    record { key = codes "ab"; value = codes "x" }
    ∷ record { key = codes "0"; value = codes "z" }
    ∷ [])

wrote :
    (ht ht' : HashTable) (key value : Bytes)
    → IsTable ht
    → HasSlot key
    → write_pair ht key value ≡ ok (ht', 0)
    → Updates ht key (some value) ht'
wrote ht ht' key value t slot e = (Returns-eq _ (write_pair-Updates ht key value t slot) e).0

first_ab : Updates empty_table (codes "ab") (some (codes "x")) sample
first_ab = wrote empty_table sample (codes "ab") (codes "x") empty-IsTable ab-HasSlot wrote_sample

first_zero : Updates empty_table (codes "0") (some (codes "z")) zero_first
unfolding write_pair hash write_chain overwrite
first_zero = wrote empty_table zero_first (codes "0") (codes "z") empty-IsTable zero-HasSlot refl

then_zero : Updates sample (codes "0") (some (codes "z")) ab_then_zero
unfolding write_pair hash write_chain overwrite equal
then_zero = wrote sample ab_then_zero (codes "0") (codes "z") sample-IsTable zero-HasSlot refl

then_ab : Updates zero_first (codes "ab") (some (codes "x")) zero_then_ab
unfolding write_pair hash write_chain overwrite equal
then_ab = wrote zero_first zero_then_ab (codes "ab") (codes "x") first_zero.table ab-HasSlot refl

two_keys : (q : Bytes) → equal (codes "0") q ≡ true → equal (codes "ab") q ≡ false
unfolding equal
two_keys q same =
    let this = (equal_iff (codes "0") q).0 same in
    subst (λ (q : Bytes). equal (codes "ab") q ≡ false) this refl

same_pairs : (q : Bytes) → view ab_then_zero q ≡ view zero_then_ab q
same_pairs q =
    ground
      (arith, then_zero.reads q, then_ab.reads q, first_ab.reads q, first_zero.reads q, two_keys q)

abbrev late_zero : Store Changes
late_zero = record store { kvs_table = some ab_then_zero }

abbrev late_ab : Store Changes
late_ab = record store { kvs_table = some zero_then_ab }

kvs_show-Perm_example :
    (nodes : Chain) × (nodes' : Chain) × (kvs_show late_zero ≡ flatten (map show_node nodes))
    × (kvs_show late_ab ≡ flatten (map show_node nodes'))
    × Perm nodes nodes'
    × ((q : Bytes) → (find q nodes ≡ view ab_then_zero q) × (count q nodes ≤ 1))
kvs_show-Perm_example =
    kvs_show-Perm late_zero late_ab ab_then_zero zero_then_ab refl refl then_zero.table
      then_ab.table same_pairs

-- 38 bytes
abbrev long_key : Bytes
long_key = replicate 38 b'k'

trims : trim_trailing_whitespace (codes "a b \n") ≡ codes "a b"
unfolding trim_trailing_whitespace
trims = refl
