-- ===== src/Operations/Keeps.antt =====
-- What the writing calls of src/server/operations.c keep, for any keys at all: a call for a key
-- without a slot faults, and what it leaves otherwise is well formed.
use so_proj.Base.{
  ℕ, ◌≡◌, refl, inl, inr, false, List, [], ◌∷◌, Option, none, some, Bool-cases, Option-cases, Bytes,
  Ensures, Ensures-bind, Ensures-any,
}
use so_proj.Kvs.{HashTable, hash, read_pair, write_pair, delete_pair}
use so_proj.Kvs.Mapping.{IsTable, write_pair-Updates, delete_pair-Updates, pair_calls_fault}
use so_proj.Operations.{
  Callback, Store, call, unchanged, write_round, write_loop, kvs_write, Deleting, delete_loop,
  kvs_delete,
}

write_pair-IsTable :
    (ht : HashTable) (key value : Bytes)
    → IsTable ht
    → Ensures (λ (r : HashTable × ℕ). IsTable r.0) (write_pair ht key value)
write_pair-IsTable ht key value t = elim (Option-cases (hash key)) [
  | inl off ↦ rw (pair_calls_fault ht key value off).0 tt
  | inr slot ↦ let (r, ran, u) = write_pair-Updates ht key value t slot in rw ran u.0.table
]

delete_pair-IsTable :
    (ht : HashTable) (key : Bytes)
    → IsTable ht
    → Ensures (λ (r : HashTable × ℕ). IsTable r.0) (delete_pair ht key)
delete_pair-IsTable ht key t = elim (Option-cases (hash key)) [
  | inl off ↦ rw (pair_calls_fault ht key [] off).2 tt
  | inr slot ↦ let (r, ran, (u, _, _)) = delete_pair-Updates ht key t slot in rw ran u.table
]

module _ {W : Type 0} (P : W → Type 0) (callback : Option (Callback W))
    (keeps : (key : Bytes) (value : Option Bytes) (w : W)
      → P w
      → P (call callback key value w)) where
  -- A well-formed table, and a world of which `P` holds.
  abbrev pub Kept : HashTable × W → Type 0
  Kept r = IsTable r.0 × P r.1

  write_round-Kept :
      (ht : HashTable) (w : W) (key value : Bytes)
      → IsTable ht
      → P w
      → Ensures Kept (write_round callback ht w key value)
  unfolding write_round
  write_round-Kept ht w key value t p = Ensures-any _ (read_pair ht key) _ λ old_value.
      elim (Bool-cases (unchanged old_value value)) [
        | inl same ↦ rw same (t, p)
        | inr differs ↦ rw differs (
            Ensures-bind (λ (r : HashTable × ℕ). IsTable r.0) Kept (write_pair ht key value) _
              (write_pair-IsTable ht key value t) λ r t'. (t', keeps key (some value) w p))
      ]

  write_loop-Kept :
      (pairs : List (Bytes × Bytes)) (ht : HashTable) (w : W)
      → IsTable ht
      → P w
      → Ensures Kept (write_loop callback ht w pairs)
  unfolding write_loop
  write_loop-Kept [] ht w t p = (t, p)
  write_loop-Kept ((key, value) ∷ pairs) ht w t p =
      Ensures-bind Kept Kept (write_round callback ht w key value) _
        (write_round-Kept ht w key value t p) λ r (t', p'). write_loop-Kept pairs r.0 r.1 t' p'

  delete_loop-Kept :
      (keys : List Bytes) (d : Deleting W)
      → IsTable d.table
      → P d.world
      → Ensures (λ (d' : Deleting W). IsTable d'.table × P d'.world) (delete_loop callback d keys)
  unfolding delete_loop
  delete_loop-Kept [] d t p = (t, p)
  delete_loop-Kept (key ∷ keys) d t p =
      Ensures-bind (λ (r : HashTable × ℕ). IsTable r.0) _ (delete_pair d.table key) _
        (delete_pair-IsTable d.table key t)
        λ r t'. delete_loop-Kept keys _ t' (keeps key none d.world p)

-- What a call leaves of a store that had a table.
pub record Stored {W : Type 0} (P : W → Type 0) (s s' : Store W) : Type 0 where
  pub ht : HashTable
  pub world : W
  pub same : s' ≡ record s { kvs_table = some ht; world = world }
  pub table : IsTable ht
  pub holds : P world

module _ {W : Type 0} (P : W → Type 0) (s : Store W) (ht : HashTable) (e : s.kvs_table ≡ some ht)
    (t : IsTable ht) (p : P s.world) where
  pub kvs_write-Stored :
      ((key : Bytes) (value : Option Bytes) (w : W) → P w → P (call s.write_callback key value w))
      → (pairs : List (Bytes × Bytes))
      → Ensures (λ (r : Store W × ℕ). Stored P s r.0) (kvs_write s pairs)
  unfolding kvs_write
  kvs_write-Stored keeps pairs = rw e (
      Ensures-bind (Kept P s.write_callback keeps) _ (write_loop s.write_callback ht s.world pairs)
        _ (write_loop-Kept P s.write_callback keeps pairs ht s.world t p)
        λ r (t', p'). record { ht = r.0; world = r.1; same = refl; table = t'; holds = p' })

  pub kvs_delete-Stored :
      ((key : Bytes) (value : Option Bytes) (w : W) → P w → P (call s.delete_callback key value w))
      → (keys : List Bytes)
      → Ensures (λ (r : Store W × Bytes × ℕ). Stored P s r.0) (kvs_delete s keys)
  unfolding kvs_delete
  kvs_delete-Stored keeps keys = rw e (
      Ensures-bind _ _ (delete_loop s.delete_callback _ keys) _
        (delete_loop-Kept P s.delete_callback keeps keys
          (record { table = ht; world = s.world; aux = false; out = [] }) t p)
        λ d (t', p'). record { ht = d.table; world = d.world; same = refl; table = t'; holds = p' })
