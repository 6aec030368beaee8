-- ===== src/Operations/Writes.antt =====
-- `kvs_write` of src/server/operations.c against a map of keys to values.
use mathlib.Core.Path.{fun_ext}
use so_proj.Base.{
  ℕ, ◌≡◌, refl, sym, ap, ◌∙◌, inl, inr, true, List, [], ◌∷◌, Option, some, arith, if◌then◌else◌,
  Bool-cases, Option-cases, Bytes, equal, equal_iff, ◌>>=◌, Returns,
}
use so_proj.Kvs.Mapping.{view, IsTable, HasSlot, Updates, write_pair-Updates, read_pair-view}
use so_proj.Kvs.{HashTable}
use so_proj.Operations.{Callback, Store, call, unchanged, write_round, write_loop, kvs_write}

abbrev pub Dict : Type 0
Dict = Bytes → Option Bytes

abbrev pub update : Dict → Bytes → Option Bytes → Dict
update m k v q = if equal k q then v else m q

abbrev pub Changes : Type 0
Changes = List (Bytes × Option Bytes)

abbrev pub AllHaveSlots : List (Bytes × Bytes) → Type 0
AllHaveSlots [] = Unit
AllHaveSlots ((key, _) ∷ pairs) = HasSlot key × AllHaveSlots pairs

-- The specification: all pairs are written in order, and a pair is told on if it changes its key.
pub dict_write : Dict → List (Bytes × Bytes) → Dict
dict_write m [] = m
dict_write m ((key, value) ∷ pairs) = dict_write (update m key (some value)) pairs

unfoldable pub dict_changes : Dict → List (Bytes × Bytes) → Changes
dict_changes m [] = []
dict_changes m ((key, value) ∷ pairs) =
    let rest = dict_changes (update m key (some value)) pairs in
    if unchanged (m key) value then rest else (key, some value) ∷ rest

unfoldable pub deliver : {W : Type 0} → Option (Callback W) → W → Changes → W
deliver callback w [] = w
deliver callback w ((key, value) ∷ cs) = deliver callback (call callback key value w) cs

pub Updates-view :
    (ht ht' : HashTable) (k : Bytes) (v : Option Bytes)
    → Updates ht k v ht'
    → view ht' ≡ update (view ht) k v
Updates-view ht ht' k v u = fun_ext u.reads

update_same :
    (m : Dict) (key value : Bytes) → unchanged (m key) value ≡ true → update m key (some value) ≡ m
update_same m key value same = fun_ext λ q. elim (Option-cases (m key)) [
  | inl e ↦ cc (rw e at same)
  | inr (old, e) ↦ ground (arith, equal_iff key q, equal_iff old value)
]

module _ {W : Type 0} (callback : Option (Callback W)) where
  record Round (m : Dict) (w : W) (key value : Bytes) (r : HashTable × W) : Type 0 where
    table : IsTable r.0
    reads : view r.0 ≡ update m key (some value)
    told : r.1 ≡ (if unchanged (m key) value then w else call callback key (some value) w)

  write_round-Round :
      (ht : HashTable) (w : W) (key value : Bytes)
      → IsTable ht
      → HasSlot key
      → Returns (write_round callback ht w key value) (Round (view ht) w key value)
  unfolding write_round
  write_round-Round ht w key value t slot = elim (Bool-cases (unchanged (view ht key) value)) [
    | inl same ↦ (
      (ht, w),
      rw (read_pair-view ht key slot, ◌>>=◌, same),
      record { table = t; reads = sym (update_same (view ht) key value same); told = rw same },
    )
    | inr differ ↦
        let ((ht', z), wrote, u) = write_pair-Updates ht key value t slot in
        (
          (ht', call callback key (some value) w),
          rw (read_pair-view ht key slot, ◌>>=◌, differ, wrote),
          record {
            table = u.0.table;
            reads = Updates-view ht ht' key (some value) u.0;
            told = rw differ;
          },
        )
  ]

  -- What the loop leaves.
  pub record Written (m : Dict) (w : W) (pairs : List (Bytes × Bytes)) (r : HashTable × W)
      : Type 0 where
    pub table : IsTable r.0
    pub reads : view r.0 ≡ dict_write m pairs
    pub told : r.1 ≡ deliver callback w (dict_changes m pairs)

  write_loop-Written :
      (pairs : List (Bytes × Bytes)) (ht : HashTable) (w : W)
      → IsTable ht
      → AllHaveSlots pairs
      → Returns (write_loop callback ht w pairs) (Written (view ht) w pairs)
  unfolding write_loop dict_write dict_changes deliver
  write_loop-Written [] ht w t slots =
      ((ht, w), refl, record { table = t; reads = refl; told = refl })
  write_loop-Written ((key, value) ∷ pairs) ht w t (slot, slots) =
      let ((ht', w'), ran, s) = write_round-Round ht w key value t slot in
      let (r, ran', done) = write_loop-Written pairs ht' w' s.table slots in
      (
        r,
        rw ran ran',
        record {
          table = done.table;
          reads = done.reads ∙ ap (λ (m : Dict). dict_write m pairs) s.reads;
          told = done.told ∙ rw (s.reads, s.told) (ground arith);
        },
      )

abbrev pub KvsWritten :
    {W : Type 0} → Store W → HashTable → List (Bytes × Bytes) → Store W × ℕ → Type 0
KvsWritten s ht pairs r =
    (r.1 ≡ 0)
    × ((ht' : HashTable) × (r.0 ≡ record s {
      kvs_table = some ht';
      world = deliver s.write_callback s.world (dict_changes (view ht) pairs);
    })
        × IsTable ht'
        × (view ht' ≡ dict_write (view ht) pairs))

-- A `kvs_write` of keys that have slots returns 0 with the table well formed. The store then maps
-- as after all the pairs in order, and the write callback has been called for exactly the pairs
-- that gave their key another value, in order; all else is as it was.
pub kvs_write-Written :
    {W : Type 0} (s : Store W) (ht : HashTable) (pairs : List (Bytes × Bytes))
    → s.kvs_table ≡ some ht
    → IsTable ht
    → AllHaveSlots pairs
    → Returns (kvs_write s pairs) (KvsWritten s ht pairs)
unfolding kvs_write
kvs_write-Written s ht pairs e t slots =
    let ((ht', w), ran, done) = write_loop-Written s.write_callback pairs ht s.world t slots in
    (
      (record s { kvs_table = some ht'; world = w }, 0),
      rw (e, ran),
      (
        refl,
        (ht', λ i. record s { kvs_table = some ht'; world = done.told i }, done.table, done.reads),
      ),
    )
