-- ===== src/Operations/Deletes.antt =====
-- `kvs_delete` of src/server/operations.c against a map of keys to values.
use so_proj.Base.{
  ℕ, ℕ, ◌≡◌, ◌≢◌, refl, sym, ap, ◌∙◌, Bool, true, false, not, ◌||◌, List, [], ◌∷◌, ◌++◌, map,
  append_assoc, append-nil, Option, none, some, arith, if◌then◌else◌, ◌==◌, Bytes, codes, Returns,
}
use so_proj.Kvs.Mapping.{view, IsTable, HasSlot, delete_pair-Updates}
use so_proj.Kvs.{HashTable}
use so_proj.Operations.Writes.{Dict, update, Changes, deliver, Updates-view}
use so_proj.Operations.{
  Callback, Store, call, Deleting, missing_item, report, delete_loop, kvs_delete,
}

abbrev pub KeysHaveSlots : List Bytes → Type 0
KeysHaveSlots [] = Unit
KeysHaveSlots (key ∷ keys) = HasSlot key × KeysHaveSlots keys

-- The specification: all keys lose their values, and those that have none by then are missing.
pub dict_delete : Dict → List Bytes → Dict
dict_delete m [] = m
dict_delete m (key ∷ keys) = dict_delete (update m key none) keys

abbrev pub present : Option Bytes → Bool
present none = false
present (some _) = true

pub dict_missing : Dict → List Bytes → List Bytes
dict_missing m [] = []
dict_missing m (key ∷ keys) =
    let rest = dict_missing (update m key none) keys in if present (m key) then rest else key ∷ rest

abbrev pub deletions : List Bytes → Changes
deletions = map (λ key. (key, none))

pub missing_items : List Bytes → Bytes
missing_items [] = []
missing_items (key ∷ keys) = missing_item key ++ missing_items keys

-- What is printed for the keys that are missing.
pub missing_report : List Bytes → Bytes
unfolding missing_items
missing_report [] = []
missing_report (key ∷ keys) = codes "[" ++ (missing_items (key ∷ keys) ++ codes "]\n")

is_empty : List Bytes → Bool
is_empty [] = true
is_empty (_ ∷ _) = false

-- What the loop adds to its output, whether or not the bracket is open.
opened : Bool → List Bytes → Bytes
opened aux [] = []
opened true (key ∷ keys) = missing_items (key ∷ keys)
opened false (key ∷ keys) = codes "[" ++ missing_items (key ∷ keys)

returned-present :
    {ht : HashTable} {r : HashTable × ℕ} (o : Option Bytes)
    → (o ≡ none → r ≡ (ht, 1))
    → (o ≢ none → r.1 ≡ 0)
    → (r.1 == 0) ≡ present o
returned-present none gone here = rw (gone refl)
returned-present (some v) gone here = rw (here (λ e. cc))

opened-cons :
    (aux here : Bool) (key : Bytes) (rest : List Bytes) (out : Bytes)
    → (if here
          then out
          else if aux
          then out ++ missing_item key
          else out ++ (codes "[" ++ missing_item key))
        ++ opened (if here then aux else true) rest
      ≡ out ++ opened aux (if here then rest else key ∷ rest)
unfolding opened missing_items
opened-cons aux true key rest out = refl
opened-cons true false key [] out = append_assoc out _ _
opened-cons false false key [] out = append_assoc out _ _
opened-cons true false key (k ∷ ks) out = append_assoc out _ _
opened-cons false false key (k ∷ ks) out = append_assoc out _ _

aux-cons :
    (aux here : Bool) (key : Bytes) (rest : List Bytes)
    → ((if here then aux else true) || not (is_empty rest))
      ≡ (aux || not (is_empty (if here then rest else key ∷ rest)))
unfolding is_empty
aux-cons aux here key rest = ground arith

closed :
    (missing : List Bytes)
    → (if not (is_empty missing) then opened false missing ++ codes "]\n" else opened false missing)
      ≡ missing_report missing
unfolding is_empty opened missing_report
closed [] = refl
closed (key ∷ keys) = refl

module _ {W : Type 0} (callback : Option (Callback W)) where
  record Deleted (m : Dict) (d : Deleting W) (keys : List Bytes) (d' : Deleting W) : Type 0 where
    table : IsTable d'.table
    reads : view d'.table ≡ dict_delete m keys
    told : d'.world ≡ deliver callback d.world (deletions keys)
    aux : d'.aux ≡ d.aux || not (is_empty (dict_missing m keys))
    out : d'.out ≡ d.out ++ opened d.aux (dict_missing m keys)

  abbrev after : Deleting W → Bytes → HashTable → ℕ → Deleting W
  after d key ht returned = record {
    table = ht;
    world = call callback key none d.world;
    aux = if returned == 0 then d.aux else true;
    out = report d key returned;
  }

  delete_loop-Deleted :
      (keys : List Bytes) (d : Deleting W)
      → IsTable d.table
      → KeysHaveSlots keys
      → Returns (delete_loop callback d keys) (Deleted (view d.table) d keys)
  unfolding delete_loop dict_delete dict_missing deliver opened missing_items is_empty
  delete_loop-Deleted [] d t slots = (
    d,
    refl,
    record {
      table = t;
      reads = refl;
      told = refl;
      aux = ground arith;
      out = sym (append-nil d.out);
    },
  )
  delete_loop-Deleted (key ∷ keys) d t (slot, slots) =
      let ((ht', returned), ran, (u, gone, here)) = delete_pair-Updates d.table key t slot in
      let code = returned-present (view d.table key) gone here in
      let next = after d key ht' returned in
      let (d', ran', done) = delete_loop-Deleted keys next u.table slots in
      let same = Updates-view d.table ht' key none u in
      (
        d',
        rw ran ran',
        record {
          table = done.table;
          reads = done.reads ∙ ap (λ (m : Dict). dict_delete m keys) same;
          told = done.told;
          aux = done.aux ∙ rw (same, code) (aux-cons d.aux (present (view d.table key)) key _);
          out =
              done.out
              ∙ rw (same, code) (opened-cons d.aux (present (view d.table key)) key _ d.out);
        },
      )

abbrev pub KvsDeleted :
    {W : Type 0} → Store W → HashTable → List Bytes → Store W × Bytes × ℕ → Type 0
KvsDeleted s ht keys r =
    (r.1 ≡ missing_report (dict_missing (view ht) keys))
    × (r.2 ≡ 0)
    × ((ht' : HashTable) × (r.0 ≡ record s {
      kvs_table = some ht';
      world = deliver s.delete_callback s.world (deletions keys);
    })
        × IsTable ht'
        × (view ht' ≡ dict_delete (view ht) keys))

-- A `kvs_delete` of keys that have slots returns 0 with the table well formed. The store then has
-- no value for them and all else unchanged, the delete callback has been called once for each key
-- of the list, in order, with NULL, and the output names the keys that had no value when their
-- turn came: nothing if there are none, else one bracketed list.
pub kvs_delete-Deleted :
    {W : Type 0} (s : Store W) (ht : HashTable) (keys : List Bytes)
    → s.kvs_table ≡ some ht
    → IsTable ht
    → KeysHaveSlots keys
    → Returns (kvs_delete s keys) (KvsDeleted s ht keys)
unfolding kvs_delete
kvs_delete-Deleted s ht keys e t slots =
    let start : Deleting _ = record { table = ht; world = s.world; aux = false; out = [] } in
    let (d, ran, done) = delete_loop-Deleted s.delete_callback keys start t slots in
    (
      (
        record s { kvs_table = some d.table; world = d.world },
        if d.aux then d.out ++ codes "]\n" else d.out,
        0,
      ),
      rw (e, ran),
      (
        rw (done.aux, done.out) (closed (dict_missing (view ht) keys)),
        refl,
        (
          d.table,
          λ i. record s { kvs_table = some d.table; world = done.told i },
          done.table,
          done.reads,
        ),
      ),
    )
