-- ===== src/Kvs/Mapping.antt =====
-- The hash table of src/server/kvs.c as a map from keys to values.
use native.Mathlib.Decide.{ℕ_discrete}
use so_proj.Base.{
  ℕ, ◌≤◌, ◌<◌, ◌≡◌, ◌≢◌, inl, inr, refl, sym, ap, ◌∙◌, true, false, [], Option, none, some, arith,
  if◌then◌else◌, Bool-cases, Option-cases, length, length-set, get_or-set_self, get_or-set_ne,
  get_or-replicate, Bytes, equal, equal_iff, equal_refl, replicate, ok, fault, bad_index, Returns,
}
use so_proj.Kvs.{
  Chain, HashTable, hash, create_hash_table, bucket, set_bucket, find, unlink, write_chain,
  write_pair, read_pair, delete_pair, table_size,
}
use so_proj.Kvs.Chains.{
  count, find-eq-none, count-eq-zero, Unlinked, unlink-Unlinked, find-write_chain,
  count-write_chain-le,
}

-- The value that the table holds for a key.
unfoldable pub view : HashTable → Bytes → Option Bytes
view ht q = elim (hash q) [ none ↦ none | some i ↦ find q (bucket ht i) ]

-- There are 26 slots, and a key stands at most once, in the slot that its hash names.
pub record IsTable (ht : HashTable) : Type 0 where
  pub width : length ht.table ≡ table_size
  pub single : (q : Bytes) (i : ℕ) → count q (bucket ht i) ≤ 1
  pub placed : (q : Bytes) (i : ℕ) → hash q ≢ some i → count q (bucket ht i) ≡ 0

pub hash-lt : (key : Bytes) {i : ℕ} → hash key ≡ some i → i < table_size
unfolding hash
hash-lt key h = ground arith

module _ (ht : HashTable) (t : IsTable ht) (k : Bytes) {i : ℕ} (hk : hash k ≡ some i)
    (c : Chain) where
  set_bucket-IsTable :
      ((q : Bytes) → count q c ≤ 1)
      → ((q : Bytes) → equal k q ≡ false → count q c ≤ count q (bucket ht i))
      → IsTable (set_bucket ht i c)
  set_bucket-IsTable few same = record {
    width = length-set ht.table i c ∙ t.width;
    single = λ q j. elim (ℕ_discrete i j) [
      | yes e ↦ rw (← e, get_or-set_self ht.table i c [] in_range) (few q)
      | no ne ↦ rw (get_or-set_ne ht.table i j c [] ne) (t.single q j)
    ];
    placed = λ q j away. elim (ℕ_discrete i j) [
      | yes e ↦
          rw (← e, get_or-set_self ht.table i c [] in_range)
            (omega (arith, same q (apart q j e away), t.placed q i (λ h. away (h ∙ ap some e))))
      | no ne ↦ rw (get_or-set_ne ht.table i j c [] ne) (t.placed q j away)
    ];
  }
    where
      in_range : i < length ht.table
      in_range = omega (arith, hash-lt k hk, t.width)

      apart : (q : Bytes) (j : ℕ) → i ≡ j → hash q ≢ some j → equal k q ≡ false
      apart q j e away = elim (Bool-cases (equal k q)) [
        | inl same ↦ absurd (away (ap hash (sym ((equal_iff k q).0 same)) ∙ hk ∙ ap some e))
        | inr differ ↦ differ
      ]

  view-set_bucket :
      (v : Option Bytes)
      → ((q : Bytes) → find q c ≡ (if equal k q then v else find q (bucket ht i)))
      → (q : Bytes) → view (set_bucket ht i c) q ≡ (if equal k q then v else view ht q)
  unfolding view
  view-set_bucket v found q = elim (Option-cases (hash q)) [
    | inl off ↦ rw (off, view) (ground (arith, equal_iff k q))
    | inr (j, on) ↦
        rw (on, view)
          (elim (ℕ_discrete i j) [
            | yes e ↦ rw (← e, get_or-set_self ht.table i c [] in_range) (found q)
            | no ne ↦ rw (get_or-set_ne ht.table i j c [] ne) (ground (arith, equal_iff k q))
          ])
  ]
    where
      in_range : i < length ht.table
      in_range = omega (arith, hash-lt k hk, t.width)

-- The table that a call leaves holds `v` for the key, and for every other key what it held.
pub record Updates (ht : HashTable) (k : Bytes) (v : Option Bytes) (ht' : HashTable) : Type 0 where
  pub table : IsTable ht'
  pub reads : (q : Bytes) → view ht' q ≡ (if equal k q then v else view ht q)

-- The keys that have a slot: those that begin with a letter or a digit.
abbrev pub HasSlot : Bytes → Type 0
HasSlot key = (i : ℕ) × (hash key ≡ some i)

view-bucket :
    (ht : HashTable) (key : Bytes) {i : ℕ}
    → hash key ≡ some i
    → view ht key ≡ find key (bucket ht i)
unfolding view
view-bucket ht key hk = rw (hk, view)

pub empty-IsTable : IsTable (record { table = replicate table_size [] })
unfolding count
empty-IsTable = record {
  width = refl;
  single = λ q i. rw (get_or-replicate table_size i (let c : Chain = [] in c)) (omega arith);
  placed = λ q i away. rw (get_or-replicate table_size i (let c : Chain = [] in c));
}

-- The table that is created maps no key.
pub create_hash_table-empty :
    (ht : HashTable) × (create_hash_table true ≡ some ht)
    × IsTable ht
    × ((q : Bytes) → view ht q ≡ none)
unfolding create_hash_table view find
create_hash_table-empty = (
  record { table = replicate table_size [] },
  refl,
  empty-IsTable,
  λ q. ground (
    arith,
    Option-cases (hash q),
    λ (i : ℕ). get_or-replicate table_size i (let c : Chain = [] in c),
  ),
)

-- A write of a key that has a slot succeeds: the key then has the value, no other key changes, and
-- the table stays well formed.
pub write_pair-Updates :
    (ht : HashTable) (key value : Bytes)
    → IsTable ht
    → HasSlot key
    → Returns (write_pair ht key value) λ r. Updates ht key (some value) r.0 × (r.1 ≡ 0)
unfolding write_pair
write_pair-Updates ht key value t (i, hk) =
    let c = bucket ht i in
    let few = λ (q : Bytes). count-write_chain-le key q value c (t.single q i) in
    (
      (set_bucket ht i (write_chain key value c), 0),
      rw hk,
      (
        record {
          table =
              set_bucket-IsTable ht t key hk _ (λ q. (few q).0)
                (λ q differ. omega (arith, (few q).1 differ));
          reads = view-set_bucket ht t key hk _ (some value) (λ q. find-write_chain key q value c);
        },
        refl,
      ),
    )

-- A read of a key that has a slot returns what the table holds for it.
pub read_pair-view :
    (ht : HashTable) (key : Bytes) → HasSlot key → read_pair ht key ≡ ok (view ht key)
unfolding read_pair
read_pair-view ht key (i, hk) = rw (hk, view-bucket ht key hk)

abbrev pub Deletes : HashTable → Bytes → HashTable × ℕ → Type 0
Deletes ht key r =
    Updates ht key none r.0 × (view ht key ≡ none → r ≡ (ht, 1)) × (view ht key ≢ none → r.1 ≡ 0)

module _ (ht : HashTable) (key : Bytes) (t : IsTable ht) {i : ℕ} (hk : hash key ≡ some i) where
  missing-Deletes : unlink key (bucket ht i) ≡ none → Deletes ht key (ht, 1)
  missing-Deletes off = (
    record { table = t; reads = λ q. ground (arith, equal_iff key q, absent) },
    λ _. refl,
    λ here. absurd (here absent),
  )
    where
      absent : view ht key ≡ none
      absent =
          view-bucket ht key hk
          ∙ find-eq-none key (bucket ht i) (rw off at (unlink-Unlinked key key _ (t.single key i)))

  found-Deletes :
      (c : Chain) → unlink key (bucket ht i) ≡ some c → Deletes ht key (set_bucket ht i c, 0)
  found-Deletes c on = (
    record {
      table =
          set_bucket-IsTable ht t key hk c (λ q. omega (arith, (step q).1, t.single q i))
            (λ q _. omega (arith, (step q).1));
      reads = view-set_bucket ht t key hk c none (λ q. (step q).0);
    },
    λ gone. absurd (
        omega (
          arith,
          rw equal_refl at (step key).1,
          count-eq-zero key (bucket ht i) (sym (view-bucket ht key hk) ∙ gone),
        )),
    λ _. refl,
  )
    where
      step : (q : Bytes) → Unlinked key q (bucket ht i) (some c)
      step q = rw on at (unlink-Unlinked key q (bucket ht i) (t.single q i))

-- A delete of a key that has a slot: no value is left for the key, no other key changes, and the
-- table stays well formed. The result is 0 exactly if the key had a value; else the table is as
-- it was and the result is 1.
pub delete_pair-Updates :
    (ht : HashTable) (key : Bytes)
    → IsTable ht
    → HasSlot key
    → Returns (delete_pair ht key) λ r.
      Updates ht key none r.0 × (view ht key ≡ none → r ≡ (ht, 1)) × (view ht key ≢ none → r.1 ≡ 0)
unfolding delete_pair
delete_pair-Updates ht key t (i, hk) = elim (Option-cases (unlink key (bucket ht i))) [
  | inl off ↦ ((ht, 1), rw (hk, off), missing-Deletes ht key t hk off)
  | inr (c, on) ↦ ((set_bucket ht i c, 0), rw (hk, on), found-Deletes ht key t hk c on)
]

-- The three calls leave what C defines exactly if the key does not begin with a letter or a digit.
pub pair_calls_fault :
    (ht : HashTable) (key value : Bytes)
    → hash key ≡ none
    → (write_pair ht key value ≡ fault bad_index)
      × (read_pair ht key ≡ fault bad_index)
      × (delete_pair ht key ≡ fault bad_index)
unfolding write_pair read_pair delete_pair
pair_calls_fault ht key value off = (rw off, rw off, rw off)
