-- ===== src/Operations/Shows.antt =====
-- What `kvs_read`, `kvs_show` and `kvs_backup` of src/server/operations.c write.
use mathlib.Core.List.{flatten}
use so_proj.Base.{
  ℕ, zero, suc, ◌-◌, ◌≤◌, ◌≡◌, ◌≢◌, refl, sym, ap, ◌∙◌, inl, inr, ◌⊎◌, Bool, true, false, List, [],
  ◌∷◌, ◌++◌, append_assoc, none, some, arith, if◌then◌else◌, Option-cases, length, take, map,
  get_or, Bytes, codes, ok, Returns, pos, negsuc,
}
use so_proj.Kvs.Chains.{count, find-append, count-append, find-eq-none}
use so_proj.Kvs.Mapping.{view, IsTable, HasSlot, read_pair-view}
use so_proj.Kvs.{KeyNode, Chain, HashTable, hash, find}
use so_proj.Operations.Deletes.{KeysHaveSlots}
use so_proj.Operations.Files.{
  max_string_size, show_node, show_chain, show_slots, strn_memcpy, backup_node, backup_chain,
  backup_slots, bck_name, strtok_dot,
}
use so_proj.Operations.Writes.{Dict}
use so_proj.Operations.{Store, read_item, read_loop, kvs_read, kvs_show, kvs_backup, kvs_key_exists}

pub read_items : Dict → List Bytes → Bytes
read_items m [] = []
read_items m (key ∷ keys) = read_item key (m key) ++ read_items m keys

read_loop-read_items :
    (ht : HashTable) (keys : List Bytes)
    → KeysHaveSlots keys
    → read_loop ht keys ≡ ok (read_items (view ht) keys)
unfolding read_loop read_items
read_loop-read_items ht [] slots = refl
read_loop-read_items ht (key ∷ keys) (slot, slots) =
    rw (read_pair-view ht key slot, read_loop-read_items ht keys slots)

-- A `kvs_read` of keys that have slots writes one bracketed list, with an item for each key in
-- order that holds the key's value, or KVSERROR if it has none, and returns 0.
pub kvs_read-read_items :
    {W : Type 0} (s : Store W) (ht : HashTable) (keys : List Bytes)
    → s.kvs_table ≡ some ht
    → KeysHaveSlots keys
    → kvs_read s keys ≡ ok (codes "[" ++ (read_items (view ht) keys ++ codes "]\n"), 0)
unfolding kvs_read
kvs_read-read_items s ht keys e slots = rw (e, read_loop-read_items ht keys slots)

-- `kvs_key_exists` returns 0 for a key that has a value and 1 for one that has none.
pub kvs_key_exists-view :
    {W : Type 0} (s : Store W) (ht : HashTable) (key : Bytes)
    → s.kvs_table ≡ some ht
    → HasSlot key
    → Returns
        (kvs_key_exists s key)
        λ r. ((r ≡ 0) × (view ht key ≢ none)) ⊎ ((r ≡ 1) × (view ht key ≡ none))
unfolding kvs_key_exists
kvs_key_exists-view s ht key e slot = elim (Option-cases (view ht key)) [
  | inl off ↦ (1, rw (e, read_pair-view ht key slot, off), inr (refl, off))
  | inr (v, on) ↦ (0, rw (e, read_pair-view ht key slot, on), inl (refl, λ off. cc))
]

suc_sub_zero : (n : ℕ) → suc n - 0 ≡ suc n
suc_sub_zero n = omega arith

suc_sub_suc : (n m : ℕ) → suc n - suc m ≡ n - m
suc_sub_suc n m = omega arith

room : (n : ℕ) → max_string_size - n - 1 ≡ 39 - n
room n = omega arith

-- The pieces fill the line just as far as `snprintf` does.
take-take-append {ℓ} :
    {A : Type ℓ} (n : ℕ) (xs ys : List A)
    → take n xs ++ take (n - length (take n xs)) ys ≡ take n (xs ++ ys)
take-take-append zero xs ys = refl
take-take-append (suc n) [] ys = rw (suc_sub_zero n)
take-take-append (suc n) (x ∷ xs) ys =
    ap (◌∷◌ x) (rw (suc_sub_suc n (length (take n xs))) (take-take-append n xs ys))

strn_memcpy-take : (text src : Bytes) → strn_memcpy (take 39 text) src ≡ take 39 (text ++ src)
unfolding strn_memcpy
strn_memcpy-take text src = rw (room (length (take 39 text))) (take-take-append 39 text src)

line_assoc :
    (key value : Bytes)
    → (((codes "(" ++ key) ++ codes ", ") ++ value) ++ codes ")\n"
      ≡ codes "(" ++ (key ++ (codes ", " ++ (value ++ codes ")\n")))
line_assoc key value = simp append_assoc

backup_node-show_node : (n : KeyNode) → backup_node n ≡ show_node n
unfolding backup_node
backup_node-show_node n =
    ap (λ t. strn_memcpy (strn_memcpy (strn_memcpy t (codes ", ")) n.value) (codes ")\n"))
      (strn_memcpy-take (codes "(") n.key)
    ∙ ap (λ t. strn_memcpy (strn_memcpy t n.value) (codes ")\n"))
        (strn_memcpy-take (codes "(" ++ n.key) (codes ", "))
    ∙ ap (λ t. strn_memcpy t (codes ")\n"))
        (strn_memcpy-take ((codes "(" ++ n.key) ++ codes ", ") n.value)
    ∙ strn_memcpy-take (((codes "(" ++ n.key) ++ codes ", ") ++ n.value) (codes ")\n")
    ∙ ap (take 39) (line_assoc n.key n.value)

backup_chain-show_chain : (c : Chain) → backup_chain c ≡ show_chain c
unfolding backup_chain show_chain
backup_chain-show_chain [] = refl
backup_chain-show_chain (n ∷ next) = rw (backup_node-show_node n, backup_chain-show_chain next)

backup_slots-show_slots : (cs : List Chain) → backup_slots cs ≡ show_slots cs
unfolding backup_slots show_slots
backup_slots-show_slots [] = refl
backup_slots-show_slots (c ∷ cs) = rw (backup_chain-show_chain c, backup_slots-show_slots cs)

-- A backup that gets its process returns 0 and writes to its file exactly what `kvs_show` prints
-- at that moment; with no process it returns -1 and writes no file.
pub kvs_backup-kvs_show :
    {W : Type 0} (s : Store W) (ht : HashTable) (num : ℕ) (job directory : Bytes) (forked : Bool)
    → s.kvs_table ≡ some ht
    → kvs_backup s num job directory forked
      ≡ ok (
          if forked
          then (
            some
                (record { path = bck_name directory (strtok_dot job).0 num; content = kvs_show s }),
            (strtok_dot job).1,
            pos 0,
          )
          else (none, (strtok_dot job).1, negsuc 0))
unfolding kvs_backup kvs_show
kvs_backup-kvs_show s ht num job directory true e = rw (e, backup_slots-show_slots ht.table)
kvs_backup-kvs_show s ht num job directory false e = rw e

show_chain-append : (a b : Chain) → show_chain (a ++ b) ≡ show_chain a ++ show_chain b
unfolding show_chain
show_chain-append [] b = refl
show_chain-append (n ∷ a) b =
    ap (◌++◌ (show_node n)) (show_chain-append a b)
    ∙ sym (append_assoc (show_node n) (show_chain a) (show_chain b))

show_slots-flatten : (cs : List Chain) → show_slots cs ≡ show_chain (flatten cs)
unfolding show_slots show_chain flatten
show_slots-flatten [] = refl
show_slots-flatten (c ∷ cs) = rw (show_chain-append c (flatten cs), show_slots-flatten cs)

show_chain-lines : (c : Chain) → show_chain c ≡ flatten (map show_node c)
unfolding show_chain flatten
show_chain-lines [] = refl
show_chain-lines (n ∷ c) = ap (◌++◌ (show_node n)) (show_chain-lines c)

pub kvs_show-nodes :
    {W : Type 0} (s : Store W) (ht : HashTable)
    → s.kvs_table ≡ some ht
    → kvs_show s ≡ flatten (map show_node (flatten ht.table))
unfolding kvs_show
kvs_show-nodes s ht e = rw e (show_slots-flatten ht.table ∙ show_chain-lines (flatten ht.table))

-- Where the nodes of a key stand, if they stand in one slot at most.
count-flatten_nowhere :
    (q : Bytes) (cs : List Chain)
    → ((i : ℕ) → count q (get_or cs i []) ≡ 0)
    → count q (flatten cs) ≡ 0
unfolding flatten count
count-flatten_nowhere q [] h = refl
count-flatten_nowhere q (c ∷ cs) h =
    omega (arith, count-append q c (flatten cs), h 0, count-flatten_nowhere q cs (λ i. h (suc i)))

flatten_home :
    (q : Bytes) (cs : List Chain) (j : ℕ)
    → ((i : ℕ) → i ≢ j → count q (get_or cs i []) ≡ 0)
    → (find q (flatten cs) ≡ find q (get_or cs j []))
      × (count q (flatten cs) ≡ count q (get_or cs j []))
unfolding flatten
flatten_home q [] j h = (refl, refl)
flatten_home q (c ∷ cs) zero h =
    let rest = count-flatten_nowhere q cs (λ i. h (suc i) (omega arith)) in
    ground (
      arith,
      find-append q c (flatten cs),
      find-eq-none q (flatten cs) rest,
      count-append q c (flatten cs),
    )
flatten_home q (c ∷ cs) (suc j) h =
    let here = h 0 (omega arith) in
    let (found, counted) = flatten_home q cs j (λ i n. h (suc i) (omega arith)) in
    ground
      (arith, find-append q c (flatten cs), find-eq-none q c here, count-append q c (flatten cs))

pub entries :
    (ht : HashTable) (q : Bytes)
    → IsTable ht
    → (find q (flatten ht.table) ≡ view ht q) × (count q (flatten ht.table) ≤ 1)
unfolding view
entries ht q t = elim (Option-cases (hash q)) [
  | inl off ↦
      let none_there = count-flatten_nowhere q ht.table (λ i. t.placed q i (λ e. cc)) in
      (rw (off, view) (find-eq-none q (flatten ht.table) none_there), omega (arith, none_there))
  | inr (i, on) ↦
      let (found, counted) =
        flatten_home q ht.table i (λ j away. t.placed q j (λ e. away (at j i e on))) in
      (rw (on, view) found, omega (arith, counted, t.single q i))
]
  where
    at : (j i : ℕ) → hash q ≡ some j → hash q ≡ some i → j ≡ i
    at j i e on = cc

-- `kvs_show` prints one line for each node of some list of nodes in which every key stands at
-- most once, and with the value that the store has for it: each pair is shown once, and no other.
pub kvs_show-view :
    {W : Type 0} (s : Store W) (ht : HashTable)
    → s.kvs_table ≡ some ht
    → IsTable ht
    → (nodes : Chain) × (kvs_show s ≡ show_chain nodes)
      × ((q : Bytes) → (find q nodes ≡ view ht q) × (count q nodes ≤ 1))
unfolding kvs_show
kvs_show-view s ht e t = (flatten ht.table, rw e (show_slots-flatten ht.table), λ q. entries ht q t)
