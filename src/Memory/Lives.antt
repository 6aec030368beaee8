-- ===== src/Memory/Lives.antt =====
-- The table of src/server/kvs.c from `create_hash_table` to `free_table`: what its calls take from
-- the memory they give back.
use mathlib.Core.List.{flatten}
use so_proj.Base.{
  ℕ, zero, suc, ◌+◌, ◌≤◌, ◌<◌, ◌≡◌, refl, ap, subst, List, [], ◌∷◌, arith, map, length, replicate,
  Bytes,
}
use so_proj.Kvs.Mapping.{HasSlot}
use so_proj.Kvs.{HashTable, table_size}
use so_proj.Kvs.Lengths.{AreShort, AreShort-le, written-AreShort, deleted-AreShort}
use so_proj.Memory.Accesses.{Returned}
use so_proj.Memory.Cells.{Cell, used, pairs, Moves, Moves-trans, Moves-refl, Moves-same}
use so_proj.Memory.Refines.{
  Represents, IsEnough, write_pair-Wrote, delete_pair-Deleted, read_pair-free,
}
use so_proj.Memory.Tables.{AreChains, AreChains-frame, AreChains-used, free_table-Moves}
use so_proj.Memory.Writes.{IsMalloc}
use so_proj.Memory.{
  Ptr, null, Heap, Steps, done, ◌>>=◌, Memory, write_pair, delete_pair, read_pair, free, faults,
  no_fuel, free_table,
}

pub data Call : Type 0 where
  writes : (key value : Bytes) → Call
  deletes reads : (key : Bytes) → Call

abbrev pub key_of : Call → Bytes
key_of (writes key value) = key
key_of (deletes key) = key
key_of (reads key) = key

abbrev pub HaveSlots : List Call → Type 0
HaveSlots [] = Unit
HaveSlots (c ∷ calls) = HasSlot (key_of c) × HaveSlots calls

abbrev pub perform : (Heap → Ptr) → ℕ → Memory → Call → Steps Memory
perform malloc fuel m (writes key value) = write_pair malloc fuel m key value >>= λ r. done r.0
perform malloc fuel m (deletes key) = delete_pair fuel m key >>= λ r. done r.0
perform malloc fuel m (reads key) =
    read_pair malloc fuel m key >>= λ (p, h). (free h p >>= λ h'. done (record m { heap = h' }))

pub perform_all : (Heap → Ptr) → ℕ → Memory → List Call → Steps Memory
perform_all malloc fuel m [] = done m
perform_all malloc fuel m (c ∷ calls) =
    perform malloc fuel m c >>= λ m'. perform_all malloc fuel m' calls

-- A table of empty chains in the memory.
abbrev pub empty_memory : Heap → Memory
empty_memory h = record { table = replicate table_size null; heap = h }

-- The calls on a new table, and `free_table` behind them.
pub lifetime : (Heap → Ptr) → ℕ → Heap → List Call → Steps Heap
unfolding perform_all
lifetime malloc fuel h calls =
    perform_all malloc fuel (empty_memory h) calls >>= λ m. free_table fuel m.table m.heap

AreShort-IsEnough :
    (fuel n : ℕ) (css : List (List Cell))
    → n ≤ fuel
    → AreShort n (map pairs css)
    → IsEnough fuel css
AreShort-IsEnough fuel n [] le short = tt
AreShort-IsEnough fuel n (cs ∷ css) le (lt, short) =
    (omega (arith, length-pairs cs), AreShort-IsEnough fuel n css le short)
  where
    length-pairs : (cs : List Cell) → length (pairs cs) ≡ length cs
    length-pairs [] = refl
    length-pairs (c ∷ cs) = ap suc (length-pairs cs)

pub empty-AreChains :
    (h : Heap) (n : ℕ)
    → AreChains h (replicate n []) × (flatten (replicate {A = List Cell} n []) ≡ [])
unfolding flatten
empty-AreChains h zero = (tt, refl)
empty-AreChains h (suc n) =
    let (chains, none_there) = empty-AreChains h n in ((tt, (λ a i. absurd cc), chains), none_there)

empty-AreShort : (n : ℕ) → AreShort 1 (replicate n [])
empty-AreShort zero = tt
empty-AreShort (suc n) = (omega arith, empty-AreShort n)

-- What a table holds of the memory, in chains of fewer nodes than `n`.
abbrev Held : Heap → ℕ → Memory → Type 0
Held h n m =
    (css : List (List Cell)) × (ht : HashTable) × Represents m css ht
    × AreShort n ht.table
    × Moves h [] m.heap (flatten css)

Held-IsEnough :
    (fuel n : ℕ) (css : List (List Cell)) (ht : HashTable) {m : Memory}
    → Represents m css ht
    → AreShort n ht.table
    → n ≤ fuel
    → IsEnough fuel css
Held-IsEnough fuel n css ht r short le =
    AreShort-IsEnough fuel n css le (subst (AreShort n) r.lists short)

read_free :
    (malloc : Heap → Ptr) (fuel : ℕ) (m : Memory) (key : Bytes) (g : Heap)
    → (read_pair malloc fuel m key >>= λ (p, h). free h p) ≡ done g
    → perform malloc fuel m (reads key) ≡ done (record m { heap = g })
read_free malloc fuel m key g ran = from (read_pair malloc fuel m key) ran
  where
    from :
        (s : Steps (Ptr × Heap))
        → (s >>= λ (p, h). free h p) ≡ done g
        → (s >>= λ (p, h). (free h p >>= λ h'. done (record m { heap = h' })))
          ≡ done (record m { heap = g })
    from (done (p, h)) e = rw e refl
    from (faults what) e = absurd cc
    from no_fuel e = absurd cc

module _ (malloc : Heap → Ptr) (gives : IsMalloc malloc) (h : Heap) (fuel : ℕ) where
  perform-Held :
      (n : ℕ) (m : Memory) (c : Call)
      → HasSlot (key_of c)
      → suc n ≤ fuel
      → Held h (suc n) m
      → Returned (perform malloc fuel m c) (Held h (suc (suc n)))
  perform-Held n m (writes key value) (i, at_slot) le (css, ht, r, short, moves) =
      let few = Held-IsEnough fuel (suc n) css ht r short le in
      let ((m', returned), ran, (ht', ran', (css', r', moves'))) =
        write_pair-Wrote fuel m css ht r few key i at_slot malloc gives value in
      (
        m',
        rw ran refl,
        (
          css',
          ht',
          r',
          written-AreShort n ht ht' key value returned (i, at_slot) short ran',
          Moves-trans h m.heap m'.heap [] (flatten css) (flatten css') moves moves',
        ),
      )
  perform-Held n m (deletes key) (i, at_slot) le (css, ht, r, short, moves) =
      let few = Held-IsEnough fuel (suc n) css ht r short le in
      let ((m', returned), ran, (ht', ran', (css', r', moves'))) =
        delete_pair-Deleted fuel m css ht r few key i at_slot in
      (
        m',
        rw ran refl,
        (
          css',
          ht',
          r',
          deleted-AreShort n ht ht' key returned (i, at_slot) short ran',
          Moves-trans h m.heap m'.heap [] (flatten css) (flatten css') moves moves',
        ),
      )
  perform-Held n m (reads key) (i, at_slot) le (css, ht, r, short, moves) =
      let few = Held-IsEnough fuel (suc n) css ht r short le in
      let (g, ran, same) = read_pair-free fuel m css ht r few key i at_slot malloc gives in
      (
        record m { heap = g },
        read_free malloc fuel m key g ran,
        (
          css,
          ht,
          record {
            heads = r.heads;
            chains = AreChains-frame m.heap g css r.chains λ a on. same a;
            lists = r.lists;
            width = r.width;
          },
          AreShort-le (suc n) (suc (suc n)) ht.table (omega arith) short,
          Moves-trans h m.heap g [] (flatten css) (flatten css) moves
              (Moves-same m.heap g (flatten css) same λ a. AreChains-used m.heap css a r.chains),
        ),
      )

  perform_all-Held :
      (n : ℕ) (m : Memory) (calls : List Call)
      → HaveSlots calls
      → suc n + length calls ≤ fuel
      → Held h (suc n) m
      → Returned (perform_all malloc fuel m calls) (Held h fuel)
  unfolding perform_all
  perform_all-Held n m [] slots le (css, ht, r, short, moves) =
      (m, refl, (css, ht, r, AreShort-le (suc n) fuel ht.table (omega arith) short, moves))
  perform_all-Held n m (c ∷ calls) (slot, slots) le held =
      let (m', ran, held') = perform-Held n m c slot (omega arith) held in
      let (m'', ran', held'') = perform_all-Held (suc n) m' calls slots (omega arith) held' in
      (m'', rw ran ran', held'')

-- If `malloc` gives an address that is not NULL and not in use, then from a new table on any writes,
-- deletions and reads of keys that have slots, and the release of the table at the end, run through
-- with more fuel than there are calls: no access goes to memory that is not in use, nothing is freed
-- twice, and at the end just those blocks are in use that were at the start.
pub lifetime-same :
    (malloc : Heap → Ptr) (h : Heap) (fuel : ℕ) (calls : List Call)
    → IsMalloc malloc
    → HaveSlots calls
    → length calls < fuel
    → Returned (lifetime malloc fuel h calls) λ g. (a : Ptr) → used g a ≡ used h a
unfolding lifetime
lifetime-same malloc h fuel calls gives slots lt =
    let (chains, none_there) = empty-AreChains h table_size in
    let start : Held h 1 (empty_memory h) = (
      replicate table_size [],
      record { table = replicate table_size [] },
      record { heads = refl; chains = chains; lists = refl; width = refl },
      empty-AreShort table_size,
      rw none_there (Moves-refl h [] λ a i. absurd cc),
    ) in
    let (m, ran, (css, ht, r, short, moves)) =
      perform_all-Held malloc gives h fuel 0 (empty_memory h) calls slots (omega arith) start in
    let few = Held-IsEnough fuel fuel css ht r short (omega arith) in
    let (g, ran', freed) = free_table-Moves fuel m.heap css r.chains few in
    let all = Moves-trans h m.heap g [] (flatten css) [] moves freed in
    (g, rw (ran, r.heads) ran', λ a. ground (arith, all.balance a))
