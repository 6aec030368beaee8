-- ===== src/Tests/Memories.antt =====
-- The table of src/server/kvs.c with its pointers, in a small memory.
use so_proj.Base.{
  ℕ, zero, suc, ok, Run, ◌+◌, ◌≤◌, ◌≡◌, refl, false, List, [], ◌∷◌, none, some, ◌==◌, arith, set,
  replicate, codes,
}
use so_proj.Kvs
use so_proj.Kvs.{HashTable, table_size, hash, set_bucket}
use so_proj.Memory.Accesses.{Returned}
use so_proj.Memory.Cells.{Cell, used, IsChain}
use so_proj.Memory.Lives.{writes, deletes, reads, lifetime, Call, lifetime-same, empty-AreChains}
use so_proj.Memory.Refines.{Represents, IsEnough, Leaves, write_pair-Wrote, delete_pair-Deleted}
use so_proj.Memory.Tables.{AreChains}
use so_proj.Memory.Writes.{IsMalloc}
use so_proj.Memory.{Ptr, null, Heap, Memory, text, node, at, write_pair, delete_pair}
use so_proj.Tests.Stores.{ab-HasSlot, zero-HasSlot, sample}

-- An address above all that have been written.
above : Heap → Ptr
above [] = 1
above ((a, _) ∷ h) = suc a + above h

at-above : (h : Heap) (p : Ptr) → above h ≤ p → at h p ≡ none
unfolding above at
at-above [] p le = refl
at-above ((a, _) ∷ h) p le =
    let other : (p == a) ≡ false = ground arith in rw other (at-above h p (omega arith))

above-place : (h : Heap) → (null == above h) ≡ false
unfolding above
above-place [] = refl
above-place ((a, _) ∷ h) = ground arith

above-IsMalloc : IsMalloc above
above-IsMalloc = record {
  place = above-place;
  free_there = λ h. at-above h (above h) (omega arith);
}

-- The pair of `sample` in three blocks.
abbrev cell : Cell
cell = record {
  place = 3;
  key_place = 1;
  value_place = 2;
  pair = record { key = codes "ab"; value = codes "x" };
}

abbrev memory : Memory
memory = record {
  table = set (replicate table_size null) 0 3;
  heap =
      (3, some (node 1 2 null)) ∷ (2, some (text (codes "x"))) ∷ (1, some (text (codes "ab"))) ∷ [];
}

abbrev chains : List (List Cell)
chains = set (replicate table_size []) 0 (cell ∷ [])

others : AreChains memory.heap (replicate 25 [])
others = (empty-AreChains memory.heap 25).0

cell-IsChain : IsChain memory.heap (cell ∷ [])
unfolding at
cell-IsChain = (
  record { places = refl; distinct = refl; node_at = refl; key_at = refl; value_at = refl },
  (λ a on. refl),
  tt,
)

represents : Represents memory chains sample
represents = record {
  heads = refl;
  chains = (cell-IsChain, (λ a on. rw (empty-AreChains memory.heap 25).1 refl), others);
  lists = refl;
  width = refl;
}

empty-IsEnough : (n : ℕ) → IsEnough 2 (replicate n [])
empty-IsEnough zero = tt
empty-IsEnough (suc n) = (omega arith, empty-IsEnough n)

few : IsEnough 2 chains
few = (omega arith, empty-IsEnough 25)

hash_ab : hash (codes "ab") ≡ some 0
unfolding hash
hash_ab = refl

-- What `write_pair` and `delete_pair` leave of the memory of `sample`.
abbrev AsWithout : Run (HashTable × ℕ) → Memory × ℕ → Type 0
AsWithout run r = (ht' : HashTable) × (run ≡ ok (ht', r.1)) × Leaves memory chains ht' r.0

write_pair-Wrote_example :
    Returned
      (write_pair above 2 memory (codes "ab") (codes "y"))
      (AsWithout (Kvs.write_pair sample (codes "ab") (codes "y")))
write_pair-Wrote_example =
    write_pair-Wrote 2 memory chains sample represents few (codes "ab") 0 hash_ab above
      above-IsMalloc (codes "y")

delete_pair-Deleted_example :
    Returned (delete_pair 2 memory (codes "ab")) (AsWithout (Kvs.delete_pair sample (codes "ab")))
delete_pair-Deleted_example =
    delete_pair-Deleted 2 memory chains sample represents few (codes "ab") 0 hash_ab

-- Two keys of one chain: the second value of "ab" replaces the first, "0" goes from the head.
abbrev calls : List Call
calls =
    writes (codes "ab") (codes "x")
    ∷ writes (codes "0") (codes "y")
    ∷ writes (codes "ab") (codes "z")
    ∷ reads (codes "ab")
    ∷ deletes (codes "0")
    ∷ []

lifetime-same_example :
    Returned (lifetime above 6 memory.heap calls) λ g. (a : Ptr) → used g a ≡ used memory.heap a
lifetime-same_example =
    lifetime-same above memory.heap 6 calls above-IsMalloc
      (ab-HasSlot, (zero-HasSlot, (ab-HasSlot, (ab-HasSlot, (zero-HasSlot, tt))))) (omega arith)
