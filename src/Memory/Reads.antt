-- ===== src/Memory/Reads.antt =====
-- `read_pair` of src/server/kvs.c in memory.
use so_proj.Base.{
  ℕ, zero, suc, ◌<◌, ◌≡◌, refl, false, List, [], ◌∷◌, arith, ◌==◌, Bool-cases, inl, inr, length,
  Bytes, equal,
}
use so_proj.Kvs
use so_proj.Memory.Accesses.{load_node-Holds, load_text-key, load_text-value}
use so_proj.Memory.Cells.{Cell, first, IsChain, pairs}
use so_proj.Memory.{null, Heap, done, read_loop}

pub read_loop-find :
    (fuel : ℕ) (h : Heap) (cs : List Cell) (key : Bytes)
    → IsChain h cs
    → length cs < fuel
    → read_loop fuel h (first cs) key ≡ done (Kvs.find key (pairs cs))
unfolding read_loop Kvs.find
read_loop-find zero h cs key chain lt = absurd (omega arith)
read_loop-find (suc fuel) h [] key chain lt = refl
read_loop-find (suc fuel) h (c ∷ cs) key (holds, apart, chain) lt =
    let places = holds.places in
    let there : (c.place == null) ≡ false = ground arith in
    let loaded = load_node-Holds h c (first cs) holds in
    let read = load_text-key h c (first cs) holds in
    elim (Bool-cases (equal c.pair.key key)) [
      | inl hit ↦ rw (there, loaded, read, hit, load_text-value h c (first cs) holds) refl
      | inr other ↦
          rw (there, loaded, read, other) (read_loop-find fuel h cs key chain (omega arith))
    ]
