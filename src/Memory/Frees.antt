-- ===== src/Memory/Frees.antt =====
-- `free_table` of src/server/kvs.c, and the release of one node.
use so_proj.Base.{
  ℕ, zero, suc, ◌<◌, ◌≡◌, refl, ap, ◌∙◌, true, false, List, [], ◌∷◌, none, arith, ◌==◌, Bool-cases,
  inl, inr, length,
}
use so_proj.Memory.Accesses.{Returned, node_of, free-at, load_node-Holds}
use so_proj.Memory.Cells.{
  Cell, is_there, touches, first, used, Holds, Apart, IsChain, Moves, IsChain-frame, IsChain-used,
  Moves-trans,
}
use so_proj.Memory.{Ptr, text, node, null, Heap, at, store, done, free_node, free_loop}

-- The memory behind the three calls of `free` for a node.
abbrev pub freed : Heap → Cell → Heap
freed h c = store (store (store h c.key_place none) c.value_place none) c.place none

pub free_node-freed :
    (h : Heap) (c : Cell) (next next' : Ptr)
    → Holds h c next
    → free_node h c.place (node_of c next') ≡ done (freed h c)
unfolding free_node at
free_node-freed h c next next' holds =
    let places = holds.places in
    let distinct = holds.distinct in
    let h1 = store h c.key_place none in
    let h2 = store h1 c.value_place none in
    rw
      (
        free-at h c.key_place (text c.pair.key) (ground arith) holds.key_at,
        free-at h1 c.value_place (text c.pair.value) (ground arith)
            (ground (arith, holds.value_at)),
        free-at h2 c.place (node c.key_place c.value_place next) (ground arith)
            (ground (arith, holds.node_at)),
      )
      refl

pub freed-same : (h : Heap) (c : Cell) (a : Ptr) → touches a c ≡ false → at (freed h c) a ≡ at h a
unfolding at
freed-same h c a off = ground arith

pub freed-gone : (h : Heap) (c : Cell) (a : Ptr) → touches a c ≡ true → used (freed h c) a ≡ false
unfolding at
freed-gone h c a on = ground arith

pub freed-IsChain :
    (h : Heap) (c : Cell) (cs : List Cell) → Apart c cs → IsChain h cs → IsChain (freed h c) cs
freed-IsChain h c cs apart chain =
    IsChain-frame h (freed h c) cs chain λ a i. freed-same h c a (ground (arith, apart a))

pub freed-Moves :
    (h : Heap) (c : Cell) (cs : List Cell) → IsChain h (c ∷ cs) → Moves h (c ∷ cs) (freed h c) cs
freed-Moves h c cs (holds, apart, chain) = record {
  same = λ a off on. freed-same h c a (ground arith);
  fresh = λ a on off. absurd (ground arith);
  balance = λ a. elim (Bool-cases (touches a c)) [
    | inl on ↦ freed-gone h c a on ∙ ground (arith, on, apart a on)
    | inr off ↦ ap is_there (freed-same h c a off) ∙ ground (arith, off, IsChain-used h cs a chain)
  ];
}

-- The inner loop of `free_table` frees the blocks of the chain and no other.
pub free_loop-Moves :
    (fuel : ℕ) (h : Heap) (cs : List Cell)
    → IsChain h cs
    → length cs < fuel
    → Returned (free_loop fuel h (first cs)) λ g. Moves h cs g []
unfolding free_loop
free_loop-Moves zero h cs chain lt = absurd (omega arith)
free_loop-Moves (suc fuel) h [] chain lt = (
  h,
  refl,
  record { same = λ a off on. refl; fresh = λ a on off. absurd cc; balance = λ a. ground arith },
)
free_loop-Moves (suc fuel) h (c ∷ cs) (holds, apart, chain) lt =
    let places = holds.places in
    let there : (c.place == null) ≡ false = ground arith in
    let (g, ran, m) =
      free_loop-Moves fuel (freed h c) cs (freed-IsChain h c cs apart chain) (omega arith) in
    (
      g,
      rw
          (
            there,
            load_node-Holds h c (first cs) holds,
            free_node-freed h c (first cs) (first cs) holds,
          )
          ran,
      Moves-trans h (freed h c) g (c ∷ cs) cs [] (freed-Moves h c cs (holds, apart, chain)) m,
    )
