-- ===== src/Memory/Deletes.antt =====
-- `delete_pair` of src/server/kvs.c in memory: a node taken out of its chain.
use so_proj.Base.{
  ℕ, zero, suc, ◌<◌, ◌≡◌, refl, ap, ◌∙◌, true, false, ◌||◌, List, [], ◌∷◌, Option, some, none,
  arith, ◌==◌, Bool-cases, inl, inr, length, Bytes, equal,
}
use so_proj.Kvs
use so_proj.Memory.Accesses.{Returned, node_of, load_node-Holds, load_text-key}
use so_proj.Memory.Cells.{
  Cell, is_there, touches, has, first, used, Holds, Apart, IsChain, pairs, Moves, IsChain-frame,
  IsChain-used, Holds-used, Moves-cons, IsChain-cons, kept,
}
use so_proj.Memory.Frees.{
  freed, free_node-freed, freed-same, freed-gone, freed-IsChain, freed-Moves,
}
use so_proj.Memory.{Ptr, null, node, Heap, at, store, done, bypass, delete_loop}

-- The node `c` behind the node `c0`.
module _ (h : Heap) (c0 c : Cell) (cs : List Cell) (holds0 : Holds h c0 c.place)
    (apart0 : Apart c0 (c ∷ cs)) (holds : Holds h c (first cs)) (apart : Apart c cs)
    (chain : IsChain h cs) where
  abbrev linked : Heap
  linked = store h c0.place (some (node c0.key_place c0.value_place (first cs)))

  abbrev pub bypassed : Heap
  bypassed = freed linked c

  linked-same : (a : Ptr) → (a == c0.place) ≡ false → at linked a ≡ at h a
  unfolding at
  linked-same a off = ground arith

  off_rest : (a : Ptr) → has a (c ∷ cs) ≡ true → touches a c0 ≡ false
  off_rest a on = ground (arith, apart0 a)

  linked-Holds : Holds linked c (first cs)
  linked-Holds = record {
    places = holds.places;
    distinct = holds.distinct;
    node_at = linked-same c.place (ground (arith, off_rest c.place)) ∙ holds.node_at;
    key_at = linked-same c.key_place (ground (arith, off_rest c.key_place)) ∙ holds.key_at;
    value_at = linked-same c.value_place (ground (arith, off_rest c.value_place)) ∙ holds.value_at;
  }

  linked-IsChain : IsChain linked (c0 ∷ cs)
  unfolding at
  linked-IsChain =
      let distinct = holds0.distinct in
      (
        record {
          places = holds0.places;
          distinct = holds0.distinct;
          node_at = ground arith;
          key_at = linked-same c0.key_place (ground arith) ∙ holds0.key_at;
          value_at = linked-same c0.value_place (ground arith) ∙ holds0.value_at;
        },
        λ a on. ground (arith, apart0 a),
        IsChain-frame h linked cs chain λ a i. linked-same a (ground (arith, off_rest a)),
      )

  bypassed-IsChain : IsChain bypassed (c0 ∷ cs)
  bypassed-IsChain =
      IsChain-frame linked bypassed (c0 ∷ cs) linked-IsChain
        λ a i. freed-same linked c a (ground (arith, apart a, off_rest a))

  linked-used : (a : Ptr) → used linked a ≡ used h a
  unfolding at
  linked-used a = elim (Bool-cases (a == c0.place)) [
    | inl on ↦ ground (arith, on, Holds-used h c0 c.place a holds0)
    | inr off ↦ ap is_there (linked-same a off)
  ]

  bypassed-Moves : Moves h (c0 ∷ c ∷ cs) bypassed (c0 ∷ cs)
  bypassed-Moves = record {
    same = λ a off on. freed-same linked c a (ground arith) ∙ linked-same a (ground arith);
    fresh = λ a on off. absurd (ground arith);
    balance = λ a. elim (Bool-cases (touches a c)) [
      | inl on ↦ freed-gone linked c a on ∙ ground (arith, on, apart a, off_rest a)
      | inr off ↦
          ap is_there (freed-same linked c a off)
          ∙ linked-used a
          ∙ rw off (
              kept (touches a c0 || has a cs) (used h a)
                λ i. ground (arith, Holds-used h c0 c.place a holds0, IsChain-used h cs a chain))
    ];
  }

  bypass-bypassed :
      (head : Ptr) → bypass h head c0.place c.place (node_of c (first cs)) ≡ done (head, bypassed)
  unfolding bypass
  bypass-bypassed head =
      let places = holds0.places in
      let behind : (c0.place == null) ≡ false = ground arith in
      rw
        (
          behind,
          load_node-Holds h c0 c.place holds0,
          free_node-freed linked c (first cs) (first cs) linked-Holds,
        )
        refl

-- What the loop of `delete_pair` makes of the nodes `cs` behind the node `c0`.
abbrev Behind : Heap → Cell → List Cell → Bytes → Ptr → Option (Ptr × Heap) → Type 0
Behind h c0 cs key head none = Kvs.unlink key (pairs cs) ≡ none
Behind h c0 cs key head (some (head', g)) =
    (head' ≡ head)
    × (cs' : List Cell) × (Kvs.unlink key (pairs cs) ≡ some (pairs cs'))
    × IsChain g (c0 ∷ cs')
    × Moves h (c0 ∷ cs) g (c0 ∷ cs')

Behind-cons :
    (h : Heap) (c0 c : Cell) (cs : List Cell) (key : Bytes) (head : Ptr) (r : Option (Ptr × Heap))
    → IsChain h (c0 ∷ c ∷ cs)
    → equal c.pair.key key ≡ false
    → Behind h c cs key head r
    → Behind h c0 (c ∷ cs) key head r
unfolding Kvs.unlink
Behind-cons h c0 c cs key head none chain other none_there = rw (other, none_there) refl
Behind-cons h c0 c cs key head (some (head', g)) chain other (kept_head, cs', e, chain', m) = (
  kept_head,
  c ∷ cs',
  rw (other, e) refl,
  IsChain-cons h g c0 (c ∷ cs) (c ∷ cs') chain m refl chain',
  Moves-cons h g c0 (c ∷ cs) (c ∷ cs') chain m,
)

delete_loop-Behind :
    (fuel : ℕ) (h : Heap) (c0 : Cell) (cs : List Cell) (key : Bytes) (head : Ptr)
    → IsChain h (c0 ∷ cs)
    → length cs < fuel
    → Returned (delete_loop fuel h head c0.place (first cs) key) (Behind h c0 cs key head)
unfolding delete_loop Kvs.unlink
delete_loop-Behind zero h c0 cs key head chain lt = absurd (omega arith)
delete_loop-Behind (suc fuel) h c0 [] key head chain lt = (none, refl, refl)
delete_loop-Behind (suc fuel) h c0 (c ∷ cs) key head (holds0, apart0, (holds, apart, chain)) lt =
    let places = holds.places in
    let there : (c.place == null) ≡ false = ground arith in
    let loaded = load_node-Holds h c (first cs) holds in
    let read = load_text-key h c (first cs) holds in
    elim (Bool-cases (equal c.pair.key key)) [
      | inl hit ↦ (
        some (head, bypassed h c0 c cs holds0 apart0 holds apart chain),
        rw
            (
              there,
              loaded,
              read,
              hit,
              bypass-bypassed h c0 c cs holds0 apart0 holds apart chain head,
            )
            refl,
        (
          refl,
          cs,
          rw hit refl,
          bypassed-IsChain h c0 c cs holds0 apart0 holds apart chain,
          bypassed-Moves h c0 c cs holds0 apart0 holds apart chain,
        ),
      )
      | inr other ↦
          let (r, ran, b) =
            delete_loop-Behind fuel h c cs key head (holds, apart, chain) (omega arith) in
          (
            r,
            rw (there, loaded, read, other) ran,
            Behind-cons h c0 c cs key head r (holds0, apart0, (holds, apart, chain)) other b,
          )
    ]

-- What it makes of a whole chain.
abbrev pub Unlinked : Heap → List Cell → Bytes → Option (Ptr × Heap) → Type 0
Unlinked h cs key none = Kvs.unlink key (pairs cs) ≡ none
Unlinked h cs key (some (head, g)) =
    (cs' : List Cell) × (Kvs.unlink key (pairs cs) ≡ some (pairs cs'))
    × (head ≡ first cs')
    × IsChain g cs'
    × Moves h cs g cs'

Behind-Unlinked :
    (h : Heap) (c : Cell) (cs : List Cell) (key : Bytes) (r : Option (Ptr × Heap))
    → equal c.pair.key key ≡ false
    → Behind h c cs key c.place r
    → Unlinked h (c ∷ cs) key r
unfolding Kvs.unlink
Behind-Unlinked h c cs key none other none_there = rw (other, none_there) refl
Behind-Unlinked h c cs key (some (head, g)) other (kept_head, cs', e, chain, m) =
    (c ∷ cs', rw (other, e) refl, kept_head, chain, m)

pub delete_loop-Unlinked :
    (fuel : ℕ) (h : Heap) (cs : List Cell) (key : Bytes)
    → IsChain h cs
    → length cs < fuel
    → Returned (delete_loop fuel h (first cs) null (first cs) key) (Unlinked h cs key)
unfolding delete_loop Kvs.unlink bypass
delete_loop-Unlinked zero h cs key chain lt = absurd (omega arith)
delete_loop-Unlinked (suc fuel) h [] key chain lt = (none, refl, refl)
delete_loop-Unlinked (suc fuel) h (c ∷ cs) key (holds, apart, chain) lt =
    let places = holds.places in
    let there : (c.place == null) ≡ false = ground arith in
    let loaded = load_node-Holds h c (first cs) holds in
    let read = load_text-key h c (first cs) holds in
    elim (Bool-cases (equal c.pair.key key)) [
      | inl hit ↦ (
        some (first cs, freed h c),
        rw (there, loaded, read, hit, free_node-freed h c (first cs) (first cs) holds) refl,
        (
          cs,
          rw hit refl,
          refl,
          freed-IsChain h c cs apart chain,
          freed-Moves h c cs (holds, apart, chain),
        ),
      )
      | inr other ↦
          let (r, ran, b) =
            delete_loop-Behind fuel h c cs key c.place (holds, apart, chain) (omega arith) in
          (r, rw (there, loaded, read, other) ran, Behind-Unlinked h c cs key r other b)
    ]
