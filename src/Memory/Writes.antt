-- ===== src/Memory/Writes.antt =====
-- `write_pair` of src/server/kvs.c in memory: the value of a node, or a new node.
use so_proj.Base.{
  ℕ, zero, suc, ◌<◌, ◌≡◌, refl, ap, ◌∙◌, true, false, not, ◌||◌, ◌&&◌, List, [], ◌∷◌, Option, none,
  some, arith, ◌==◌, Bool-cases, inl, inr, length, Bytes, equal,
}
use so_proj.Kvs
use so_proj.Memory.Accesses.{Returned, node_of, free-at, load_node-Holds, load_text-key}
use so_proj.Memory.Cells.{
  Cell, is_there, touches, has, first, used, Holds, Apart, IsChain, pairs, Moves, Holds-used,
  IsChain-frame, IsChain-used, Moves-cons, IsChain-cons, kept,
}
use so_proj.Memory.{Ptr, null, text, node, Heap, at, store, done, overwrite_value, overwrite_loop}

-- What is known of `malloc` where it succeeds: the address is not null, and nothing stands there.
pub record IsMalloc (malloc : Heap → Ptr) : Type 0 where
  pub place : (h : Heap) → (null == malloc h) ≡ false
  pub free_there : (h : Heap) → at h (malloc h) ≡ none

module _ (malloc : Heap → Ptr) (gives : IsMalloc malloc) where
  -- The memory behind a new value, and the node then.
  abbrev renewed : Heap → Cell → Ptr → Bytes → Heap
  renewed h c next value =
      let h1 = store h c.value_place none in
      let copy = malloc h1 in
      store (store h1 copy (some (text value))) c.place (some (node c.key_place copy next))

  abbrev renewed_cell : Heap → Cell → Bytes → Cell
  renewed_cell h c value =
      let pair = c.pair in
      record c {
        value_place = malloc (store h c.value_place none);
        pair = record pair { value = value };
      }

  overwrite_value-renewed :
      (h : Heap) (c : Cell) (next : Ptr) (value : Bytes)
      → Holds h c next
      → overwrite_value malloc h c.place (node_of c next) value ≡ done (renewed h c next value)
  unfolding overwrite_value
  overwrite_value-renewed h c next value holds =
      let places = holds.places in rw (free-at h c.value_place _ (ground arith) holds.value_at)

  module _ (h : Heap) (c : Cell) (cs : List Cell) (value : Bytes) (holds : Holds h c (first cs))
      (apart : Apart c cs) (chain : IsChain h cs) where
    abbrev copy : Ptr
    copy = malloc (store h c.value_place none)

    abbrev after : Heap
    after = renewed h c (first cs) value

    -- The copy may take the place of the old value, and no other place that is in use.
    copy_free : (a : Ptr) → used h a ≡ true → (a == c.value_place) ≡ false → (a == copy) ≡ false
    unfolding at
    copy_free a on off = let unused = gives.free_there (store h c.value_place none) in ground arith

    copy-place : (c.place == copy) ≡ false
    copy-place =
        let distinct = holds.distinct in
        copy_free c.place (Holds-used h c (first cs) c.place holds (ground arith)) (ground arith)

    copy-key_place : (c.key_place == copy) ≡ false
    copy-key_place =
        let distinct = holds.distinct in
        copy_free c.key_place (Holds-used h c (first cs) c.key_place holds (ground arith))
          (ground arith)

    copy-rest : (a : Ptr) → has a cs ≡ true → (a == copy) ≡ false
    copy-rest a on = copy_free a (IsChain-used h cs a chain on) (ground (arith, apart a))

    after-same :
        (a : Ptr)
        → (a == c.place || (a == copy || a == c.value_place)) ≡ false
        → at after a ≡ at h a
    unfolding at
    after-same a off = ground arith

    renewed-IsChain : IsChain after (renewed_cell h c value ∷ cs)
    unfolding at
    renewed-IsChain =
        let some_place = gives.place (store h c.value_place none) in
        let places = holds.places in
        let distinct = holds.distinct in
        (
          record {
            places = ground arith;
            distinct = ground (arith, copy-place, copy-key_place);
            node_at = ground arith;
            key_at = after-same c.key_place (ground (arith, copy-key_place)) ∙ holds.key_at;
            value_at = ground (arith, copy-place);
          },
          λ a on. ground (arith, apart a, copy-rest a),
          IsChain-frame h after cs chain
              λ a i. after-same a (ground (arith, apart a, copy-rest a i)),
        )

    after-used :
        (a : Ptr)
        → used after a ≡ (has a (renewed_cell h c value ∷ cs) || (used h a && not (has a (c ∷ cs))))
    unfolding at
    after-used a = elim (Bool-cases (a == c.place || (a == copy || a == c.value_place))) [
      | inr off ↦
          let still : touches a (renewed_cell h c value) ≡ (a == c.key_place) = ground arith in
          let was : touches a c ≡ (a == c.key_place) = ground arith in
          let on = λ (i : (a == c.key_place || has a cs) ≡ true).
            IsChain-used h (c ∷ cs) a (holds, apart, chain) (rw was i) in
          ap is_there (after-same a off)
          ∙ rw (still, was) (kept (a == c.key_place || has a cs) (used h a) on)
      | inl on ↦ elim (Bool-cases (a == c.place || a == copy)) [
        | inl new ↦ ground (arith, new)
        | inr old ↦
            let distinct = holds.distinct in
            let rest : has a cs ≡ false = apart a (ground (arith, on, old)) in
            ground (arith, on, old, rest)
      ]
    ]

    renewed-Moves : Moves h (c ∷ cs) after (renewed_cell h c value ∷ cs)
    unfolding at
    renewed-Moves =
        let places = holds.places in
        record {
          same = λ a off on. after-same a (ground (arith, copy_free a on));
          fresh = λ a on off. ground (arith, copy_free a);
          balance = after-used;
        }

  -- What the loop of `write_pair` makes of a chain: the pairs are those that `overwrite` gives.
  abbrev pub Overwritten : Heap → List Cell → Bytes → Bytes → Option Heap → Type 0
  Overwritten h cs key value none = Kvs.overwrite key value (pairs cs) ≡ none
  Overwritten h cs key value (some g) =
      (cs' : List Cell) × (Kvs.overwrite key value (pairs cs) ≡ some (pairs cs'))
      × (first cs' ≡ first cs)
      × IsChain g cs'
      × Moves h cs g cs'

  Overwritten-cons :
      (h : Heap) (c : Cell) (cs : List Cell) (key value : Bytes) (r : Option Heap)
      → IsChain h (c ∷ cs)
      → equal c.pair.key key ≡ false
      → Overwritten h cs key value r
      → Overwritten h (c ∷ cs) key value r
  unfolding Kvs.overwrite
  Overwritten-cons h c cs key value none chain other none_there = rw (other, none_there) refl
  Overwritten-cons h c cs key value (some g) chain other (cs', e, start, chain', m) = (
    c ∷ cs',
    rw (other, e) refl,
    refl,
    IsChain-cons h g c cs cs' chain m start chain',
    Moves-cons h g c cs cs' chain m,
  )

  pub overwrite_loop-Overwritten :
      (fuel : ℕ) (h : Heap) (cs : List Cell) (key value : Bytes)
      → IsChain h cs
      → length cs < fuel
      → Returned (overwrite_loop malloc fuel h (first cs) key value) (Overwritten h cs key value)
  unfolding overwrite_loop Kvs.overwrite
  overwrite_loop-Overwritten zero h cs key value chain lt = absurd (omega arith)
  overwrite_loop-Overwritten (suc fuel) h [] key value chain lt = (none, refl, refl)
  overwrite_loop-Overwritten (suc fuel) h (c ∷ cs) key value (holds, apart, chain) lt =
      let places = holds.places in
      let there : (c.place == null) ≡ false = ground arith in
      let loaded = load_node-Holds h c (first cs) holds in
      let read = load_text-key h c (first cs) holds in
      elim (Bool-cases (equal c.pair.key key)) [
        | inl hit ↦ (
          some (renewed h c (first cs) value),
          rw (there, loaded, read, hit, overwrite_value-renewed h c (first cs) value holds) refl,
          (
            renewed_cell h c value ∷ cs,
            rw hit refl,
            refl,
            renewed-IsChain h c cs value holds apart chain,
            renewed-Moves h c cs value holds apart chain,
          ),
        )
        | inr other ↦
            let (r, ran, o) = overwrite_loop-Overwritten fuel h cs key value chain (omega arith) in
            (
              r,
              rw (there, loaded, read, other) ran,
              Overwritten-cons h c cs key value r (holds, apart, chain) other o,
            )
      ]
