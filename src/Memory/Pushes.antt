-- ===== src/Memory/Pushes.antt =====
-- A new node in front of a chain, as `write_pair` of src/server/kvs.c makes it.
use so_proj.Base.{
  ◌≡◌, refl, ap, ◌∙◌, true, false, ◌||◌, List, ◌∷◌, some, arith, ◌==◌, Bool-cases, inl, inr, Bytes,
}
use so_proj.Memory.Cells.{
  Cell, is_there, touches, has, first, used, IsChain, Moves, IsChain-frame, IsChain-used, kept,
}
use so_proj.Memory.Writes.{IsMalloc}
use so_proj.Memory.{Ptr, null, text, node, Heap, at, store, push}

module _ (malloc : Heap → Ptr) (gives : IsMalloc malloc) (h : Heap) (cs : List Cell)
    (chain : IsChain h cs) (key value : Bytes) where
  abbrev place : Ptr
  place = malloc h

  abbrev with_node : Heap
  with_node = store h place (some (node null null null))

  abbrev key_place : Ptr
  key_place = malloc with_node

  abbrev with_key_text : Heap
  with_key_text = store with_node key_place (some (text key))

  abbrev value_place : Ptr
  value_place = malloc with_key_text

  abbrev pub pushed : Heap
  pushed = (push malloc h (first cs) key value).0

  abbrev pub pushed_cell : Cell
  pushed_cell = record {
    place = place;
    key_place = key_place;
    value_place = value_place;
    pair = record { key = key; value = value };
  }

  place_free : used h place ≡ false
  place_free = ap is_there (gives.free_there h)

  key_place_free : (used h key_place ≡ false) × ((place == key_place) ≡ false)
  unfolding at
  key_place_free = let unused = gives.free_there with_node in (ground arith, ground arith)

  value_place_free :
      (used h value_place ≡ false) × ((place == value_place || key_place == value_place) ≡ false)
  unfolding at
  value_place_free = let unused = gives.free_there with_key_text in (ground arith, ground arith)

  pushed-same : (a : Ptr) → touches a pushed_cell ≡ false → at pushed a ≡ at h a
  unfolding at push
  pushed-same a off = ground arith

  new_free : (a : Ptr) → touches a pushed_cell ≡ true → used h a ≡ false
  new_free a on = ground (arith, place_free, key_place_free.0, value_place_free.0)

  pushed-there : (a : Ptr) → touches a pushed_cell ≡ true → used pushed a ≡ true
  unfolding at push
  pushed-there a on = ground arith

  rest_off : (a : Ptr) → has a cs ≡ true → touches a pushed_cell ≡ false
  rest_off a on = elim (Bool-cases (touches a pushed_cell)) [
    | inr off ↦ off
    | inl new ↦ let here = new_free a new in let there = IsChain-used h cs a chain on in absurd cc
  ]

  pub pushed-IsChain : IsChain pushed (pushed_cell ∷ cs)
  unfolding at push
  pushed-IsChain =
      let some_place = gives.place h in
      let some_key = gives.place with_node in
      let some_value = gives.place with_key_text in
      let (key_free, key_off) = key_place_free in
      let (value_free, value_off) = value_place_free in
      (
        record {
          places = ground arith;
          distinct = ground arith;
          node_at = ground arith;
          key_at = ground arith;
          value_at = ground arith;
        },
        λ a on. ground (arith, rest_off a),
        IsChain-frame h pushed cs chain λ a i. pushed-same a (rest_off a i),
      )

  pub pushed-Moves : Moves h cs pushed (pushed_cell ∷ cs)
  pushed-Moves = record {
    same = λ a off on. pushed-same a (ground (arith, new_free a));
    fresh = λ a on off. new_free a (ground arith);
    balance = λ a. elim (Bool-cases (touches a pushed_cell)) [
      | inl new ↦ pushed-there a new ∙ rw new refl
      | inr off ↦
          ap is_there (pushed-same a off)
          ∙ rw off (kept (has a cs) (used h a) (IsChain-used h cs a chain))
    ];
  }
