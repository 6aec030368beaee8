-- ===== src/Memory/Cells.antt =====
-- The chains that src/server/kvs.c keeps in memory.
use so_proj.Base.{
  ◌≡◌, refl, ap, ◌∙◌, Bool, true, false, not, ◌||◌, ◌&&◌, List, [], ◌∷◌, Option, none, some, arith,
  ◌==◌, map,
}
use so_proj.Kvs
use so_proj.Memory.{Block, Ptr, null, text, node, Heap, at}

-- The three blocks of a node, and what the node holds.
pub record Cell : Type 0 where
  pub place : Ptr
  pub key_place : Ptr
  pub value_place : Ptr
  pub pair : Kvs.KeyNode

abbrev pub touches : Ptr → Cell → Bool
touches a c = a == c.place || (a == c.key_place || a == c.value_place)

abbrev pub has : Ptr → List Cell → Bool
has a [] = false
has a (c ∷ cs) = touches a c || has a cs

abbrev pub first : List Cell → Ptr
first [] = null
first (c ∷ _) = c.place

abbrev pub is_there : Option Block → Bool
is_there none = false
is_there (some _) = true

abbrev pub used : Heap → Ptr → Bool
used h a = is_there (at h a)

-- The blocks of one node, distinct and not null, of which the node's leads to `next`.
pub record Holds (h : Heap) (c : Cell) (next : Ptr) : Type 0 where
  pub places : (null == c.place || (null == c.key_place || null == c.value_place)) ≡ false
  pub distinct :
      (c.place == c.key_place || (c.place == c.value_place || c.key_place == c.value_place)) ≡ false
  pub node_at : at h c.place ≡ some (node c.key_place c.value_place next)
  pub key_at : at h c.key_place ≡ some (text c.pair.key)
  pub value_at : at h c.value_place ≡ some (text c.pair.value)

-- No block of the node is a block of the others.
abbrev pub Apart : Cell → List Cell → Type 0
Apart c cs = (a : Ptr) → touches a c ≡ true → has a cs ≡ false

-- The blocks of a chain, no two of them at one address.
abbrev pub IsChain : Heap → List Cell → Type 0
IsChain h [] = Unit
IsChain h (c ∷ cs) = Holds h c (first cs) × Apart c cs × IsChain h cs

-- The pairs of a chain.
abbrev pub pairs : List Cell → List Kvs.KeyNode
pairs cs = map (λ (c : Cell). c.pair) cs

-- The memory `g` differs from `h` in the blocks of the chain alone: those of `cs` that are not in
-- `cs'` have been freed, those of `cs'` that are not in `cs` were free before.
pub record Moves (h : Heap) (cs : List Cell) (g : Heap) (cs' : List Cell) : Type 0 where
  pub same : (a : Ptr) → has a cs ≡ false → used h a ≡ true → at g a ≡ at h a
  pub fresh : (a : Ptr) → has a cs' ≡ true → has a cs ≡ false → used h a ≡ false
  pub balance : (a : Ptr) → used g a ≡ (has a cs' || (used h a && not (has a cs)))

pub IsChain-frame :
    (h g : Heap) (cs : List Cell)
    → IsChain h cs
    → ((a : Ptr) → has a cs ≡ true → at g a ≡ at h a)
    → IsChain g cs
IsChain-frame h g [] chain same = tt
IsChain-frame h g (c ∷ cs) (holds, apart, chain) same = (
  record {
    places = holds.places;
    distinct = holds.distinct;
    node_at = same c.place (ground arith) ∙ holds.node_at;
    key_at = same c.key_place (ground arith) ∙ holds.key_at;
    value_at = same c.value_place (ground arith) ∙ holds.value_at;
  },
  apart,
  IsChain-frame h g cs chain λ a i. same a (ground arith),
)

pub Holds-used :
    (h : Heap) (c : Cell) (next : Ptr) (a : Ptr)
    → Holds h c next
    → touches a c ≡ true
    → used h a ≡ true
Holds-used h c next a holds on =
    let node_at = holds.node_at in
    let key_at = holds.key_at in let value_at = holds.value_at in ground arith

pub IsChain-used :
    (h : Heap) (cs : List Cell) (a : Ptr) → IsChain h cs → has a cs ≡ true → used h a ≡ true
IsChain-used h [] a chain on = absurd cc
IsChain-used h (c ∷ cs) a (holds, apart, chain) on =
    ground (arith, Holds-used h c (first cs) a holds, IsChain-used h cs a chain)

-- The balance where nothing changes.
pub kept : (on there : Bool) → (on ≡ true → there ≡ true) → there ≡ (on || (there && not on))
kept true there h = h refl
kept false there h = ground arith

-- A change of the rest of a chain, behind a node that stays.
pub Moves-cons :
    (h g : Heap) (c : Cell) (cs cs' : List Cell)
    → IsChain h (c ∷ cs)
    → Moves h cs g cs'
    → Moves h (c ∷ cs) g (c ∷ cs')
Moves-cons h g c cs cs' (holds, apart, chain) m = record {
  same = λ a off on. m.same a (ground arith) on;
  fresh = λ a on off. m.fresh a (ground arith) (ground arith);
  balance = λ a. ground (arith, m.balance a, Holds-used h c (first cs) a holds, apart a);
}

pub IsChain-cons :
    (h g : Heap) (c : Cell) (cs cs' : List Cell)
    → IsChain h (c ∷ cs)
    → Moves h cs g cs'
    → first cs' ≡ first cs
    → IsChain g cs'
    → IsChain g (c ∷ cs')
IsChain-cons h g c cs cs' (holds, apart, chain) m start chain' =
    let same = λ (a : Ptr) (on : touches a c ≡ true).
      m.same a (apart a on) (Holds-used h c (first cs) a holds on) in
    (
      record {
        places = holds.places;
        distinct = holds.distinct;
        node_at = same c.place (ground arith) ∙ holds.node_at ∙ rw start refl;
        key_at = same c.key_place (ground arith) ∙ holds.key_at;
        value_at = same c.value_place (ground arith) ∙ holds.value_at;
      },
      λ a on. ground (arith, m.fresh a, apart a on, Holds-used h c (first cs) a holds on),
      chain',
    )

-- One change after the other.
pub Moves-trans :
    (h g k : Heap) (cs cs' cs'' : List Cell)
    → Moves h cs g cs'
    → Moves g cs' k cs''
    → Moves h cs k cs''
Moves-trans h g k cs cs' cs'' m n = record {
  same = λ a off on.
      let off' : has a cs' ≡ false = ground (arith, m.fresh a) in
      let here = m.same a off on in n.same a off' (ap is_there here ∙ on) ∙ here;
  fresh = λ a on off. ground (arith, m.fresh a, n.fresh a, m.balance a);
  balance = λ a. ground (arith, m.fresh a, m.balance a, n.balance a);
}

pub Moves-same :
    (h g : Heap) (cs : List Cell)
    → ((a : Ptr) → at g a ≡ at h a)
    → ((a : Ptr) → has a cs ≡ true → used h a ≡ true)
    → Moves h cs g cs
Moves-same h g cs alike there = record {
  same = λ a off on. alike a;
  fresh = λ a on off. absurd cc;
  balance = λ a. ap is_there (alike a) ∙ kept (has a cs) (used h a) (there a);
}

pub Moves-refl :
    (h : Heap) (cs : List Cell) → ((a : Ptr) → has a cs ≡ true → used h a ≡ true) → Moves h cs h cs
Moves-refl h cs there = Moves-same h h cs (λ a. refl) there
