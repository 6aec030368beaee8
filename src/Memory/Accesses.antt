-- ===== src/Memory/Accesses.antt =====
-- The accesses of src/server/kvs.c to a node that is in use.
use so_proj.Base.{◌≡◌, false, ◌==◌, some, none, arith}
use so_proj.Memory.{
  Steps, Ptr, null, Block, Heap, at, store, done, KeyNode, load, load_node, load_text, free,
}
use so_proj.Memory.Cells.{Cell, Holds}

-- A run that returns, with a result of which `P` holds.
abbrev pub Returned : {A : Type 0} → Steps A → (A → Type 0) → Type 0
Returned {A} run P = (result : A) × (run ≡ done result) × P result

abbrev pub node_of : Cell → Ptr → KeyNode
node_of c next = record { key = c.key_place; value = c.value_place; next = next }

load-at :
    (h : Heap) (p : Ptr) (block : Block)
    → (null == p) ≡ false
    → at h p ≡ some block
    → load h p ≡ done block
unfolding load
load-at h p block some_place here =
    let other : (p == null) ≡ false = ground arith in rw (other, here)

pub free-at :
    (h : Heap) (p : Ptr) (block : Block)
    → (null == p) ≡ false
    → at h p ≡ some block
    → free h p ≡ done (store h p none)
unfolding free
free-at h p block some_place here =
    let other : (p == null) ≡ false = ground arith in rw (other, here)

module _ (h : Heap) (c : Cell) (next : Ptr) (holds : Holds h c next) where
  pub load_node-Holds : load_node h c.place ≡ done (node_of c next)
  unfolding load_node
  load_node-Holds =
      let places = holds.places in rw (load-at h c.place _ (ground arith) holds.node_at)

  pub load_text-key : load_text h c.key_place ≡ done c.pair.key
  unfolding load_text
  load_text-key =
      let places = holds.places in rw (load-at h c.key_place _ (ground arith) holds.key_at)

  pub load_text-value : load_text h c.value_place ≡ done c.pair.value
  unfolding load_text
  load_text-value =
      let places = holds.places in rw (load-at h c.value_place _ (ground arith) holds.value_at)
