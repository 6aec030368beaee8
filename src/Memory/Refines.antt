-- ===== src/Memory/Refines.antt =====
-- The calls of src/server/kvs.c in memory do what those of Kvs do to lists.
use mathlib.Core.List.{flatten}
use so_proj.Base.{
  ℕ, zero, suc, ◌<◌, ◌≡◌, refl, sym, ap, ◌∙◌, subst, List, [], ◌∷◌, Option, none, some, arith, map,
  length, length-set, get_or, set, All, Bytes, Option-cases, inl, inr, ◌==◌, true, false,
}
use so_proj.Base
use so_proj.Kvs
use so_proj.Kvs.Mapping.{hash-lt}
use so_proj.Kvs.{HashTable, table_size, hash}
use so_proj.Memory.Accesses.{Returned}
use so_proj.Memory.Cells.{Cell, first, IsChain, pairs, Moves, Moves-refl}
use so_proj.Memory.Deletes.{Unlinked, delete_loop-Unlinked}
use so_proj.Memory.Pushes.{pushed, pushed_cell, pushed-IsChain, pushed-Moves}
use so_proj.Memory.Tables.{AreChains, AreChains-used, set-AreChains}
use so_proj.Memory.Reads.{read_loop-find}
use so_proj.Memory.Writes.{IsMalloc, Overwritten, overwrite_loop-Overwritten}
use so_proj.Memory.{
  Ptr, null, Heap, Memory, done, written, push, write_pair, read_pair, deleted, delete_pair, copied,
  read_loop, free, text, at, store, ◌>>=◌,
}

-- The chains `css` stand in the memory, and the table of Kvs has their pairs.
pub record Represents (m : Memory) (css : List (List Cell)) (ht : HashTable) : Type 0 where
  pub heads : m.table ≡ map first css
  pub chains : AreChains m.heap css
  pub lists : ht.table ≡ map pairs css
  pub width : length css ≡ table_size

-- More fuel than any chain has nodes.
abbrev pub IsEnough : ℕ → List (List Cell) → Type 0
IsEnough fuel css = All (λ (cs : List Cell). length cs < fuel) css

-- What a call that returns `returned` leaves: the table `ht'`, in blocks that have changed hands
-- with nobody but `malloc` and `free`.
abbrev pub Leaves : Memory → List (List Cell) → HashTable → Memory → Type 0
Leaves m css ht' m' =
    (css' : List (List Cell)) × Represents m' css' ht'
    × Moves m.heap (flatten css) m'.heap (flatten css')

get_or-map {ℓ κ} :
    {A : Type ℓ} {B : Type κ} (f : A → B) (xs : List A) (i : ℕ) (d : A)
    → get_or (map f xs) i (f d) ≡ f (get_or xs i d)
get_or-map f [] i d = refl
get_or-map f (x ∷ xs) zero d = refl
get_or-map f (x ∷ xs) (suc i) d = get_or-map f xs i d

set-map {ℓ κ} :
    {A : Type ℓ} {B : Type κ} (f : A → B) (xs : List A) (i : ℕ) (x : A)
    → set (map f xs) i (f x) ≡ map f (set xs i x)
set-map f [] i x = refl
set-map f (y ∷ xs) zero x = refl
set-map f (y ∷ xs) (suc i) x = ap (◌∷◌ (f y)) (set-map f xs i x)

get_or-All :
    (fuel : ℕ) (css : List (List Cell)) (i : ℕ)
    → i < length css
    → IsEnough fuel css
    → length (get_or css i []) < fuel
get_or-All fuel [] i lt few = absurd (omega arith)
get_or-All fuel (cs ∷ css) zero lt (few, _) = few
get_or-All fuel (cs ∷ css) (suc i) lt (_, few) = get_or-All fuel css i (omega arith) few

get_or-AreChains :
    (h : Heap) (css : List (List Cell)) (i : ℕ) → AreChains h css → IsChain h (get_or css i [])
get_or-AreChains h [] i chains = tt
get_or-AreChains h (cs ∷ css) zero (chain, _, _) = chain
get_or-AreChains h (cs ∷ css) (suc i) (_, _, chains) = get_or-AreChains h css i chains

set-get_or {ℓ} : {A : Type ℓ} (xs : List A) (i : ℕ) (d : A) → set xs i (get_or xs i d) ≡ xs
set-get_or [] i d = refl
set-get_or (x ∷ xs) zero d = refl
set-get_or (x ∷ xs) (suc i) d = ap (◌∷◌ x) (set-get_or xs i d)

result_eq : {A : Type 0} {a b : A} → Base.ok a ≡ Base.ok b → a ≡ b
result_eq e = cc

-- The copy that `read_pair` returns, given back.
free_copied :
    (malloc : Heap → Ptr)
    → IsMalloc malloc
    → (h : Heap) (value : Option Bytes)
    → Returned
        (free (copied malloc h value).1 (copied malloc h value).0)
        λ g. (a : Ptr) → at g a ≡ at h a
unfolding free at
free_copied malloc gives h none = (h, refl, λ a. refl)
free_copied malloc gives h (some v) =
    let some_place = gives.place h in
    let unused = gives.free_there h in
    let there : (malloc h == null) ≡ false = ground arith in
    let here : (malloc h == malloc h) ≡ true = ground arith in
    (
      store (store h (malloc h) (some (text v))) (malloc h) none,
      rw (there, here) refl,
      λ a. ground arith,
    )

module _ (fuel : ℕ) (m : Memory) (css : List (List Cell)) (ht : HashTable) (r : Represents m css ht)
    (few : IsEnough fuel css) (key : Bytes) (i : ℕ) (at_slot : hash key ≡ some i) where
  abbrev chain_at : List Cell
  chain_at = get_or css i []

  in_range : i < length css
  in_range = let lt = hash-lt key at_slot in let width = r.width in omega arith

  head_at : get_or m.table i null ≡ first chain_at
  head_at = rw r.heads (get_or-map first css i [])

  list_at : Kvs.bucket ht i ≡ pairs chain_at
  list_at = rw r.lists (get_or-map pairs css i [])

  -- A changed chain in its slot.
  set-Represents :
      (g : Heap) (cs' : List Cell)
      → Moves m.heap chain_at g cs'
      → IsChain g cs'
      → Leaves m css
          (Kvs.set_bucket ht i (pairs cs'))
          (record { table = set m.table i (first cs'); heap = g })
  set-Represents g cs' moves chain =
      let (chains, n) = set-AreChains m.heap g css i cs' r.chains in_range moves chain in
      (
        set css i cs',
        record {
          heads = rw r.heads (set-map first css i cs');
          chains = chains;
          lists = rw r.lists (set-map pairs css i cs');
          width = length-set css i cs' ∙ r.width;
        },
        n,
      )

  -- A changed chain that begins where it did.
  same_head :
      (g : Heap) (cs' : List Cell)
      → first cs' ≡ first chain_at
      → Leaves m css
          (Kvs.set_bucket ht i (pairs cs'))
          (record { table = set m.table i (first cs'); heap = g })
      → Leaves m css (Kvs.set_bucket ht i (pairs cs')) (record m { heap = g })
  same_head g cs' start =
      let still : set m.table i (first cs') ≡ m.table =
        ap (set m.table i) (start ∙ sym head_at) ∙ set-get_or m.table i null in
      subst
        (λ (heads : List Ptr).
          Leaves m css (Kvs.set_bucket ht i (pairs cs')) (record { table = heads; heap = g }))
        still

  module _ (malloc : Heap → Ptr) (gives : IsMalloc malloc) (value : Bytes) where
    abbrev Wrote : Memory × ℕ → Type 0
    Wrote r =
        (ht' : HashTable) × (Kvs.write_pair ht key value ≡ Base.ok (ht', r.1))
        × Leaves m css ht' r.0

    writes :
        (cs' : List Cell)
        → Kvs.write_chain key value (pairs chain_at) ≡ pairs cs'
        → Kvs.write_pair ht key value ≡ Base.ok (Kvs.set_bucket ht i (pairs cs'), 0)
    unfolding Kvs.write_pair
    writes cs' e = rw at_slot (
        ap (λ (c : Kvs.Chain). Base.ok (Kvs.set_bucket ht i c, 0))
          (ap (Kvs.write_chain key value) list_at ∙ e))

    written-Wrote :
        (found : Option Heap)
        → Overwritten malloc gives m.heap chain_at key value found
        → Wrote (written malloc m i key value found)
    unfolding Kvs.write_chain push
    written-Wrote none none_there =
        let chain = get_or-AreChains m.heap css i r.chains in
        let c = pushed_cell malloc gives m.heap chain_at chain key value in
        (
          Kvs.set_bucket ht i (pairs (c ∷ chain_at)),
          writes (c ∷ chain_at) (rw (Kvs.write_chain, none_there) refl),
          rw head_at (
              set-Represents (pushed malloc gives m.heap chain_at chain key value) (c ∷ chain_at)
                (pushed-Moves malloc gives m.heap chain_at chain key value)
                (pushed-IsChain malloc gives m.heap chain_at chain key value)),
        )
    written-Wrote (some g) (cs', e, start, chain', moves) = (
      Kvs.set_bucket ht i (pairs cs'),
      writes cs' (rw (Kvs.write_chain, e) refl),
      same_head g cs' start (set-Represents g cs' moves chain'),
    )

    -- On a memory that holds the table, with more fuel than a chain has nodes and a `malloc` that
    -- gives an address that is not NULL and not in use, `write_pair` of a key that has a slot runs
    -- through: no access goes to memory that is not in use. The memory holds then the table that the
    -- `write_pair` without pointers gives, with the same value returned, and the blocks in use are
    -- those of the table and what else was in use before: the old value is freed, and nothing else
    -- is changed.
    pub write_pair-Wrote : Returned (write_pair malloc fuel m key value) Wrote
    unfolding write_pair
    write_pair-Wrote =
        let chain = get_or-AreChains m.heap css i r.chains in
        let (found, ran, o) =
          overwrite_loop-Overwritten malloc gives fuel m.heap chain_at key value chain
            (get_or-All fuel css i in_range few) in
        (written malloc m i key value found, rw (at_slot, head_at, ran) refl, written-Wrote found o)

  abbrev Deleted : Memory × ℕ → Type 0
  Deleted r =
      (ht' : HashTable) × (Kvs.delete_pair ht key ≡ Base.ok (ht', r.1)) × Leaves m css ht' r.0

  deletes :
      (o : Option Kvs.Chain)
      → Kvs.unlink key (pairs chain_at) ≡ o
      → Kvs.delete_pair ht key ≡ Base.ok (Kvs.unlinked ht i o)
  unfolding Kvs.delete_pair
  deletes o e = rw at_slot (
      ap (λ (o : Option Kvs.Chain). Base.ok (Kvs.unlinked ht i o))
        (ap (Kvs.unlink key) list_at ∙ e))

  deleted-Deleted :
      (found : Option (Ptr × Heap))
      → Unlinked m.heap chain_at key found
      → Deleted (deleted m i found)
  deleted-Deleted none none_there = (
    ht,
    deletes none none_there,
    (css, r, Moves-refl m.heap (flatten css) λ a. AreChains-used m.heap css a r.chains),
  )
  deleted-Deleted (some (head, g)) (cs', e, start, chain', moves) = (
    Kvs.set_bucket ht i (pairs cs'),
    deletes (some (pairs cs')) e,
    rw start (set-Represents g cs' moves chain'),
  )

  -- On a memory that holds the table, with more fuel than a chain has nodes, `delete_pair` of a key
  -- that has a slot runs through: no access goes to memory that is not in use. The memory holds then
  -- the table that the `delete_pair` without pointers gives, with the same value returned, and the
  -- blocks in use are those of the table and what else was in use before: a node that is taken out
  -- is freed with its key and its value.
  pub delete_pair-Deleted : Returned (delete_pair fuel m key) Deleted
  unfolding delete_pair
  delete_pair-Deleted =
      let chain = get_or-AreChains m.heap css i r.chains in
      let (found, ran, u) =
        delete_loop-Unlinked fuel m.heap chain_at key chain (get_or-All fuel css i in_range few) in
      (deleted m i found, rw (at_slot, head_at, ran) refl, deleted-Deleted found u)

  read_pair-copied :
      (malloc : Heap → Ptr) (value : Option Bytes)
      → Kvs.read_pair ht key ≡ Base.ok value
      → read_pair malloc fuel m key ≡ done (copied malloc m.heap value)
  unfolding read_pair Kvs.read_pair
  read_pair-copied malloc value e =
      let chain = get_or-AreChains m.heap css i r.chains in
      let found : Kvs.find key (Kvs.bucket ht i) ≡ value = result_eq (sym (rw at_slot refl) ∙ e) in
      let loop : read_loop fuel m.heap (first chain_at) key ≡ done value =
        read_loop-find fuel m.heap chain_at key chain (get_or-All fuel css i in_range few)
        ∙ ap done (sym (ap (Kvs.find key) list_at) ∙ found) in
      rw (at_slot, head_at, loop) refl

  -- A call of `read_pair`, and the `free` of the copy by the caller.
  pub read_pair-free :
      (malloc : Heap → Ptr)
      → IsMalloc malloc
      → Returned
          (read_pair malloc fuel m key >>= λ (p, h). free h p)
          λ g. (a : Ptr) → at g a ≡ at m.heap a
  unfolding Kvs.read_pair
  read_pair-free malloc gives =
      let value = Kvs.find key (Kvs.bucket ht i) in
      let (g, freed, same) = free_copied malloc gives m.heap value in
      (g, rw (read_pair-copied malloc value (rw at_slot refl)) freed, same)
