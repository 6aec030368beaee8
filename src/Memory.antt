-- ===== src/Memory.antt =====
-- src/server/kvs.c with its pointers: the nodes and strings of the table are blocks of memory, and
-- the calls follow, change and free them. A loop runs on fuel. The table itself is not a block here;
-- it is the array of its heads.
pub mod Cells
pub mod Accesses
pub mod Writes
pub mod Pushes
pub mod Deletes
pub mod Frees
pub mod Reads
pub mod Tables
pub mod Refines
pub mod Lives
use so_proj.Base.{
  ℕ, zero, suc, Bool, true, false, List, [], ◌∷◌, Option, none, some, ◌==◌, if◌then◌else◌, get_or,
  set, replicate, Bytes, equal, Fault, null_pointer, dangling, Run, fault,
}
use so_proj.Base
use so_proj.Kvs.{hash, slot, table_size}

abbrev pub Ptr : Type 0
Ptr = ℕ

abbrev pub null : Ptr
null = 0

-- A string, or a `struct KeyNode`.
pub data Block : Type 0 where
  text : (bytes : Bytes) → Block
  node : (key value next : Ptr) → Block

-- The memory is what has been written so far, the last write first; `none` frees a block.
abbrev pub Heap : Type 0
Heap = List (Ptr × Option Block)

unfoldable pub at : Heap → Ptr → Option Block
at [] p = none
at ((a, c) ∷ h) p = if p == a then c else at h p

abbrev pub store : Heap → Ptr → Option Block → Heap
store h p c = (p, c) ∷ h

-- A run returns, leaves what C defines, or has not returned within the fuel.
pub data Steps (A : Type 0) : Type 0 where
  done : (result : A) → Steps A
  faults : (what : Fault) → Steps A
  no_fuel : Steps A

infixl 5 ◌>>=◌
abbrev pub ◌>>=◌ : {A B : Type 0} → Steps A → (A → Steps B) → Steps B
done result >>= next = next result
faults what >>= next = faults what
no_fuel >>= next = no_fuel

abbrev pub of_run : {A : Type 0} → Run A → Steps A
of_run (Base.ok result) = done result
of_run (fault what) = faults what

-- `*p`
pub load : Heap → Ptr → Steps Block
load h p =
    if p == null
    then faults null_pointer
    else elim (at h p) [ none ↦ faults dangling | some block ↦ done block ]

pub record KeyNode : Type 0 where
  pub key : Ptr
  pub value : Ptr
  pub next : Ptr

abbrev pub as_node : Block → Steps KeyNode
as_node (text bytes) = faults dangling
as_node (node key value next) = done (record { key = key; value = value; next = next })

abbrev pub as_text : Block → Steps Bytes
as_text (text bytes) = done bytes
as_text (node key value next) = faults dangling

pub load_node : Heap → Ptr → Steps KeyNode
load_node h p = do block ← load h p; as_node block

pub load_text : Heap → Ptr → Steps Bytes
load_text h p = do block ← load h p; as_text block

-- `free`; the null pointer is let through.
pub free : Heap → Ptr → Steps Heap
free h p =
    if p == null
    then done h
    else elim (at h p) [ none ↦ faults dangling | some block ↦ done (store h p none) ]

-- The heads of the chains, and the memory.
pub record Memory : Type 0 where
  pub table : List Ptr
  pub heap : Heap

-- `malloc` gives an address; the memory at it is read only after it has been written.
module _ (malloc : Heap → Ptr) where
  abbrev pub strdup : Heap → Bytes → Heap × Ptr
  strdup h bytes = let p = malloc h in (store h p (some (text bytes)), p)

  -- `keyNode->value = strdup(value)` behind the `free` of the old one.
  pub overwrite_value : Heap → Ptr → KeyNode → Bytes → Steps Heap
  overwrite_value h p n value = do
    h1 ← free h n.value
    let (h2, copy) = strdup h1 value
    done (store h2 p (some (node n.key copy n.next)))

  -- The loop of `write_pair` from the node at `p`: the memory, if the key is found.
  pub overwrite_loop : ℕ → Heap → Ptr → Bytes → Bytes → Steps (Option Heap)
  overwrite_loop zero h p key value = no_fuel
  overwrite_loop (suc fuel) h p key value = if p == null then done none else do
    n ← load_node h p
    bytes ← load_text h n.key
    if equal bytes key
        then (do h' ← overwrite_value h p n value; done (some h'))
        else overwrite_loop fuel h n.next key value

  -- A new node in front of the chain.
  pub push : Heap → Ptr → Bytes → Bytes → Heap × Ptr
  push h head key value =
      let p = malloc h in
      let h1 = store h p (some (node null null null)) in
      let (h2, key_copy) = strdup h1 key in
      let (h3, value_copy) = strdup h2 value in
      (store h3 p (some (node key_copy value_copy head)), p)

  abbrev pub written : Memory → ℕ → Bytes → Bytes → Option Heap → Memory × ℕ
  written m index key value (some h) = (record m { heap = h }, 0)
  written m index key value none =
      let (h, head) = push m.heap (get_or m.table index null) key value in
      (record { table = set m.table index head; heap = h }, 0)

  unfoldable pub write_pair : ℕ → Memory → Bytes → Bytes → Steps (Memory × ℕ)
  write_pair fuel m key value = do
    index ← of_run (slot (hash key))
    found ← overwrite_loop fuel m.heap (get_or m.table index null) key value
    done (written m index key value found)

-- The loop of `read_pair`: the value found.
unfoldable pub read_loop : ℕ → Heap → Ptr → Bytes → Steps (Option Bytes)
read_loop zero h p key = no_fuel
read_loop (suc fuel) h p key = if p == null then done none else do
  n ← load_node h p
  bytes ← load_text h n.key
  if equal bytes key
      then (do value ← load_text h n.value; done (some value))
      else read_loop fuel h n.next key

-- The result NULL, or a copy of the value for the caller.
abbrev pub copied : (Heap → Ptr) → Heap → Option Bytes → Ptr × Heap
copied malloc h none = (null, h)
copied malloc h (some value) = let (h', p) = strdup malloc h value in (p, h')

unfoldable pub read_pair : (Heap → Ptr) → ℕ → Memory → Bytes → Steps (Ptr × Heap)
read_pair malloc fuel m key = do
  index ← of_run (slot (hash key))
  found ← read_loop fuel m.heap (get_or m.table index null) key
  done (copied malloc m.heap found)

-- The three calls of `free` for a node.
pub free_node : Heap → Ptr → KeyNode → Steps Heap
free_node h p n = do h1 ← free h n.key; h2 ← free h1 n.value; free h2 p

-- `prevNode->next = next`
abbrev pub set_next : Heap → Ptr → Ptr → Steps Heap
set_next h p next = do n ← load_node h p; done (store h p (some (node n.key n.value next)))

-- The node at `p` is taken out of its chain, behind `prev` or at the head: the new head and the
-- memory.
pub bypass : Heap → Ptr → Ptr → Ptr → KeyNode → Steps (Ptr × Heap)
bypass h head prev p n =
    if prev == null
    then (do h' ← free_node h p n; done (n.next, h'))
    else (do h1 ← set_next h prev n.next; h' ← free_node h1 p n; done (head, h'))

-- The loop of `delete_pair`.
unfoldable pub delete_loop : ℕ → Heap → Ptr → Ptr → Ptr → Bytes → Steps (Option (Ptr × Heap))
delete_loop zero h head prev p key = no_fuel
delete_loop (suc fuel) h head prev p key = if p == null then done none else do
  n ← load_node h p
  bytes ← load_text h n.key
  if equal bytes key
      then (do r ← bypass h head prev p n; done (some r))
      else delete_loop fuel h head p n.next key

abbrev pub deleted : Memory → ℕ → Option (Ptr × Heap) → Memory × ℕ
deleted m index none = (m, 1)
deleted m index (some (head, h)) = (record { table = set m.table index head; heap = h }, 0)

unfoldable pub delete_pair : ℕ → Memory → Bytes → Steps (Memory × ℕ)
delete_pair fuel m key = do
  index ← of_run (slot (hash key))
  let head = get_or m.table index null
  found ← delete_loop fuel m.heap head null head key
  done (deleted m index found)

-- The inner loop of `free_table`.
pub free_loop : ℕ → Heap → Ptr → Steps Heap
free_loop zero h p = no_fuel
free_loop (suc fuel) h p =
    if p == null
    then done h
    else do n ← load_node h p; h' ← free_node h p n; free_loop fuel h' n.next

-- The outer loop, over the heads of the table.
pub free_table : ℕ → List Ptr → Heap → Steps Heap
free_table fuel [] h = done h
free_table fuel (p ∷ heads) h = do h' ← free_loop fuel h p; free_table fuel heads h'
