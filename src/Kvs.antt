-- ===== src/Kvs.antt =====
-- src/server/kvs.c, kvs.h: the hash table of the store.
-- A chain is the list of the nodes that hang on one slot, the head first; a key or a value is the
-- string that the node owns. Allocation of nodes and strings succeeds, as the code takes it to.
pub mod Chains
pub mod Mapping
pub mod Lengths
use so_proj.Base.{
  ℕ, ◌+◌, ◌-◌, Bool, true, false, ◌&&◌, List, [], ◌∷◌, Option, none, some, leb, if◌then◌else◌,
  get_or, set, replicate, Bytes, equal, Run, ok, fault, bad_index, ◌>>=◌,
}

abbrev pub table_size : ℕ
table_size = 26

pub record KeyNode : Type 0 where
  pub key : Bytes
  pub value : Bytes

abbrev pub Chain : Type 0
Chain = List KeyNode

pub record HashTable : Type 0 where
  pub table : List Chain

pub tolower : ℕ → ℕ
tolower c = if leb b'A' c && leb c b'Z' then c + 32 else c

-- `key[0]`, which is the terminator of an empty string
abbrev first_letter : Bytes → ℕ
first_letter [] = 0
first_letter (c ∷ _) = c

-- `none` is the result -1.
unfoldable pub hash : Bytes → Option ℕ
unfolding tolower
hash key =
    let first = tolower (first_letter key) in
    if leb b'a' first && leb first b'z'
    then some (first - b'a')
    else if leb b'0' first && leb first b'9'
    then some (first - b'0')
    else none

-- The argument tells whether `malloc` succeeds.
unfoldable pub create_hash_table : Bool → Option HashTable
create_hash_table false = none
create_hash_table true = some (record { table = replicate table_size [] })

-- `ht->table[index]`: the index -1 is outside the array.
abbrev pub slot : Option ℕ → Run ℕ
slot none = fault bad_index
slot (some i) = ok i

abbrev pub bucket : HashTable → ℕ → Chain
bucket ht i = get_or ht.table i []

abbrev pub set_bucket : HashTable → ℕ → Chain → HashTable
set_bucket ht i c = record { table = set ht.table i c }

-- The search loops over one chain.
abbrev pub keep_node : KeyNode → Option Chain → Option Chain
keep_node n none = none
keep_node n (some c) = some (n ∷ c)

unfoldable pub overwrite : Bytes → Bytes → Chain → Option Chain
overwrite key value [] = none
overwrite key value (n ∷ next) =
    if equal n.key key
    then some (record n { value = value } ∷ next)
    else keep_node n (overwrite key value next)

unfoldable pub find : Bytes → Chain → Option Bytes
find key [] = none
find key (n ∷ next) = if equal n.key key then some n.value else find key next

unfoldable pub unlink : Bytes → Chain → Option Chain
unlink key [] = none
unlink key (n ∷ next) = if equal n.key key then some next else keep_node n (unlink key next)

-- The chain that `write_pair` leaves: the value replaced, or a new node at the head.
unfoldable pub write_chain : Bytes → Bytes → Chain → Chain
unfolding overwrite
write_chain key value c = elim (overwrite key value c) [
  | some c' ↦ c'
  | none ↦ record { key = key; value = value } ∷ c
]

-- The result is the table that the call leaves, and the number that it returns.
unfoldable pub write_pair : HashTable → Bytes → Bytes → Run (HashTable × ℕ)
unfolding write_chain
write_pair ht key value = do
  index ← slot (hash key)
  ok (set_bucket ht index (write_chain key value (bucket ht index)), 0)

-- `none` is the result NULL.
unfoldable pub read_pair : HashTable → Bytes → Run (Option Bytes)
unfolding find
read_pair ht key = do index ← slot (hash key); ok (find key (bucket ht index))

abbrev pub unlinked : HashTable → ℕ → Option Chain → HashTable × ℕ
unlinked ht index none = (ht, 1)
unlinked ht index (some c) = (set_bucket ht index c, 0)

unfoldable pub delete_pair : HashTable → Bytes → Run (HashTable × ℕ)
unfolding unlink
delete_pair ht key = do
  index ← slot (hash key)
  ok (unlinked ht index (unlink key (bucket ht index)))
