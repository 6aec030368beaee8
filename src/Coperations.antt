-- ===== src/Coperations.antt =====
-- src/server/coperations.c: which notification pipes are subscribed to a key, and the list of keys
-- that one client keeps. A call on the table holds the lock of the node that it touches from its
-- first access of the node to its last, so it is one step.
pub mod Nodes
pub mod Tables
pub mod Keys
use so_proj.Base.{
  ℕ, zero, suc, ◌+◌, ◌-◌, ◌*◌, ◌%◌, ◌^◌, Bool, true, false, List, [], ◌∷◌, Option, none, some, ◌==◌,
  leb, if◌then◌else◌, get_or, set, take, Bytes, equal, Run, ok, fault, bad_index, ◌>>=◌, ℤ, pos,
  negsuc, int_equal,
}

-- MAX_KEYS_COUNT, MAX_SESSION_COUNT, MAX_NUMBER_SUB, MAX_STRING_SIZE
abbrev pub max_keys_count : ℕ
max_keys_count = 8191

abbrev pub max_session_count : ℕ
max_session_count = 8

abbrev pub max_number_sub : ℕ
max_number_sub = 10

abbrev pub max_string_size : ℕ
max_string_size = 40

-- One round of the loop of `chash`, on an `unsigned long` of 64 bits.
abbrev chash_step : ℕ → ℕ → ℕ
chash_step hash c = (hash * 2 ^ 5 % 2 ^ 64 + hash + c) % 2 ^ 64

pub chash_loop : ℕ → Bytes → ℕ
chash_loop hash [] = hash
chash_loop hash (c ∷ key) = chash_loop (chash_step hash c) key

unfoldable pub chash : Bytes → ℕ
unfolding chash_loop
chash key = chash_loop 5381 key % max_keys_count

-- `values` has room for MAX_SESSION_COUNT descriptors, of which the first `count` are in use.
pub record IntNode : Type 0 where
  pub values : List ℤ
  pub count : ℕ

-- `nodes` gives the node at each index below MAX_KEYS_COUNT.
pub record IntHashTable : Type 0 where
  pub nodes : ℕ → IntNode

-- The argument is what `malloc` finds in the array `values` of each node; all calls succeed.
unfoldable pub create_int_hash_table : (ℕ → List ℤ) → IntHashTable
create_int_hash_table found = record { nodes = λ i. record { values = found i; count = 0 } }

abbrev pub set_node : IntHashTable → ℕ → IntNode → IntHashTable
set_node ht i n = record { nodes = λ j. if i == j then n else ht.nodes j }

-- The body of `add_key` under the node's lock; the number is the one returned.
unfoldable pub add_value : IntNode → ℤ → IntNode × ℕ
add_value node value =
    if leb max_session_count node.count
    then (node, 1)
    else (record { values = set node.values node.count value; count = node.count + 1 }, 0)

unfoldable pub add_key : IntHashTable → Bytes → ℤ → IntHashTable × ℕ
add_key ht key value =
    let index = chash key in
    let (node, returned) = add_value (ht.nodes index) value in (set_node ht index node, returned)

-- The search loop of `remove_key`, with `left` rounds to go.
pub find_value : List ℤ → ℕ → ℤ → Option ℕ
find_value values zero value = none
find_value [] (suc left) value = none
find_value (v ∷ values) (suc left) value =
    if int_equal v value
    then some 0
    else elim (find_value values left value) [ none ↦ none | some i ↦ some (suc i) ]

pub remove_value : IntNode → ℤ → IntNode × ℕ
remove_value node value = elim (find_value node.values node.count value) [
  | none ↦ (node, 1)
  | some i ↦
      let last = node.count - 1 in
      (record { values = set node.values i (get_or node.values last (pos 0)); count = last }, 0)
]

pub remove_key : IntHashTable → Bytes → ℤ → IntHashTable × ℕ
remove_key ht key value =
    let index = chash key in
    let (node, returned) = remove_value (ht.nodes index) value in (set_node ht index node, returned)

-- The descriptors that are in use.
abbrev pub live : IntNode → List ℤ
live node = take node.count node.values

unfoldable pub get_fds : IntHashTable → Bytes → List ℤ
get_fds ht key = live (ht.nodes (chash key))

-- The ten slots of a client's list of keys; a slot of zeros is the empty string. `none` is the
-- result -1.
unfoldable pub subscribe_key_index_list : Bytes → List Bytes → Option ℕ
subscribe_key_index_list key [] = none
subscribe_key_index_list key (k ∷ keys_list) =
    if equal k key
    then some 0
    else elim (subscribe_key_index_list key keys_list) [ none ↦ none | some i ↦ some (suc i) ]

-- What `strncpy(slot, key, MAX_STRING_SIZE); slot[MAX_STRING_SIZE] = '\0'` leaves in a slot.
abbrev pub slot_text : Bytes → Bytes
slot_text key = take max_string_size key

-- `keys_list[num_keys]`, an array of ten slots
abbrev write_slot : List Bytes → ℤ → Bytes → Run (List Bytes)
write_slot keys_list (negsuc _) text = fault bad_index
write_slot keys_list (pos n) text =
    if leb max_number_sub n then fault bad_index else ok (set keys_list n text)

unfoldable pub add_key_to_subscribed_list : Bytes → List Bytes → ℤ → Run (List Bytes × ℕ)
add_key_to_subscribed_list key keys_list num_keys = elim (subscribe_key_index_list key keys_list) [
  | some _ ↦ ok (keys_list, 1)
  | none ↦ do keys_list' ← write_slot keys_list num_keys (slot_text key); ok (keys_list', 0)
]

-- The loop `for (j = index; j < num_keys - 1; j++)` with `left` rounds to go.
pub shift_keys : ℕ → ℕ → List Bytes → List Bytes
shift_keys zero j keys_list = keys_list
shift_keys (suc left) j keys_list =
    shift_keys left (j + 1) (set keys_list j (slot_text (get_or keys_list (j + 1) [])))

abbrev shift_rounds : ℤ → ℕ → ℕ
shift_rounds (pos n) index = n - 1 - index
shift_rounds (negsuc _) index = 0

pub remove_key_from_subscribed_list : Bytes → List Bytes → ℤ → List Bytes × ℕ
unfolding shift_keys
remove_key_from_subscribed_list key keys_list num_keys =
    elim (subscribe_key_index_list key keys_list) [
      | none ↦ (keys_list, 1)
      | some index ↦ (shift_keys (shift_rounds num_keys index) index keys_list, 0)
    ]
