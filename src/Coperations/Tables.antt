-- ===== src/Coperations/Tables.antt =====
-- The table of src/server/coperations.c, by key.
use so_proj.Base.{
  ℕ, ◌+◌, ◌≤◌, ◌<◌, ◌≡◌, ◌⊎◌, length-take, refl, ap, ◌∙◌, inl, inr, true, List, [], ◌∷◌, ◌++◌,
  arith, ◌==◌, ==_iff, if◌then◌else◌, Bool-cases, length, Bytes, ℤ, int_equal,
}
use so_proj.Coperations.Nodes.{to_nat, count, IsNode, add_value-live, remove_value-count}
use so_proj.Coperations.{
  max_keys_count, max_session_count, chash, IntNode, IntHashTable, create_int_hash_table, set_node,
  add_value, add_key, remove_key, live, get_fds,
}

pub IsSubscriptions : IntHashTable → Type 0
IsSubscriptions ht = (i : ℕ) → IsNode (ht.nodes i)

-- The hash of a key is an index of the table.
chash-lt : (key : Bytes) → chash key < max_keys_count
unfolding chash
chash-lt key = omega arith

-- The nodes below the limit are all that a key can name.
pub create_int_hash_table-empty :
    (found : ℕ → List ℤ)
    → ((i : ℕ) → length (found i) ≡ max_session_count)
    → IsSubscriptions (create_int_hash_table found)
      × ((key : Bytes) → get_fds (create_int_hash_table found) key ≡ [])
unfolding create_int_hash_table IsSubscriptions get_fds
create_int_hash_table-empty found wide =
    (λ i. record { room = wide i; within = omega arith }, λ key. refl)

zero_or_pos : (n : ℕ) → (n ≡ 0) ⊎ (0 < n)
zero_or_pos n = ground arith

le_or_full : (n : ℕ) → n ≤ max_session_count → (n < max_session_count) ⊎ (n ≡ max_session_count)
le_or_full n h = ground arith

set_node-IsSubscriptions :
    (ht : IntHashTable) (i : ℕ) (n : IntNode)
    → IsSubscriptions ht
    → IsNode n
    → IsSubscriptions (set_node ht i n)
unfolding IsSubscriptions
set_node-IsSubscriptions ht i n t new j = elim (Bool-cases (i == j)) [
  | inl e ↦ rw e new
  | inr ne ↦ rw ne (t j)
]

length-live : (node : IntNode) → IsNode node → length (live node) ≡ node.count
length-live node n = omega (arith, length-take node.count node.values, n.room, n.within)

-- What a key sees after the node of `key` has been replaced.
get_fds-set_node :
    (ht : IntHashTable) (key q : Bytes) (n : IntNode)
    → get_fds (set_node ht (chash key) n) q
      ≡ (if chash key == chash q then live n else get_fds ht q)
unfolding get_fds
get_fds-set_node ht key q n = elim (Bool-cases (chash key == chash q)) [
  | inl e ↦ rw e
  | inr ne ↦ rw ne
]

same_node :
    (ht : IntHashTable) (key q : Bytes)
    → (chash key == chash q) ≡ true
    → get_fds ht key ≡ get_fds ht q
unfolding get_fds
same_node ht key q e = ap (λ (i : ℕ). live (ht.nodes i)) ((==_iff (chash key) (chash q)).0 e)

-- `add_key` keeps the table well formed and acts on the descriptors of just those keys that have
-- the hash of `key`: while there are fewer than 8, it puts the descriptor behind them and returns
-- 0; else it returns 1, not the -1 that its documentation has, and no key's descriptors change.
pub add_key-get_fds :
    (ht : IntHashTable) (key : Bytes) (value : ℤ)
    → IsSubscriptions ht
    → IsSubscriptions (add_key ht key value).0
      × (length (get_fds ht key) < max_session_count
          → ((add_key ht key value).1 ≡ 0)
            × ((q : Bytes)
                → get_fds (add_key ht key value).0 q
                  ≡ (if chash key == chash q then get_fds ht q ++ value ∷ [] else get_fds ht q)))
      × (max_session_count ≤ length (get_fds ht key)
          → ((add_key ht key value).1 ≡ 1)
            × ((q : Bytes) → get_fds (add_key ht key value).0 q ≡ get_fds ht q))
unfolding add_key IsSubscriptions get_fds
add_key-get_fds ht key value t = elim (le_or_full node.count (t (chash key)).within) [
  | inl free ↦
      let (new, seen, zero_back) = (add_value-live node value (t (chash key))).0 free in
      (
        set_node-IsSubscriptions ht (chash key) _ t new,
        λ _. (
          zero_back,
          λ q. elim (Bool-cases (chash key == chash q)) [
            | inl e ↦
                rw (get_fds-set_node ht key q (add_value node value).0, e, seen)
                  (ap (λ (vs : List ℤ). vs ++ value ∷ []) (same_node ht key q e))
            | inr ne ↦ rw (get_fds-set_node ht key q (add_value node value).0, ne)
          ],
        ),
        λ full. absurd (omega (arith, count_is)),
      )
  | inr full ↦
      let same = (add_value-live node value (t (chash key))).1 full in
      (
        rw same (set_node-IsSubscriptions ht (chash key) node t (t (chash key))),
        λ free. absurd (omega (arith, count_is)),
        λ _. (
          ap (λ (r : IntNode × ℕ). r.1) same,
          λ q. rw same (
              get_fds-set_node ht key q node ∙ elim (Bool-cases (chash key == chash q)) [
                | inl e ↦ rw e (same_node ht key q e)
                | inr ne ↦ rw ne
              ]),
        ),
      )
]
  where
    node : IntNode
    node = ht.nodes (chash key)

    count_is : length (get_fds ht key) ≡ node.count
    count_is = length-live node (t (chash key))

-- What a call of `remove_key` leaves in the node of a key.
abbrev Removed : IntHashTable → Bytes → ℤ → Bytes → Type 0
Removed ht key value q =
    (w : ℤ)
    → count w (get_fds (remove_key ht key value).0 q)
        + (if chash key == chash q then to_nat (int_equal value w) else 0)
      ≡ count w (get_fds ht q)

-- `remove_key` keeps the table well formed and acts on the descriptors of just those keys that
-- have the hash of `key`: it takes one occurrence of the descriptor out of them and returns 0, if
-- there is one; else it returns 1, not the -1 that its documentation has, and no key's descriptors
-- change.
pub remove_key-get_fds :
    (ht : IntHashTable) (key : Bytes) (value : ℤ)
    → IsSubscriptions ht
    → IsSubscriptions (remove_key ht key value).0
      × (0 < count value (get_fds ht key)
          → ((remove_key ht key value).1 ≡ 0) × ((q : Bytes) → Removed ht key value q))
      × (count value (get_fds ht key) ≡ 0
          → ((remove_key ht key value).1 ≡ 1)
            × ((q : Bytes) → get_fds (remove_key ht key value).0 q ≡ get_fds ht q))
unfolding remove_key IsSubscriptions get_fds
remove_key-get_fds ht key value t = elim (zero_or_pos (count value (live node))) [
  | inr here ↦
      let (new, zero_back, counts) = (remove_value-count node value (t (chash key))).1 here in
      (
        set_node-IsSubscriptions ht (chash key) _ t new,
        λ _. (
          zero_back,
          λ q w. elim (Bool-cases (chash key == chash q)) [
            | inl e ↦ rw (e) (counts w ∙ ap (count w) (same_node ht key q e))
            | inr ne ↦ rw ne (omega arith)
          ],
        ),
        λ absent. absurd (omega arith),
      )
  | inl absent ↦
      let same = (remove_value-count node value (t (chash key))).0 absent in
      (
        rw same (set_node-IsSubscriptions ht (chash key) node t (t (chash key))),
        λ here. absurd (omega arith),
        λ _. (
          ap (λ (r : IntNode × ℕ). r.1) same,
          λ q. rw same (
              get_fds-set_node ht key q node ∙ elim (Bool-cases (chash key == chash q)) [
                | inl e ↦ rw e (same_node ht key q e)
                | inr ne ↦ rw ne
              ]),
        ),
      )
]
  where
    node : IntNode
    node = ht.nodes (chash key)
