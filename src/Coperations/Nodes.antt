-- ===== src/Coperations/Nodes.antt =====
-- One node of the table of src/server/coperations.c as a bag of descriptors.
use native.Mathlib.Decide.{ℕ_discrete}
use so_proj.Base.{
  ℕ, zero, suc, ◌+◌, ◌-◌, ◌≤◌, ◌<◌, ◌≡◌, refl, sym, ap, subst, ◌∙◌, Bool, true, false, List, [],
  ◌∷◌, ◌++◌, Option, none, some, arith, leb, length, length-set, get_or, set, take, ℤ, pos,
  int_equal, int_equal_iff,
}
use so_proj.Coperations.{max_session_count, IntNode, add_value, find_value, remove_value, live}

-- How often a descriptor stands in a list.
abbrev pub to_nat : Bool → ℕ
to_nat true = 1
to_nat false = 0

unfoldable pub count : ℤ → List ℤ → ℕ
count w [] = 0
count w (v ∷ vs) = to_nat (int_equal v w) + count w vs

pub record IsNode (node : IntNode) : Type 0 where
  pub room : length node.values ≡ max_session_count
  pub within : node.count ≤ max_session_count

take-set_end :
    (vs : List ℤ) (n : ℕ) (v : ℤ) → n < length vs → take (suc n) (set vs n v) ≡ take n vs ++ v ∷ []
take-set_end [] n v h = absurd (omega arith)
take-set_end (x ∷ vs) zero v h = refl
take-set_end (x ∷ vs) (suc n) v h = ap (◌∷◌ x) (take-set_end vs n v (omega arith))

take-set_above : (vs : List ℤ) (n : ℕ) (v : ℤ) → take n (set vs n v) ≡ take n vs
take-set_above [] zero v = refl
take-set_above [] (suc n) v = refl
take-set_above (x ∷ vs) zero v = refl
take-set_above (x ∷ vs) (suc n) v = ap (◌∷◌ x) (take-set_above vs n v)

count-take-suc :
    (w : ℤ) (vs : List ℤ) (n : ℕ)
    → n < length vs
    → count w (take (suc n) vs) ≡ count w (take n vs) + to_nat (int_equal (get_or vs n (pos 0)) w)
unfolding count
count-take-suc w [] n h = absurd (omega arith)
count-take-suc w (x ∷ vs) zero h = omega arith
count-take-suc w (x ∷ vs) (suc n) h = omega (arith, count-take-suc w vs n)

count-take-set :
    (w : ℤ) (vs : List ℤ) (i n : ℕ) (v : ℤ)
    → i < n
    → n ≤ length vs
    → count w (take n (set vs i v)) + to_nat (int_equal (get_or vs i (pos 0)) w)
      ≡ count w (take n vs) + to_nat (int_equal v w)
unfolding count
count-take-set w [] i n v h k = absurd (omega arith)
count-take-set w (x ∷ vs) i zero v h k = absurd (omega arith)
count-take-set w (x ∷ vs) zero (suc n) v h k = omega arith
count-take-set w (x ∷ vs) (suc i) (suc n) v h k = omega (arith, count-take-set w vs i n v)

-- Where the search ends.
abbrev Found : List ℤ → ℕ → ℤ → Option ℕ → Type 0
Found vs n value none = count value (take n vs) ≡ 0
Found vs n value (some i) = (i < n) × (get_or vs i (pos 0) ≡ value)

find_value-Found :
    (vs : List ℤ) (n : ℕ) (value : ℤ) → n ≤ length vs → Found vs n value (find_value vs n value)
unfolding find_value count
find_value-Found vs zero value h = refl
find_value-Found [] (suc n) value h = absurd (omega arith)
find_value-Found (v ∷ vs) (suc n) value h =
    ground (arith, find_value-Found vs n value, int_equal_iff v value)

-- `add_key` on a node with room adds the descriptor behind the others and returns 0; a full node
-- it leaves as it is, and returns 1.
pub add_value-live :
    (node : IntNode) (value : ℤ)
    → IsNode node
    → (node.count < max_session_count
        → IsNode (add_value node value).0
          × (live (add_value node value).0 ≡ live node ++ value ∷ [])
          × ((add_value node value).1 ≡ 0))
      × (node.count ≡ max_session_count → add_value node value ≡ (node, 1))
unfolding add_value
add_value-live node value n = (
  λ free.
      let open_slot : leb max_session_count node.count ≡ false = ground arith in
      let next : node.count + 1 ≡ suc node.count = omega arith in
      rw (open_slot, next)
        (
          record { room = length-set node.values node.count value ∙ n.room; within = free },
          take-set_end node.values node.count value (omega (arith, n.room)),
          refl,
        ),
  λ full. rw full,
)

swap_last :
    (vs : List ℤ) (m i : ℕ) (w : ℤ)
    → i ≤ m
    → m < length vs
    → count w (take m (set vs i (get_or vs m (pos 0)))) + to_nat (int_equal (get_or vs i (pos 0)) w)
      ≡ count w (take (suc m) vs)
swap_last vs m i w le lt = elim (ℕ_discrete i m) [
  | yes e ↦ rw (e, take-set_above vs m (get_or vs m (pos 0))) (sym (count-take-suc w vs m lt))
  | no ne ↦ omega (
    arith,
    count-take-set w vs i m (get_or vs m (pos 0)) (omega arith) (omega arith),
    count-take-suc w vs m lt,
  )
]

-- `remove_key` takes one occurrence of the descriptor out of the node and returns 0, if there is
-- one; every other descriptor stands in it as often as before. Else it changes nothing and
-- returns 1.
pub remove_value-count :
    (node : IntNode) (value : ℤ)
    → IsNode node
    → (count value (live node) ≡ 0 → remove_value node value ≡ (node, 1))
      × (0 < count value (live node)
          → IsNode (remove_value node value).0
            × ((remove_value node value).1 ≡ 0)
            × ((w : ℤ)
                → count w (live (remove_value node value).0) + to_nat (int_equal value w)
                  ≡ count w (live node)))
unfolding remove_value
remove_value-count node value n =
    by (find_value node.values node.count value) refl
      (find_value-Found node.values node.count value (omega (arith, n.room, n.within)))
  where
    removed :
        (i : ℕ)
        → i < node.count
        → get_or node.values i (pos 0) ≡ value
        → (w : ℤ)
        → count w (
              take
                (node.count - 1)
                (set node.values i (get_or node.values (node.count - 1) (pos 0))))
            + to_nat (int_equal value w)
          ≡ count w (live node)
    removed i lt at w =
        let m = node.count - 1 in
        let last : suc m ≡ node.count = omega arith in
        subst
          (λ (k : ℕ).
            count w (take m (set node.values i (get_or node.values m (pos 0))))
              + to_nat (int_equal value w)
            ≡ count w (take k node.values))
          last
          (rw at at (swap_last node.values m i w (omega arith) (omega (arith, n.room, n.within))))

    by :
        (o : Option ℕ)
        → find_value node.values node.count value ≡ o
        → Found node.values node.count value o
        → (count value (live node) ≡ 0 → remove_value node value ≡ (node, 1))
          × (0 < count value (live node)
              → IsNode (remove_value node value).0
                × ((remove_value node value).1 ≡ 0)
                × ((w : ℤ)
                    → count w (live (remove_value node value).0) + to_nat (int_equal value w)
                      ≡ count w (live node)))
    by none e absent = rw (remove_value, e) (λ _. refl, λ here. absurd (omega (arith, absent)))
    by (some i) e (lt, at) =
        rw (remove_value, e)
          (
            λ absent. absurd (
                omega
                  (arith, removed i lt at value, ap to_nat ((int_equal_iff value value).1 refl))),
            λ _. (
              record {
                room = length-set node.values i _ ∙ n.room;
                within = omega (arith, n.within);
              },
              refl,
              removed i lt at,
            ),
          )
