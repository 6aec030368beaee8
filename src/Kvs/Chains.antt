-- ===== src/Kvs/Chains.antt =====
-- What the search loops of src/server/kvs.c do to one chain.
use so_proj.Base.{
  ℕ, ◌+◌, ◌≤◌, ◌≡◌, refl, Bool, true, false, [], ◌∷◌, ◌++◌, Option, none, some, arith,
  if◌then◌else◌, Bytes, equal, equal_iff,
}
use so_proj.Kvs.{Chain, overwrite, find, unlink, write_chain}

abbrev pub to_nat : Bool → ℕ
to_nat true = 1
to_nat false = 0

-- How many nodes hold the key.
unfoldable pub count : Bytes → Chain → ℕ
count q [] = 0
count q (n ∷ next) = to_nat (equal n.key q) + count q next

pub find-eq-none : (q : Bytes) (c : Chain) → count q c ≡ 0 → find q c ≡ none
unfolding find count
find-eq-none q [] h = refl
find-eq-none q (n ∷ next) h = ground (arith, find-eq-none q next)

pub count-eq-zero : (q : Bytes) (c : Chain) → find q c ≡ none → count q c ≡ 0
unfolding find count
count-eq-zero q [] h = refl
count-eq-zero q (n ∷ next) h = ground (arith, count-eq-zero q next)

pub find-append :
    (q : Bytes) (a b : Chain)
    → find q (a ++ b) ≡ elim (find q a) [ some v ↦ some v | none ↦ find q b ]
unfolding find
find-append q [] b = refl
find-append q (n ∷ a) b = ground (arith, find-append q a b)

pub count-append : (q : Bytes) (a b : Chain) → count q (a ++ b) ≡ count q a + count q b
unfolding count
count-append q [] b = ground arith
count-append q (n ∷ a) b = ground (arith, count-append q a b)

-- What `overwrite` and `unlink` do to the nodes of a key `q`.
module _ (k q : Bytes) where
  abbrev pub Overwritten : Bytes → Chain → Option Chain → Type 0
  Overwritten v c none = count k c ≡ 0
  Overwritten v c (some c') =
      (find q c' ≡ (if equal k q then some v else find q c)) × (count q c' ≡ count q c)

  abbrev pub Unlinked : Chain → Option Chain → Type 0
  Unlinked c none = count k c ≡ 0
  Unlinked c (some c') =
      (find q c' ≡ (if equal k q then none else find q c))
      × (count q c' + to_nat (equal k q) ≡ count q c)

  overwrite-Overwritten : (v : Bytes) (c : Chain) → Overwritten v c (overwrite k v c)
  unfolding overwrite find count
  overwrite-Overwritten v [] = refl
  overwrite-Overwritten v (n ∷ next) =
      ground
        (arith, overwrite-Overwritten v next, equal_iff n.key k, equal_iff k q, equal_iff n.key q)

  pub unlink-Unlinked : (c : Chain) → count q c ≤ 1 → Unlinked c (unlink k c)
  unfolding unlink find count
  unlink-Unlinked [] u = refl
  unlink-Unlinked (n ∷ next) u = ground (
    arith,
    unlink-Unlinked next,
    find-eq-none q next,
    equal_iff n.key k,
    equal_iff k q,
    equal_iff n.key q,
  )

pub find-write_chain :
    (k q v : Bytes) (c : Chain)
    → find q (write_chain k v c) ≡ (if equal k q then some v else find q c)
unfolding write_chain find
find-write_chain k q v c = ground (arith, overwrite-Overwritten k q v c)

pub count-write_chain-le :
    (k q v : Bytes) (c : Chain)
    → count q c ≤ 1
    → (count q (write_chain k v c) ≤ 1)
      × (equal k q ≡ false → count q (write_chain k v c) ≡ count q c)
unfolding write_chain count
count-write_chain-le k q v c h =
    ground (arith, overwrite-Overwritten k q v c, overwrite-Overwritten k k v c, equal_iff k q)
