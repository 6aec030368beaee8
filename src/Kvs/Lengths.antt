-- ===== src/Kvs/Lengths.antt =====
-- How long the chains of src/server/kvs.c become.
use so_proj.Base.{
  ℕ, zero, suc, ◌+◌, ◌≤◌, ◌<◌, ◌≡◌, refl, sym, ap, ◌∙◌, subst, Bool, true, false, List, [], ◌∷◌,
  Option, some, none, arith, map, length, replicate, set, get_or, All, Bytes, equal, Bool-cases,
  inl, inr, Run,
}
use so_proj.Base
use so_proj.Kvs
use so_proj.Kvs.Mapping.{HasSlot}
use so_proj.Kvs.{HashTable, Chain, table_size}

-- Chains of fewer nodes than `n`.
abbrev pub AreShort : ℕ → List Chain → Type 0
AreShort n chains = All (λ (c : Chain). length c < n) chains

pub AreShort-le : (n k : ℕ) (chains : List Chain) → n ≤ k → AreShort n chains → AreShort k chains
AreShort-le n k [] le short = tt
AreShort-le n k (c ∷ chains) le (lt, short) = (omega arith, AreShort-le n k chains le short)

AreShort-set :
    (n : ℕ) (chains : List Chain) (i : ℕ) (c : Chain)
    → AreShort n chains
    → length c < n
    → AreShort n (set chains i c)
AreShort-set n [] i c short lt = tt
AreShort-set n (_ ∷ chains) zero c (_, short) lt = (lt, short)
AreShort-set n (_ ∷ chains) (suc i) c (lt', short) lt = (lt', AreShort-set n chains i c short lt)

AreShort-get_or :
    (n : ℕ) (chains : List Chain) (i : ℕ)
    → AreShort (suc n) chains
    → length (get_or chains i []) < suc n
AreShort-get_or n [] i short = omega arith
AreShort-get_or n (c ∷ chains) zero (lt, _) = lt
AreShort-get_or n (c ∷ chains) (suc i) (_, short) = AreShort-get_or n chains i short

abbrev OptionLe : ℕ → Option Chain → Type 0
OptionLe n none = Unit
OptionLe n (some c) = length c ≤ n

keep-OptionLe :
    (n : ℕ) (k : Kvs.KeyNode) (o : Option Chain)
    → OptionLe n o
    → OptionLe (suc n) (Kvs.keep_node k o)
keep-OptionLe n k none le = tt
keep-OptionLe n k (some c) le = omega arith

length-overwrite-le :
    (key value : Bytes) (c : Chain) → OptionLe (length c) (Kvs.overwrite key value c)
unfolding Kvs.overwrite
length-overwrite-le key value [] = tt
length-overwrite-le key value (n ∷ next) = elim (Bool-cases (equal n.key key)) [
  | inl hit ↦ rw hit (omega arith)
  | inr other ↦ rw other (keep-OptionLe (length next) n _ (length-overwrite-le key value next))
]

length-unlink-le : (key : Bytes) (c : Chain) → OptionLe (length c) (Kvs.unlink key c)
unfolding Kvs.unlink
length-unlink-le key [] = tt
length-unlink-le key (n ∷ next) = elim (Bool-cases (equal n.key key)) [
  | inl hit ↦ rw hit (omega arith)
  | inr other ↦ rw other (keep-OptionLe (length next) n _ (length-unlink-le key next))
]

length-write_chain-le :
    (key value : Bytes) (c : Chain) → length (Kvs.write_chain key value c) ≤ suc (length c)
unfolding Kvs.write_chain
length-write_chain-le key value c =
    from (Kvs.overwrite key value c) (length-overwrite-le key value c)
  where
    from :
        (o : Option Chain)
        → OptionLe (length c) o
        → length (elim o [ some c' ↦ c' | none ↦ record { key = key; value = value } ∷ c ])
          ≤ suc (length c)
    from none le = omega arith
    from (some c') le = omega arith

-- A call makes chains longer by one node at most.
pub written-AreShort :
    (n : ℕ) (ht ht' : HashTable) (key value : Bytes) (returned : ℕ)
    → HasSlot key
    → AreShort (suc n) ht.table
    → Kvs.write_pair ht key value ≡ Base.ok (ht', returned)
    → AreShort (suc (suc n)) ht'.table
unfolding Kvs.write_pair
written-AreShort n ht ht' key value returned (i, at_slot) short ran =
    let c = Kvs.write_chain key value (Kvs.bucket ht i) in
    let le = length-write_chain-le key value (Kvs.bucket ht i) in
    let lt = AreShort-get_or n ht.table i short in
    let same : ◌≡◌ {A = Run (HashTable × ℕ)} (Base.ok (Kvs.set_bucket ht i c, 0))
        (Base.ok (ht', returned)) =
      sym (rw at_slot refl) ∙ ran in
    let table : Kvs.set_bucket ht i c ≡ ht' = cc in
    subst (λ (x : HashTable). AreShort (suc (suc n)) x.table) table
      (AreShort-set (suc (suc n)) ht.table i c
        (AreShort-le (suc n) (suc (suc n)) ht.table (omega arith) short) (omega arith))

pub deleted-AreShort :
    (n : ℕ) (ht ht' : HashTable) (key : Bytes) (returned : ℕ)
    → HasSlot key
    → AreShort (suc n) ht.table
    → Kvs.delete_pair ht key ≡ Base.ok (ht', returned)
    → AreShort (suc (suc n)) ht'.table
unfolding Kvs.delete_pair
deleted-AreShort n ht ht' key returned (i, at_slot) short ran =
    from (Kvs.unlink key (Kvs.bucket ht i)) (length-unlink-le key (Kvs.bucket ht i))
      (sym (rw at_slot refl) ∙ ran)
  where
    longer : AreShort (suc (suc n)) ht.table
    longer = AreShort-le (suc n) (suc (suc n)) ht.table (omega arith) short

    from :
        (o : Option Chain)
        → OptionLe (length (Kvs.bucket ht i)) o
        → Base.ok (Kvs.unlinked ht i o) ≡ Base.ok (ht', returned)
        → AreShort (suc (suc n)) ht'.table
    from none le same =
        let table : ht ≡ ht' = cc in
        subst (λ (x : HashTable). AreShort (suc (suc n)) x.table) table longer
    from (some c) le same =
        let lt = AreShort-get_or n ht.table i short in
        let table : Kvs.set_bucket ht i c ≡ ht' = cc in
        subst (λ (x : HashTable). AreShort (suc (suc n)) x.table) table
          (AreShort-set (suc (suc n)) ht.table i c longer (omega arith))
