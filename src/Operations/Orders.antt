-- ===== src/Operations/Orders.antt =====
-- The order in which `kvs_show` of src/server/operations.c prints, which the store does not fix.
use mathlib.Core.List.{flatten, Perm}
use mathlib.Core.List.Perm
use so_proj.Base.{
  ◌≤◌, ◌≡◌, refl, sym, ◌∙◌, subst, [], ◌∷◌, some, arith, map, Bool-cases, inl, inr, Bytes, equal,
  equal_iff, equal_refl,
}
use so_proj.Kvs.Chains.{count, Unlinked, unlink-Unlinked, find-eq-none}
use so_proj.Kvs.Mapping.{view, IsTable}
use so_proj.Kvs.{KeyNode, Chain, HashTable, find, unlink}
use so_proj.Operations.Files.{show_node}
use so_proj.Operations.Shows.{kvs_show-nodes, entries}
use so_proj.Operations.{Store, kvs_show}

-- The node that `find` reads stands in the chain, which has the others but for it.
unlink-Perm :
    (key v : Bytes) (c : Chain)
    → find key c ≡ some v
    → (c' : Chain) × (unlink key c ≡ some c') × Perm c (record { key = key; value = v } ∷ c')
unfolding find unlink
unlink-Perm key v [] on = absurd cc
unlink-Perm key v (n ∷ c) on = elim (Bool-cases (equal n.key key)) [
  | inl same ↦
      let value : n.value ≡ v = ground (arith, on, same) in
      let this : n ≡ record { key = key; value = v } =
        λ i. record { key = (equal_iff n.key key).0 same i; value = value i } in
      (c, rw same refl, subst (λ (m : KeyNode). Perm (n ∷ c) (m ∷ c)) this (Perm.refl (n ∷ c)))
  | inr differ ↦
      let later : find key c ≡ some v = ground (arith, on, differ) in
      let (c', e, p) = unlink-Perm key v c later in
      (
        n ∷ c',
        rw (differ, e) refl,
        Perm.trans (Perm.cons n p) (Perm.swap (record { key = key; value = v }) n c'),
      )
]

-- In both chains every key stands at most once, and with one value.
pub record Agree (a b : Chain) : Type 0 where
  pub found : (q : Bytes) → find q a ≡ find q b
  pub once : (q : Bytes) → (count q a ≤ 1) × (count q b ≤ 1)

Agree-rest :
    (n : KeyNode) (a b b' : Chain) → Agree (n ∷ a) b → unlink n.key b ≡ some b' → Agree a b'
unfolding find count
Agree-rest n a b b' agree e = record {
  found = λ q.
      let l = left q in
      let once = agree.once q in
      let found = agree.found q in
      elim (Bool-cases (equal n.key q)) [
        | inl same ↦
            let gone : count q a ≡ 0 = ground (arith, same, once) in
            find-eq-none q a gone ∙ sym (l.0 ∙ rw same refl)
        | inr differ ↦ sym (rw differ refl) ∙ found ∙ sym (l.0 ∙ rw differ refl)
      ];
  once = λ q. let l = left q in let once = agree.once q in (ground arith, ground arith);
}
  where
    left : (q : Bytes) → Unlinked n.key q b (some b')
    left q = subst (Unlinked n.key q b) e (unlink-Unlinked n.key q b (agree.once q).1)

Agree-Perm : (a b : Chain) → Agree a b → Perm a b
unfolding find
Agree-Perm [] [] agree = Perm.refl []
Agree-Perm [] (n ∷ b) agree =
    let here = agree.found n.key in absurd (ground (arith, here, equal_refl n.key))
Agree-Perm (n ∷ a) b agree =
    let here : find n.key b ≡ some n.value = sym (agree.found n.key) ∙ rw (equal_refl n.key) refl in
    let (b', e, p) = unlink-Perm n.key n.value b here in
    Perm.trans (Perm.cons n (Agree-Perm a b' (Agree-rest n a b b' agree e))) (Perm.symm p)

-- Two stores with well-formed tables that hold the same pairs, in whatever order their calls have left
-- them, show the same nodes, one line for each, in two orders. Among these nodes every key stands at
-- most once, and with the value that the stores have for it.
pub kvs_show-Perm :
    {W : Type 0} (s s' : Store W) (ht ht' : HashTable)
    → s.kvs_table ≡ some ht
    → s'.kvs_table ≡ some ht'
    → IsTable ht
    → IsTable ht'
    → ((q : Bytes) → view ht q ≡ view ht' q)
    → (nodes : Chain) × (nodes' : Chain) × (kvs_show s ≡ flatten (map show_node nodes))
      × (kvs_show s' ≡ flatten (map show_node nodes'))
      × Perm nodes nodes'
      × ((q : Bytes) → (find q nodes ≡ view ht q) × (count q nodes ≤ 1))
kvs_show-Perm s s' ht ht' e e' t t' same =
    let agree : Agree (flatten ht.table) (flatten ht'.table) = record {
      found = λ q. (entries ht q t).0 ∙ same q ∙ sym (entries ht' q t').0;
      once = λ q. ((entries ht q t).1, (entries ht' q t').1);
    } in
    (
      flatten ht.table,
      flatten ht'.table,
      kvs_show-nodes s ht e,
      kvs_show-nodes s' ht' e',
      Agree-Perm (flatten ht.table) (flatten ht'.table) agree,
      λ q. entries ht q t,
    )
