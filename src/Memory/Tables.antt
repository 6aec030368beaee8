-- ===== src/Memory/Tables.antt =====
-- The chains of the whole table of src/server/kvs.c, no two of which share a block.
use mathlib.Core.List.{flatten}
use so_proj.Base.{
  ℕ, zero, suc, ◌<◌, ◌≡◌, refl, ◌∙◌, Bool, true, false, ◌||◌, List, [], ◌∷◌, ◌++◌, arith, map,
  length, get_or, set, All,
}
use so_proj.Memory.Accesses.{Returned}
use so_proj.Memory.Cells.{
  Cell, has, first, used, IsChain, Moves, IsChain-frame, IsChain-used, Moves-trans,
}
use so_proj.Memory.Frees.{free_loop-Moves}
use so_proj.Memory.{Ptr, Heap, at, free_table}

has-append : (a : Ptr) (cs rest : List Cell) → has a (cs ++ rest) ≡ (has a cs || has a rest)
has-append a [] rest = refl
has-append a (c ∷ cs) rest = ground (arith, has-append a cs rest)

abbrev pub AreChains : Heap → List (List Cell) → Type 0
AreChains h [] = Unit
AreChains h (cs ∷ css) =
    IsChain h cs × ((a : Ptr) → has a cs ≡ true → has a (flatten css) ≡ false) × AreChains h css

pub AreChains-used :
    (h : Heap) (css : List (List Cell)) (a : Ptr)
    → AreChains h css
    → has a (flatten css) ≡ true
    → used h a ≡ true
unfolding flatten
AreChains-used h [] a chains on = absurd cc
AreChains-used h (cs ∷ css) a (chain, apart, chains) on =
    ground (
      arith,
      has-append a cs (flatten css),
      IsChain-used h cs a chain,
      AreChains-used h css a chains,
    )

pub AreChains-frame :
    (h g : Heap) (css : List (List Cell))
    → AreChains h css
    → ((a : Ptr) → has a (flatten css) ≡ true → at g a ≡ at h a)
    → AreChains g css
unfolding flatten
AreChains-frame h g [] chains same = tt
AreChains-frame h g (cs ∷ css) (chain, apart, chains) same = (
  IsChain-frame h g cs chain λ a i. same a (rw (has-append a cs (flatten css), i) refl),
  apart,
  AreChains-frame h g css chains λ a i. same a (ground (arith, has-append a cs (flatten css))),
)

-- A change of a part of the blocks, beside others that are in use.
Moves-beside :
    (h g : Heap) (xs ys ys' zs zs' : List Cell)
    → ((a : Ptr) → has a zs ≡ (has a xs || has a ys))
    → ((a : Ptr) → has a zs' ≡ (has a xs || has a ys'))
    → ((a : Ptr) → has a xs ≡ true → used h a ≡ true)
    → ((a : Ptr) → has a xs ≡ true → has a ys ≡ false)
    → Moves h ys g ys'
    → Moves h zs g zs'
Moves-beside h g xs ys ys' zs zs' all all' there apart m = record {
  same = λ a off on. m.same a (ground (arith, all a)) on;
  fresh = λ a on off. m.fresh a (ground (arith, all a, all' a)) (ground (arith, all a));
  balance = λ a. ground (arith, m.balance a, all a, all' a, there a, apart a);
}

has-get_or :
    (css : List (List Cell)) (i : ℕ) (a : Ptr)
    → has a (get_or css i []) ≡ true
    → has a (flatten css) ≡ true
unfolding flatten
has-get_or [] i a on = on
has-get_or (cs ∷ css) zero a on = rw (has-append a cs (flatten css), on) refl
has-get_or (cs ∷ css) (suc i) a on =
    ground (arith, has-append a cs (flatten css), has-get_or css i a)

or_comm : (a b : Bool) → (a || b) ≡ (b || a)
or_comm a b = ground arith

-- One chain of a table is changed.
pub set-AreChains :
    (h g : Heap) (css : List (List Cell)) (i : ℕ) (cs' : List Cell)
    → AreChains h css
    → i < length css
    → Moves h (get_or css i []) g cs'
    → IsChain g cs'
    → AreChains g (set css i cs') × Moves h (flatten css) g (flatten (set css i cs'))
unfolding flatten
set-AreChains h g [] i cs' chains lt m chain' = absurd (omega arith)
set-AreChains h g (cs ∷ css) zero cs' (chain, apart, chains) lt m chain' =
    let rest = flatten css in
    (
      (
        chain',
        λ a i. ground (arith, m.fresh a i, AreChains-used h css a chains, apart a),
        AreChains-frame h g css chains
            λ a i. m.same a (ground (arith, apart a)) (AreChains-used h css a chains i),
      ),
      Moves-beside h g rest cs cs' (cs ++ rest) (cs' ++ rest)
          (λ a. has-append a cs rest ∙ or_comm (has a cs) (has a rest))
          (λ a. has-append a cs' rest ∙ or_comm (has a cs') (has a rest))
          (λ a. AreChains-used h css a chains) (λ a i. ground (arith, apart a)) m,
    )
set-AreChains h g (cs ∷ css) (suc i) cs' (chain, apart, chains) lt m chain' =
    let (chains', n) = set-AreChains h g css i cs' chains (omega arith) m chain' in
    (
      (
        IsChain-frame h g cs chain λ a i. n.same a (apart a i) (IsChain-used h cs a chain i),
        λ a i. ground (arith, n.fresh a, apart a i, IsChain-used h cs a chain i),
        chains',
      ),
      Moves-beside h g cs (flatten css) (flatten (set css i cs')) (cs ++ flatten css)
          (cs ++ flatten (set css i cs')) (λ a. has-append a cs (flatten css))
          (λ a. has-append a cs (flatten (set css i cs'))) (λ a. IsChain-used h cs a chain) apart n,
    )

-- `free_table` frees every block of the table, once, and no other.
pub free_table-Moves :
    (fuel : ℕ) (h : Heap) (css : List (List Cell))
    → AreChains h css
    → All (λ (cs : List Cell). length cs < fuel) css
    → Returned (free_table fuel (map first css) h) λ g. Moves h (flatten css) g []
unfolding free_table flatten
free_table-Moves fuel h [] chains few = (
  h,
  refl,
  record { same = λ a off on. refl; fresh = λ a on off. absurd cc; balance = λ a. ground arith },
)
free_table-Moves fuel h (cs ∷ css) (chain, apart, chains) (lt, few) =
    let (g, ran, m) = free_loop-Moves fuel h cs chain lt in
    let chains' : AreChains g css =
      AreChains-frame h g css chains
        λ a i. m.same a (ground (arith, apart a)) (AreChains-used h css a chains i) in
    let (k, ran', n) = free_table-Moves fuel g css chains' few in
    let rest = flatten css in
    let m' : Moves h (cs ++ rest) g rest =
      Moves-beside h g rest cs [] (cs ++ rest) rest
        (λ a. has-append a cs rest ∙ or_comm (has a cs) (has a rest)) (λ a. ground arith)
        (λ a. AreChains-used h css a chains) (λ a i. ground (arith, apart a)) m in
    (k, rw (ran, ran') refl, Moves-trans h g k (cs ++ rest) rest [] m' n)
