-- ===== src/Operations/Items.antt =====
-- How much of a pair the 40 bytes of `aux` hold in `kvs_read` (src/server/operations.c).
use so_proj.Base.{
  take-append_of_le, ◌+◌, ◌≤◌, ◌≡◌, ap, ◌∷◌, ◌++◌, some, none, arith, length, length-append,
  take-eq_of_le, Bytes, codes,
}
use so_proj.Operations.{read_item}

-- A pair whose two strings have 36 bytes or fewer together is printed whole. A key of 38 bytes or
-- more is printed in the same way whatever its value is, and also if it has none.
read_item-length :
    (key value other : Bytes)
    → (length key + length value ≤ 36
        → read_item key (some value) ≡ codes "(" ++ (key ++ (codes "," ++ (value ++ codes ")"))))
      × (38 ≤ length key
          → (read_item key (some value) ≡ read_item key (some other))
            × (read_item key (some value) ≡ read_item key none))
read_item-length key value other = (
  λ short. take-eq_of_le 39 _ (
      omega (
        arith,
        length-append key (codes "," ++ (value ++ codes ")")),
        length-append value (codes ")"),
      )),
  λ long. (
    ap (◌∷◌ b'(') (take-append_of_le 38 key _ _ long),
    ap (◌∷◌ b'(') (take-append_of_le 38 key _ _ long),
  ),
)
