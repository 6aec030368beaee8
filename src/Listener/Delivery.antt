-- ===== src/Listener/Delivery.antt =====
-- From src/server/operations.c to the terminal of a client: a write to the store, the notifications
-- of src/server/client.c, and the thread of src/client/api.c that prints them.
use so_proj.Base.{
  ℕ, zero, suc, ◌+◌, ◌-◌, ◌≡◌, refl, ap, ◌∙◌, inl, inr, Bool, true, false, List, [], ◌∷◌, ◌++◌,
  Option, some, arith, if◌then◌else◌, Bool-cases, length, Bytes, Returns, ℤ, int_equal,
  int_equal_iff,
}
use so_proj.Io.{Answer}
use so_proj.Kvs.{HashTable}
use so_proj.Kvs.Mapping.{view, IsTable}
use so_proj.Coperations.{get_fds}
use so_proj.Coperations.Nodes.{count}
use so_proj.Operations.{Store, unchanged, kvs_write}
use so_proj.Operations.Writes.{Dict, update, Changes, AllHaveSlots, dict_changes}
use so_proj.Scan.Words.{HasNoNul}
use so_proj.Session.{World, max_write_size_response, notification, register_callbacks}
use so_proj.Session.Notices.{Messages, messages, notices, kvs_write-notices}
use so_proj.Listener.{listen}
use so_proj.Listener.Frames.{Notice, Plain, frames, lines, IsEnough, listener, listen-frames}

-- The bytes that a descriptor has received.
pub sent_to : ℤ → Messages → Bytes
sent_to fd [] = []
sent_to fd ((d, bytes) ∷ sent) = (if int_equal d fd then bytes else []) ++ sent_to fd sent

abbrev pub copies : ℕ → Notice → List Notice → List Notice
copies zero notice rest = rest
copies (suc n) notice rest = notice ∷ copies n notice rest

-- The changes that a descriptor is told, each as often as the table has it under the hash of the
-- key.
pub told : World → ℤ → Changes → List Notice
told w fd [] = []
told w fd ((key, value) ∷ changes) =
    copies (count fd (get_fds w.subscribed_keys key)) (key, value) (told w fd changes)

abbrev pub PairsArePlain : List (Bytes × Bytes) → Type 0
PairsArePlain [] = Unit
PairsArePlain ((key, value) ∷ pairs) = HasNoNul key × HasNoNul value × PairsArePlain pairs

messages-frames :
    (accepts : ℤ → Bool) (fd : ℤ) (key : Bytes) (value : Option Bytes) (fds : List ℤ)
    (sent : Messages) (rest : List Notice)
    → accepts fd ≡ true
    → sent_to fd sent ≡ frames rest []
    → sent_to fd (messages accepts (notification key value) fds ++ sent)
      ≡ frames (copies (count fd fds) (key, value) rest) []
unfolding sent_to messages count frames
messages-frames accepts fd key value [] sent rest takes same = same
messages-frames accepts fd key value (d ∷ fds) sent rest takes same =
    let more = messages-frames accepts fd key value fds sent rest takes same in
    elim (Bool-cases (int_equal d fd)) [
      | inl here ↦
          let taken : accepts d ≡ true = ap accepts ((int_equal_iff d fd).0 here) ∙ takes in
          let one_more : 1 + count fd fds ≡ suc (count fd fds) = omega arith in
          rw (taken, sent_to, here, one_more)
            (ap (λ (cs : Bytes). notification key value ++ cs) more)
      | inr away ↦
          let no_more : 0 + count fd fds ≡ count fd fds = omega arith in
          elim (Bool-cases (accepts d)) [
            | inl taken ↦ rw (taken, sent_to, away, no_more) more
            | inr refused ↦ rw (refused, away, no_more) more
          ]
    ]

notices-frames :
    (w : World) (fd : ℤ) (changes : Changes)
    → w.accepts fd ≡ true
    → sent_to fd (notices w changes) ≡ frames (told w fd changes) []
unfolding notices told sent_to frames
notices-frames w fd [] takes = refl
notices-frames w fd ((key, value) ∷ changes) takes =
    messages-frames w.accepts fd key value (get_fds w.subscribed_keys key) (notices w changes)
      (told w fd changes) takes (notices-frames w fd changes takes)

dict_changes-Plain :
    (m : Dict) (pairs : List (Bytes × Bytes)) → PairsArePlain pairs → Plain (dict_changes m pairs)
unfolding dict_changes
dict_changes-Plain m [] plain = tt
dict_changes-Plain m ((key, value) ∷ pairs) (k, v, plain) =
    let more = dict_changes-Plain (update m key (some value)) pairs plain in
    elim (Bool-cases (unchanged (m key) value)) [
      | inl same ↦ rw same more
      | inr differs ↦ rw differs (k, v, more)
    ]

copies-Plain :
    (n : ℕ) (notice : Notice) (rest : List Notice)
    → Plain (notice ∷ [])
    → Plain rest
    → Plain (copies n notice rest)
copies-Plain zero notice rest this more = more
copies-Plain (suc n) (key, value) rest (k, v, _) more =
    (k, v, copies-Plain n (key, value) rest (k, v, tt) more)

told-Plain : (w : World) (fd : ℤ) (changes : Changes) → Plain changes → Plain (told w fd changes)
unfolding told
told-Plain w fd [] plain = tt
told-Plain w fd ((key, value) ∷ changes) (k, v, plain) =
    copies-Plain (count fd (get_fds w.subscribed_keys key)) (key, value) (told w fd changes)
      (k, v, tt) (told-Plain w fd changes plain)

-- A `kvs_write` of keys that have slots, none of whose bytes is zero, sends messages whose part for a
-- descriptor that takes them makes the thread that reads it print just a line for each pair that gave
-- its key another value, in order, and as often as the descriptor stands in the table under the hash
-- of the key. The thread then has read them all. It is not interrupted, nor is its client
-- disconnected.
pub kvs_write-listen :
    (s : Store World) (ht : HashTable) (pairs : List (Bytes × Bytes)) (fd : ℤ)
    (answers : ℕ → List Answer) (k : ℕ) (old printed : Bytes)
    → s.kvs_table ≡ some ht
    → IsTable ht
    → AllHaveSlots pairs
    → PairsArePlain pairs
    → s.world.accepts fd ≡ true
    → ((i : ℕ) → IsEnough (answers i))
    → length old ≡ max_write_size_response - 1
    → let heard = told s.world fd (dict_changes (view ht) pairs) in
      Returns (kvs_write (register_callbacks s) pairs) (λ r.
        (sent : Messages) × (last : Bytes) × (r.0.world.sent ≡ s.world.sent ++ sent)
        × (listen (length heard) answers k (listener old (sent_to fd sent) printed)
            ≡ some (false, listener last [] (printed ++ lines heard))))
kvs_write-listen s ht pairs fd answers k old printed e t slots plain takes enough width =
    let w = s.world in
    let changes = dict_changes (view ht) pairs in
    let heard = told w fd changes in
    let (r, ran, (_, world')) = kvs_write-notices s ht pairs e t slots in
    let (last, listened) =
      listen-frames heard answers k old [] printed enough width
        (told-Plain w fd changes (dict_changes-Plain (view ht) pairs plain)) in
    (
      r,
      ran,
      (
        notices w changes,
        last,
        ap (λ (w : World). w.sent) world',
        rw (notices-frames w fd changes takes) listened,
      ),
    )
