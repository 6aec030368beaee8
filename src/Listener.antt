-- ===== src/Listener.antt =====
-- `kvs_notifications` of src/client/api.c: the thread of a client that prints what the server tells,
-- and `kvs_disconnect`, which waits for its end.
pub mod Frames
pub mod Waits
pub mod Delivery
use so_proj.Base.{
  ℕ, zero, suc, ◌+◌, Bool, true, false, List, [], ◌∷◌, ◌++◌, Option, none, some, ◌-◌, if◌then◌else◌,
  length, drop, Bytes, ℤ, pos, negsuc,
}
use so_proj.Io.{Answer, Reading, read_all}
use so_proj.Session.{max_write_size_response}
use so_proj.Api.{print_notification}

-- The variables of the thread, what is left in the notification pipe, what has been printed, and
-- the two flags of the file.
pub record Listener : Type 0 where
  pub intr : Bool
  pub notification : Bytes
  pub input : Bytes
  pub printed : Bytes
  pub disconnect : Bool
  pub thread_finished : Bool

-- The array behind a call of `read_all`, which may have filled only its first part.
abbrev pub refill : Bytes → Bytes → Bytes
refill notification buffer = buffer ++ drop (length buffer) notification

abbrev pub print : Listener → Listener
print l = record l {
  printed = l.printed ++ print_notification l.notification max_write_size_response;
}

abbrev pub received : Listener → Reading → Bool → Listener
received l r intr = record l {
  intr = intr;
  notification = refill l.notification r.buffer;
  input = r.rest;
}

abbrev pub intr_of : Option Bool → Bool
intr_of none = false
intr_of (some intr) = intr

-- A round behind `read_all`: whether the thread ends, and its state. `late` is what it finds in
-- `disconnect` if it looks again behind an interruption. Behind an error it prints all the same.
pub heard : Bool → Listener → Reading → ℤ → Bool × Listener
heard late l r (pos zero) =
    let l' = received l r (intr_of r.intr) in
    (true, record l' { disconnect = true; thread_finished = true })
heard late l r (pos (suc _)) = (false, print (received l r (intr_of r.intr)))
heard late l r (negsuc _) =
    let l' = received l r (intr_of r.intr) in
    if intr_of r.intr
    then (if late then (true, record l' { thread_finished = true }) else (false, print l'))
    else (false, print l')

-- One round. `disconnected` is what it finds in `disconnect` first, and `answers` are those that
-- `read` gives in it. The result is `none` while `read_all` waits for more.
pub listen_round : Bool → Bool → List Answer → Listener → Option (Bool × Listener)
unfolding heard
listen_round disconnected late answers l =
    if disconnected
    then some (true, record l { thread_finished = true })
    else elim (read_all answers (max_write_size_response - 1) (some l.intr) l.input) [
      | none ↦ none
      | some r ↦ some (heard late l r r.code)
    ]

-- Some rounds, while no one disconnects the client.
pub listen : ℕ → (ℕ → List Answer) → ℕ → Listener → Option (Bool × Listener)
listen zero answers k l = some (false, l)
listen (suc rounds) answers k l = elim (listen_round false false (answers k) l) [
  | none ↦ none
  | some (true, l') ↦ some (true, l')
  | some (false, l') ↦ listen rounds answers (k + 1) l'
]
