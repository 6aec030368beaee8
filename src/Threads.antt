-- ===== src/Threads.antt =====
-- `client_thread` of src/server/client.c: what the thread of one slot does from the activation of a
-- client to the end of its session. The request pipe is the bytes that the client has written; at
-- their end the client has closed it. The thread blocks SIGUSR1, so that no call is interrupted.
-- `forces` tells what the thread finds in `force_disconnect` in each round of its loop.
pub mod Rounds
pub mod Sessions
pub mod Worlds
use so_proj.Base.{
  ℕ, zero, suc, ◌+◌, Bool, true, false, List, [], ◌∷◌, Option, none, some, ◌==◌, leb, ◌||◌,
  if◌then◌else◌, length, take, drop, Bytes, codes, until_nul, Run, ok, ◌>>=◌, ℤ,
}
use so_proj.Operations.{Store}
use so_proj.Coperations.{max_string_size}
use so_proj.Session.{
  World, ClientData, write_all, disconnect_client, client_subscribe_key, client_unsubscribe_key,
}

-- The store, the session's data, and the input left.
pub record Thread : Type 0 where
  pub store : Store World
  pub client_data : ClientData
  pub input : Bytes

-- One round of the loop, with the `fail` of a session that ends in it.
abbrev pub Round : Type 0
Round = Option Bool × Thread

abbrev pub subscribe_round : Thread → Bytes → Bytes → Run Round
subscribe_round t key rest = do
  (s, c) ← client_subscribe_key t.store t.client_data key
  ok (none, record { store = s; client_data = c; input = rest })

abbrev pub unsubscribe_round : Thread → Bytes → Bytes → Run Round
unsubscribe_round t key rest =
    let (w, c) = client_unsubscribe_key t.store.world t.client_data key in
    let s = t.store in
    ok (none, record { store = record s { world = w }; client_data = c; input = rest })

-- A request for a key: its 40 bytes are read, or the client has gone.
pub key_round : Thread → ℕ → Bytes → Run Round
key_round t op input =
    let key = until_nul (take max_string_size input) in
    let rest = drop max_string_size input in
    if leb max_string_size (length input)
    then (if op == b'3' then subscribe_round t key rest else unsubscribe_round t key rest)
    else ok (some true, record t { input = [] })

-- What the byte of the operation asks for.
pub op_round : Thread → ℕ → Bytes → Run Round
unfolding key_round
op_round t op input =
    if op == b'2'
    then ok (some false, record t { input = input })
    else if op == b'3' || op == b'4'
    then key_round t op input
    else ok (none, record t { input = input })

unfoldable pub round : Bool → Thread → Bytes → Run Round
unfolding op_round
round true t input = ok (some true, t)
round false t [] = ok (some true, t)
round false t (op ∷ input) = op_round t op input

-- The loop from the round `k`, with the `fail` with which it ends; `none` if the fuel runs out.
pub loop : ℕ → (ℕ → Bool) → ℕ → Thread → Run (Option (Bool × Thread))
unfolding round
loop zero forces k t = ok none
loop (suc fuel) forces k t = do
  (ended, t') ← round (forces k) t t.input
  let more = loop fuel forces (k + 1) t'
  elim ended [ none ↦ more | some fail ↦ ok (some (fail, t')) ]

abbrev pub part : Bool → Thread → Run (Option Thread)
part fail t = do
  (w, c) ← disconnect_client t.store.world t.client_data fail
  let s = t.store
  ok (some (record { store = record s { world = w }; client_data = c; input = t.input }))

abbrev pub loop_ends : Option (Bool × Thread) → Run (Option Thread)
loop_ends none = ok none
loop_ends (some (fail, t)) = part fail t

-- The thread from the activation of its slot: the response to the connection, the requests, and
-- the end of the session. A response that cannot be sent ends it at once; so does a client that is
-- told to disconnect before the response.
pub client_thread : ℕ → (ℕ → Bool) → Thread → Run (Option Thread)
unfolding loop
client_thread fuel forces t =
    let s = t.store in
    let (w, sent) = write_all s.world t.client_data.response_fd (codes "10") in
    let t' : Thread = record t { store = record s { world = w } } in
    if forces 0
    then part true t
    else if sent
    then (do r ← loop fuel forces 1 t'; loop_ends r)
    else part false t'
