-- ===== src/Client.antt =====
-- `main` of src/client/main.c: the commands of the standard input, carried out with ClientParser and
-- Api. Messages to the terminal are left out. `exchanges` tells how the pipes answer the request in
-- the round `k`, `finishes` whether the thread of `kvs_notifications`, which is always made, comes to
-- its end when it is waited for, and `closes` which descriptors can be closed.
pub mod Scripts
pub mod Sessions
use so_proj.Base.{
  ℕ, zero, suc, ◌+◌, Bool, true, false, not, ◌||◌, List, [], ◌∷◌, ◌++◌, Option, none, some, ◌==◌,
  ltb, if◌then◌else◌, length, get_or, Bytes, codes, Run, ok, fault, bad_index, ◌>>=◌, ℤ,
}
use so_proj.ClientParser.{
  Order, cmd_disconnect, cmd_subscribe, cmd_unsubscribe, cmd_delay, cmd_empty, cmd_invalid, eoc,
  get_next, parse_list, parse_delay,
}
use so_proj.Api.{
  Link, Exchange, Opening, kvs_disconnect, kvs_subscribe, kvs_unsubscribe, kvs_connect,
  max_string_size, max_pipe_path_length,
}

-- The variables of `api.c`, and the delays that have been waited for.
pub record Console : Type 0 where
  pub link : Link
  pub delays : List ℕ

-- A round of the loop: it goes on with the input left, ends the program, or waits for ever.
pub data Round : Type 0 where
  goes_on : (s : Console) (input : Bytes) → Round
  ends : (s : Console) (returned : ℕ) → Round
  waits : Round

-- `pthread_join` on the thread, and the end of the program.
abbrev pub join : Console → Bool → ℕ → Round
join s finishes returned =
    let link = s.link in
    if finishes || link.thread_finished
    then ends (record s { link = record link { thread_finished = true } }) returned
    else waits

-- What DISCONNECT and the end of the input do, `failed` being what is returned at once if
-- `kvs_disconnect` fails.
abbrev pub parted : Console → Bool → Option ℕ → Option (Link × ℕ) → Round
parted s finishes failed none = waits
parted s finishes failed (some (link, zero)) = join (record s { link = link }) finishes 0
parted s finishes none (some (link, suc _)) = join (record s { link = link }) finishes 0
parted s finishes (some code) (some (link, suc _)) = ends (record s { link = link }) code

-- What a request that has returned `returned` does; 2 says that the session is over.
abbrev pub requested : Console → Bool → Bytes → Link × ℕ → Round
requested s finishes rest (link, returned) =
    let s' = record s { link = link } in
    if returned == 2 then join s' finishes 0 else goes_on s' rest

-- The requests for a key, behind `parse_list`.
abbrev pub with_key : Console → Bool → (Bytes → Link × ℕ) → List Bytes × Bytes → Run Round
with_key s finishes asks ([], rest) = ok (goes_on s rest)
with_key s finishes asks (key ∷ _, rest) = ok (requested s finishes rest (asks key))

abbrev pub delayed : Console → Option ℕ × Bytes → Run Round
delayed s (none, rest) = ok (goes_on s rest)
delayed s (some zero, rest) = ok (goes_on s rest)
delayed s (some (suc ms), rest) =
    ok (goes_on (record s { delays = s.delays ++ (suc ms ∷ []) }) rest)

-- The cases of the `switch`.
pub carry_out : Console → Bool → Exchange → (ℤ → Bool) → Order → Bytes → Run Round
carry_out s finishes x closes cmd_disconnect input =
    ok (parted s finishes none (kvs_disconnect s.link finishes x closes))
carry_out s finishes x closes cmd_subscribe input = do
  r ← parse_list 1 max_string_size input
  with_key s finishes (kvs_subscribe s.link x) r
carry_out s finishes x closes cmd_unsubscribe input = do
  r ← parse_list 1 max_string_size input
  with_key s finishes (kvs_unsubscribe s.link x) r
carry_out s finishes x closes cmd_delay input = do r ← parse_delay input; delayed s r
carry_out s finishes x closes cmd_invalid input = ok (goes_on s input)
carry_out s finishes x closes cmd_empty input = ok (goes_on s input)
carry_out s finishes x closes eoc input =
    ok (parted s finishes (some 1) (kvs_disconnect s.link finishes x closes))

-- How the program ends, if it does so within the fuel.
pub data Outcome : Type 0 where
  exits : (s : Console) (returned : ℕ) → Outcome
  hangs : Outcome
  no_fuel : Outcome

-- The loop from the round `k`.
pub client_loop : ℕ → Console → Bool → (ℕ → Exchange) → (ℤ → Bool) → ℕ → Bytes → Run Outcome
unfolding carry_out
client_loop zero s finishes exchanges closes k input = ok no_fuel
client_loop (suc fuel) s finishes exchanges closes k input = do
  let (order, rest) = get_next input
  r ← carry_out s finishes (exchanges k) closes order rest
  elim r [
    | goes_on s' rest' ↦ client_loop fuel s' finishes exchanges closes (k + 1) rest'
    | ends s' returned ↦ ok (exits s' returned)
    | waits ↦ ok hangs
  ]

-- `strncat` of an argument to the start of a path: it writes behind the array if they do not fit.
abbrev pub path_with : Bytes → Bytes → Run Bytes
path_with start argument =
    if ltb (length start + length argument) max_pipe_path_length
    then ok (start ++ argument)
    else fault bad_index

-- What the program does behind `kvs_connect`.
abbrev pub connected :
    ℕ → Bool → (ℕ → Exchange) → (ℤ → Bool) → Bytes → Option Bytes × Link × ℕ → Run Outcome
connected fuel finishes exchanges closes input (message, link, returned) =
    let s : Console = record { link = link; delays = [] } in
    if returned == 0 then client_loop fuel s finishes exchanges closes 0 input else ok (exits s 1)

-- The program with its arguments, the first of them its name.
pub client_main :
    ℕ → List Bytes → Link → Opening → Bool → (ℕ → Exchange) → (ℤ → Bool) → Bytes → Run Outcome
unfolding client_loop
client_main fuel arguments link o finishes exchanges closes input =
    if ltb (length arguments) 3
    then ok (exits (record { link = link; delays = [] }) 1)
    else (let id = get_or arguments 1 [] in
        do
          req ← path_with (codes "/tmp/req") id
          resp ← path_with (codes "/tmp/resp") id
          notif ← path_with (codes "/tmp/notif") id
          server ← path_with (codes "/tmp/") (get_or arguments 2 [])
          connected fuel finishes exchanges closes input (kvs_connect link o req resp notif))
