-- ===== src/Tests/Pipes.antt =====
-- The two sides of the pipes between src/client and src/server, at small inputs.
use so_proj.Base.{
  ℕ, ℤ, ◌≡◌, refl, true, false, List, [], ◌∷◌, ◌++◌, Option, none, some, arith, replicate, Bytes,
  codes, ok, Ensures, ◌>>=◌, pos,
}
use so_proj.Io.{read_string, Answer, moves, interrupted, Reading, read_all}
use so_proj.Io.Lines.{left_behind, read_string-text}
use so_proj.Io.Transfers.{interruptions, write_all-Sent, Delivered, write_all-read_all}
use so_proj.ClientParser.{cmd_subscribe, get_next, parse_list}
use so_proj.ClientParser.Orders.{get_next-parse_list}
use so_proj.Parser.Lists.{list_text}
use so_proj.Session.{register_callbacks}
use so_proj.Session.Bounds.{IsSession}
use so_proj.Operations.{register_delete_callback, register_write_callback}
use so_proj.Threads.{loop, client_thread}
use so_proj.Threads.Rounds.{Over, client_thread-Over}
use so_proj.Threads.Sessions.{
  Request, subscribe, unsubscribe, never, thread, session_text, act_all, finished, loop-act_all,
}
use so_proj.Slots.{
  init_slots, Server, all_start, start_client_threads, activate_client, occupy, Step, Reach, here,
  next,
}
use so_proj.Slots.Invariant.{Activated, activate_client_finds}
use so_proj.Api.{connect_message}
use so_proj.Fifo.{parse_registration}
use so_proj.Fifo.Registrations.{IsPath, connect_message-parse_registration}
use so_proj.Listener.{listen}
use so_proj.Listener.Frames.{
  IsEnough, listener, lines, frames, again, listen-frames, listen_interrupted, deaf,
}
use so_proj.Listener.Waits
use so_proj.Listener.Waits.{
  Run, connected, stuck, Comes, Hangs, at_start, go_on, print, start, kvs_disconnect_waits,
}
use so_proj.Session.{notification, notice_text}
use so_proj.Base.{◌⊎◌, zero, suc}
use so_proj.Operations.Texts.{trim_trailing_whitespace}
use so_proj.Tests.Inputs.{a-IsWord}
use so_proj.Tests.Clients.{world, client, served, one_subscription-IsSubscriptions}
use so_proj.Slots.Disconnects.{
  Disconnects, tells, meanwhile, looks, Awaits, forced, Disconnects-Awaits,
}
use so_proj.Session.{disconnect_client, forget_keys}
use so_proj.Threads.{round}
use so_proj.Slots.{force_all, release_all}
use so_proj.Base.{Option, none}

abbrev cut_writes : List Answer
cut_writes = moves 0 ∷ interrupted ∷ moves 9 ∷ moves 9 ∷ moves 9 ∷ []

-- An interruption behind the first byte.
abbrev cut_reads : List Answer
cut_reads = moves 0 ∷ interrupted ∷ moves 9 ∷ moves 9 ∷ moves 9 ∷ []

read_string-text_example :
    read_string (replicate 3 (moves 0)) (codes "ab" ++ (b'\n' ∷ codes "c"))
    ≡ some (some (codes "ab"), left_behind 39 (codes "ab") b'\n' (codes "c"))
read_string-text_example =
    read_string-text (codes "ab") (replicate 3 (moves 0)) b'\n' (codes "c") (refl, (refl, tt)) refl
      tt (omega arith) (omega arith)

write_all-read_all_example :
    (r : Reading) × (read_all cut_reads 3 (some false) (codes "abcd") ≡ some r)
    × Delivered false (codes "abc") (codes "d") r
unfolding interruptions
write_all-read_all_example =
    write_all-read_all cut_writes cut_reads (codes "abc") (codes "d") (codes "abc") (some false)
      ((write_all-Sent cut_writes (codes "abc")).1 tt (omega arith)) (omega arith) refl tt
      (omega arith)

get_next-parse_list_example :
    (get_next (codes "SUBSCRIBE [a]\n") ≡ (cmd_subscribe, codes "[a]\n"))
    × (parse_list 1 40 (list_text (codes "a" ∷ []) (b'\n' ∷ codes "[a]\n"))
        ≡ ok (codes "a" ∷ [], codes "[a]\n"))
get_next-parse_list_example =
    get_next-parse_list cmd_subscribe (codes "a" ∷ []) 1 (codes "[a]\n") tt (λ e. cc) (omega arith)
      (a-IsWord, tt)

abbrev requests : List Request
requests = subscribe (codes "ab") ∷ unsubscribe (codes "a") ∷ []

served-IsSession : IsSession 7 world client
served-IsSession = record {
  table = one_subscription-IsSubscriptions;
  active = refl;
  free = refl;
  few = refl;
}

client_thread-Over_example :
    Ensures (Over 7) (client_thread 9 never (thread served client (codes "3ab")))
client_thread-Over_example =
    client_thread-Over 7 9 never (thread served client (codes "3ab")) served-IsSession (omega arith)

loop-act_all_example :
    loop 5 never 0 (thread served client (session_text requests (codes "x")))
    ≡ (act_all requests served client >>= finished (codes "x"))
loop-act_all_example =
    loop-act_all requests 5 0 served client (codes "x")
      (((refl, (refl, tt)), omega arith), (((refl, tt), omega arith), tt)) (omega arith)

abbrev server : Server
server = record { store = served; clients_data = [] }

abbrev found : ℕ → List ℤ
found _ = replicate 8 (pos 0)

abbrev ready : Server
ready = (start_client_threads server true true all_start found).0

-- Two clients are connected, and all sessions are told to end.
busy_server : (t : Server) × Reach ready t
unfolding start_client_threads init_slots activate_client occupy register_callbacks
    register_delete_callback register_write_callback
busy_server = (
  _,
  next
      (next (next here (Step.connect (pos 3) (pos 4) (pos 5) (pos 0) refl refl))
        (Step.connect (pos 6) (pos 7) (pos 8) (pos 0) refl refl))
      (Step.force refl),
)

abbrev joined : Option (Server × ℤ) → Server
joined none = ready
joined (some (s, _)) = s

-- The same two clients; the second ends its session once it is told to, the first does not yet.
abbrev two_clients : Server
two_clients = joined (
    activate_client (joined (activate_client ready (pos 3) (pos 4) (pos 5))) (pos 6) (pos 7)
      (pos 8))

first_lingers : (t : Server) × Disconnects two_clients t 1
unfolding start_client_threads init_slots activate_client occupy register_callbacks
    register_delete_callback register_write_callback disconnect_client force_all release_all forced
    forget_keys round
first_lingers = (
  _,
  looks (meanwhile tells (Step.leave 1 [] true _ _ (omega arith) refl refl refl refl) tt)
      (omega arith),
)

Disconnects-Awaits_example : Awaits first_lingers.0.clients_data 1
unfolding start_client_threads init_slots activate_client occupy register_callbacks
    register_delete_callback register_write_callback forced
Disconnects-Awaits_example = Disconnects-Awaits two_clients first_lingers.0 1 refl first_lingers.1

activate_client_finds_example :
    Activated busy_server.0 (activate_client busy_server.0 (pos 9) (pos 10) (pos 11))
activate_client_finds_example =
    activate_client_finds server busy_server.0 found (pos 9) (pos 10) (pos 11) (λ i. refl)
      busy_server.1 refl

a-IsPath : IsPath (codes "/tmp/a")
a-IsPath = record { plain = (refl, (refl, (refl, (refl, (refl, (refl, tt)))))); fits = omega arith }

blank-IsPath : IsPath (codes "/tmp/a ")
blank-IsPath = record {
  plain = (refl, (refl, (refl, (refl, (refl, (refl, (refl, tt)))))));
  fits = omega arith;
}

connect_message-parse_registration_example :
    parse_registration (connect_message (codes "/tmp/a") (codes "/tmp/a") (codes "/tmp/a "))
    ≡ some (record {
      request = trim_trailing_whitespace (codes "/tmp/a");
      response = trim_trailing_whitespace (codes "/tmp/a");
      notification = trim_trailing_whitespace (codes "/tmp/a ");
    })
connect_message-parse_registration_example =
    (connect_message-parse_registration (codes "/tmp/a") (codes "/tmp/a") (codes "/tmp/a ") a-IsPath
      a-IsPath blank-IsPath).1

abbrev whole_reads : ℕ → List Answer
whole_reads _ = replicate 301 (moves 400)

whole_reads-IsEnough : (k : ℕ) → IsEnough (whole_reads k)
unfolding interruptions
whole_reads-IsEnough k = record { fine = tt; quiet = refl; enough = omega arith }

abbrev notices : List (Bytes × Option Bytes)
notices = (codes "a", some (codes "xy")) ∷ (codes "b", none) ∷ []

listen-frames_example :
    (last : Bytes) × (listen 2 whole_reads 0
        (listener (replicate 300 0) (frames notices (codes "(")) [])
      ≡ some (false, listener last (codes "(") (lines notices)))
listen-frames_example =
    listen-frames notices whole_reads 0 (replicate 300 0) (codes "(") [] whole_reads-IsEnough refl
      ((refl, tt), (refl, (refl, tt)), ((refl, tt), tt, tt))

-- The second read is interrupted.
abbrev signalled : ℕ → List Answer
signalled zero = replicate 301 (moves 400)
signalled (suc zero) = interrupted ∷ moves 0 ∷ []
signalled (suc (suc _)) = []

listen_interrupted_example :
    listen 4 signalled 0
      (listener (replicate 300 0) (notification (codes "a") none ++ codes "(b") [])
    ≡ some (
      false,
      deaf (notification (codes "a") none) (codes "(b") (
          ([] ++ (notice_text (codes "a") none ++ codes "\n"))
          ++ again 3 (notice_text (codes "a") none ++ codes "\n")),
    )
listen_interrupted_example =
    listen_interrupted 2 0 signalled (moves 0 ∷ []) (codes "a") none (replicate 300 0) (codes "(b")
      [] (whole_reads-IsEnough 0) refl refl (refl, tt) tt

-- The thread has printed the only notification when `kvs_disconnect` is called.
kvs_disconnect_waits_example : (Comes stuck ⊎ Hangs stuck) × Run (connected 1) stuck
kvs_disconnect_waits_example =
    kvs_disconnect_waits 1 stuck
      (Waits.Reach.step
        (Waits.Reach.step
          (Waits.Reach.step (Waits.Reach.step at_start (go_on refl refl refl))
            (print 0 refl refl refl refl))
          (go_on refl refl refl))
        (start refl refl refl))
      refl
