-- ===== src/Client/Sessions.antt =====
-- A whole session: the commands that src/client/main.c reads, what src/client/api.c writes for them,
-- and what `client_thread` of src/server/client.c does with it.
use so_proj.Base.{ℕ, ◌<◌, ◌≡◌, true, Bool, List, [], ◌∷◌, ap, length, arith, ok, ◌>>=◌, ℤ}
use so_proj.Api.{Exchange, max_string_size}
use so_proj.Api.Exchanges.{IsAnswered, IsOpen}
use so_proj.Client.{Console, exits, client_loop}
use so_proj.Client.Scripts.{key_of, AreTyped, concat, script, client_loop-script}
use so_proj.Operations.{Store}
use so_proj.Scan.Words.{IsWord}
use so_proj.Session.{World, ClientData}
use so_proj.Threads.{loop}
use so_proj.Threads.Sessions.{
  Request, subscribe, unsubscribe, Fits, AllFit, never, thread, act_all, finished, loop-act_all,
}

typed-Fits : (r : Request) → IsWord max_string_size (key_of r) → Fits r
typed-Fits (subscribe key) word = let fits = word.fits in (word.no_nul, omega arith)
typed-Fits (unsubscribe key) word = let fits = word.fits in (word.no_nul, omega arith)

AreTyped-AllFit : (requests : List Request) → AreTyped requests → AllFit requests
AreTyped-AllFit [] typed = tt
AreTyped-AllFit (r ∷ requests) (word, typed) = (typed-Fits r word, AreTyped-AllFit requests typed)

-- The client is given requests for keys that are words, each on a line, and DISCONNECT behind them, at
-- the start of a session whose server answers each of them, well or ill, and whose thread comes to
-- its end. Then the client returns 0; and the thread of the session, when nothing forces it to
-- disconnect, does to the store and the session just what the requests do one after the other, reads
-- all that the client has written, and ends without `fail`. Both loops have more fuel than there are
-- requests.
pub client_loop-act_all :
    (requests : List Request) (fuel more : ℕ) (s : Console) (exchanges : ℕ → Exchange)
    (closes : ℤ → Bool) (st : Store World) (c : ClientData)
    → AreTyped requests
    → length requests < fuel
    → length requests < more
    → IsOpen s.link
    → s.link.requests ≡ []
    → ((i : ℕ) → IsAnswered (exchanges i))
    → (s' : Console) × (client_loop fuel s true exchanges closes 0 (script requests)
        ≡ ok (exits s' 0))
      × (loop more never 0 (thread st c (concat s'.link.requests))
          ≡ (act_all requests st c >>= finished []))
client_loop-act_all requests fuel more s exchanges closes st c typed lt lt' o new answered =
    let (s', ran, sent) =
      client_loop-script requests fuel 0 s exchanges closes typed lt o answered in
    let before = ap concat new in
    (
      s',
      ran,
      rw (sent, before) (loop-act_all requests more 0 st c [] (AreTyped-AllFit requests typed) lt'),
    )
