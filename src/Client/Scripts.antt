-- ===== src/Client/Scripts.antt =====
-- What src/client/main.c writes to the server for the commands that it reads.
use so_proj.Base.{
  ℕ, zero, suc, ◌+◌, ◌<◌, ◌≡◌, refl, sym, ap, ◌∙◌, Bool, true, List, [], ◌∷◌, ◌++◌, none, some,
  append_assoc, append-nil, arith, length, Bytes, codes, ok, ℤ,
}
use so_proj.Scan.Words.{IsWord}
use so_proj.Parser.Lists.{list_text}
use so_proj.ClientParser.{cmd_disconnect, cmd_subscribe, cmd_unsubscribe}
use so_proj.ClientParser.Orders.{order_word, get_next-order_word, parse_list-list_text}
use so_proj.Threads.Sessions.{Request, subscribe, unsubscribe, message, session_text}
use so_proj.Api.{Link, Exchange, post, max_string_size}
use so_proj.Api.Exchanges.{
  IsAnswered, IsOpen, kvs_disconnect-post, kvs_subscribe-post, kvs_unsubscribe-post,
}
use so_proj.Client.{Console, ends, parted, exits, carry_out, client_loop}

abbrev pub key_of : Request → Bytes
key_of (subscribe key) = key
key_of (unsubscribe key) = key

abbrev pub AreTyped : List Request → Type 0
AreTyped [] = Unit
AreTyped (r ∷ requests) = IsWord max_string_size (key_of r) × AreTyped requests

-- How a request is typed, in front of the lines that follow.
abbrev pub line : Request → Bytes → Bytes
line (subscribe key) rest = order_word cmd_subscribe ++ list_text (key ∷ []) (b'\n' ∷ rest)
line (unsubscribe key) rest = order_word cmd_unsubscribe ++ list_text (key ∷ []) (b'\n' ∷ rest)

abbrev pub script : List Request → Bytes
script [] = order_word cmd_disconnect
script (r ∷ requests) = line r (script requests)

abbrev pub concat : List Bytes → Bytes
concat [] = []
concat (text ∷ texts) = text ++ concat texts

concat-append : (a b : List Bytes) → concat (a ++ b) ≡ concat a ++ concat b
concat-append [] b = refl
concat-append (text ∷ a) b =
    ap (◌++◌ text) (concat-append a b) ∙ sym (append_assoc text (concat a) (concat b))

left_with : Console → Link → Console
left_with s link = record s { link = record link { thread_finished = true } }

parted-ends :
    (s : Console) (link : Link) (returned : ℕ)
    → parted s true none (some (link, returned)) ≡ ends (left_with s link) 0
unfolding left_with
parted-ends s link zero = refl
parted-ends s link (suc _) = refl

-- One line of a script.
module _ (fuel k : ℕ) (s : Console) (exchanges : ℕ → Exchange) (closes : ℤ → Bool) (rest : Bytes)
    (o : IsOpen s.link) (answered : IsAnswered (exchanges k)) where
  client_loop-line :
      (r : Request)
      → IsWord max_string_size (key_of r)
      → client_loop (suc fuel) s true exchanges closes k (line r rest)
        ≡ client_loop fuel
            (record s { link = post s.link (message r) })
            true
            exchanges
            closes
            (k + 1)
            rest
  unfolding client_loop carry_out
  client_loop-line (subscribe key) word =
      let known = get_next-order_word cmd_subscribe (list_text (key ∷ []) (b'\n' ∷ rest)) tt in
      let read = parse_list-list_text (key ∷ []) 1 rest (λ e. cc) (omega arith) (word, tt) in
      let (posted, goes) = kvs_subscribe-post s.link (exchanges k) key o answered in
      rw (known, read, posted, goes)
  client_loop-line (unsubscribe key) word =
      let known = get_next-order_word cmd_unsubscribe (list_text (key ∷ []) (b'\n' ∷ rest)) tt in
      let read = parse_list-list_text (key ∷ []) 1 rest (λ e. cc) (omega arith) (word, tt) in
      let (posted, goes) = kvs_unsubscribe-post s.link (exchanges k) key o answered in
      rw (known, read, posted, goes)

  client_loop-end :
      (s' : Console) × (client_loop (suc fuel) s true exchanges closes k (script [])
        ≡ ok (exits s' 0))
      × (s'.link.requests ≡ s.link.requests ++ (codes "2" ∷ []))
  unfolding client_loop carry_out left_with
  client_loop-end =
      let (l', returned, left, sent) = kvs_disconnect-post s.link (exchanges k) closes o answered in
      (
        left_with s l',
        rw (get_next-order_word cmd_disconnect [] tt, left, parted-ends s l' returned),
        sent,
      )

-- A script has requests for keys that are words, each on a line, and DISCONNECT behind them. If the
-- session runs, every request is sent and answered, well or ill, and the thread comes to its end,
-- then the loop, with more fuel than there are requests, returns 0 on a script; and the text of its
-- requests, as the server's thread reads them, has gone into the request pipe behind what was sent
-- before.
pub client_loop-script :
    (requests : List Request) (fuel k : ℕ) (s : Console) (exchanges : ℕ → Exchange)
    (closes : ℤ → Bool)
    → AreTyped requests
    → length requests < fuel
    → IsOpen s.link
    → ((i : ℕ) → IsAnswered (exchanges i))
    → (s' : Console) × (client_loop fuel s true exchanges closes k (script requests)
        ≡ ok (exits s' 0))
      × (concat s'.link.requests ≡ concat s.link.requests ++ session_text requests [])
unfolding client_loop carry_out
client_loop-script requests zero k s exchanges closes typed lt o answered = absurd (omega arith)
client_loop-script [] (suc fuel) k s exchanges closes typed lt o answered =
    let (s', ran, sent) = client_loop-end fuel k s exchanges closes [] o (answered k) in
    (s', ran, ap concat sent ∙ concat-append s.link.requests (codes "2" ∷ []))
client_loop-script (r ∷ requests) (suc fuel) k s exchanges closes (word, typed) lt o answered =
    let line_ =
      client_loop-line fuel k s exchanges closes (script requests) o (answered k) r word in
    let l = s.link in
    let (s', ran, sent) =
      client_loop-script requests fuel (k + 1) (record s { link = post l (message r) }) exchanges
        closes typed (omega arith) (record { stays = o.stays; pipes = o.pipes }) answered in
    (
      s',
      line_ ∙ ran,
      sent
          ∙ rw (concat-append l.requests (message r ∷ []), append-nil (message r))
              (append_assoc (concat l.requests) (message r) (session_text requests [])),
    )
