-- ===== src/Session.antt =====
-- src/server/client.c: the sessions of the connected clients, and the notifications they receive.
-- `subscribed_keys` is made before the first session starts, and `malloc` gives its memory. The
-- mutexes are left out: each function here runs under those it takes. Messages on the standard
-- error are left out too.
pub mod Notices
pub mod Frames
pub mod Departures
pub mod Subscriptions
pub mod Bounds
pub mod Stale
pub mod Worlds
use so_proj.Base.{
  ℕ, zero, suc, ◌+◌, ◌-◌, Bool, true, false, List, [], ◌∷◌, ◌++◌, Option, none, some, ◌==◌, ◌&&◌,
  leb, if◌then◌else◌, length, get_or, take, replicate, Bytes, codes, snprintf, Run, ok, fault,
  bad_index, ◌>>=◌, ℤ, pos, negsuc, increment, decrement, at_least,
}
use so_proj.Operations.{
  Store, Callback, register_write_callback, register_delete_callback, kvs_key_exists,
}
use so_proj.Coperations.{
  max_number_sub, max_string_size, IntHashTable, add_key, remove_key, get_fds,
  add_key_to_subscribed_list, remove_key_from_subscribed_list,
}

-- MAX_WRITE_SIZE, MAX_WRITE_SIZE_RESPONSE
abbrev pub max_write_size : ℕ
max_write_size = 256

abbrev pub max_write_size_response : ℕ
max_write_size_response = 301

-- What the sessions share, and the pipes as the kernel answers for them: `accepts` tells whether
-- `write_all` to a descriptor succeeds, `closes` whether `close` of one does. `sent` holds the
-- messages delivered, the oldest first; `client_sem` counts the free sessions.
pub record World : Type 0 where
  pub subscribed_keys : IntHashTable
  pub accepts : ℤ → Bool
  pub closes : ℤ → Bool
  pub sent : List (ℤ × Bytes)
  pub client_sem : ℕ

-- `fds` of the source is the three descriptors. `keys` has ten slots.
pub record ClientData : Type 0 where
  pub request_fd : ℤ
  pub response_fd : ℤ
  pub notification_fd : ℤ
  pub num_keys : ℤ
  pub active : Bool
  pub keys : List Bytes

-- `write_all(fd, bytes, length)`, and whether it succeeds
unfoldable pub write_all : World → ℤ → Bytes → World × Bool
write_all w fd bytes =
    if w.accepts fd then (record w { sent = w.sent ++ (fd, bytes) ∷ [] }, true) else (w, false)

-- The text that `snprintf` makes of the format and its arguments.
abbrev pub notice_text : Bytes → Option Bytes → Bytes
notice_text key (some value) =
    codes "("
    ++ (take max_string_size key ++ (codes "," ++ (take max_write_size value ++ codes ")")))
notice_text key none = codes "(" ++ (take max_string_size key ++ codes ",DELETED)")

-- The first MAX_WRITE_SIZE_RESPONSE - 1 bytes of the zeroed array after `snprintf`.
pub notification : Bytes → Option Bytes → Bytes
notification key value =
    let text = snprintf max_write_size_response (notice_text key value) in
    text ++ replicate (max_write_size_response - 1 - length text) 0

pub notify_loop : World → Bytes → Option Bytes → List ℤ → World
unfolding write_all
notify_loop w key value [] = w
notify_loop w key value (fd ∷ fds) =
    notify_loop (write_all w fd (notification key value)).0 key value fds

pub notify_clients : Callback World
unfolding notify_loop
notify_clients key value w = notify_loop w key value (get_fds w.subscribed_keys key)

unfoldable pub register_callbacks : Store World → Store World
unfolding notify_clients
register_callbacks s =
    register_delete_callback (register_write_callback s notify_clients) notify_clients

-- OP_CODE_DISCONNECT, OP_CODE_SUBSCRIBE, OP_CODE_UNSUBSCRIBE and the codes for their results
abbrev pub answer : Bool → Bytes → Bytes → Bytes
answer fail response_wrong response_right = if fail then response_wrong else response_right

-- The rounds from `i` of the loop of `disconnect_client` on the subscriptions, `left` to go.
unfoldable pub forget_keys : ℕ → ℕ → IntHashTable → List Bytes → ℤ → Run IntHashTable
forget_keys zero i ht keys fd = ok ht
forget_keys (suc left) i ht keys fd =
    let rest = forget_keys left (i + 1) (remove_key ht (get_or keys i []) fd).0 keys fd in
    if leb max_number_sub i then fault bad_index else rest

abbrev pub rounds : ℤ → ℕ
rounds (pos n) = n
rounds (negsuc _) = 0

-- Whether `fd >= 0 && close(fd) == -1`
abbrev pub close_fails : World → ℤ → Bool
close_fails w fd = at_least 0 fd && (if w.closes fd then false else true)

-- The closing of the request pipe and of the notification pipe, and the response.
pub respond : World → ClientData → Bool → World
unfolding write_all
respond w client_data cdisconnected =
    let fail =
      if close_fails w client_data.request_fd
      then true
      else close_fails w client_data.notification_fd in
    if cdisconnected
    then w
    else (write_all w client_data.response_fd (answer fail (codes "21") (codes "20"))).0

-- The slot of a session that has ended.
abbrev pub free_slot : ClientData
free_slot = record {
  request_fd = negsuc 0;
  response_fd = negsuc 0;
  notification_fd = negsuc 0;
  num_keys = pos 0;
  active = false;
  keys = replicate max_number_sub [];
}

unfoldable pub disconnect_client : World → ClientData → Bool → Run (World × ClientData)
unfolding respond forget_keys
disconnect_client w client_data cdisconnected = do
  let w1 = respond w client_data cdisconnected
  subscribed_keys' ←
      forget_keys (rounds client_data.num_keys) 0 w1.subscribed_keys client_data.keys
        client_data.notification_fd
  ok (record w1 { subscribed_keys = subscribed_keys'; client_sem = w1.client_sem + 1 }, free_slot)

-- The two cases of `client_subscribe_key` for a key that exists, by what the list of keys answers:
-- whether the call fails.
abbrev enlist : World → ClientData → Bytes → List Bytes × ℕ → World × ClientData × Bool
enlist w client_data key (keys', zero) = (
  record w { subscribed_keys = (add_key w.subscribed_keys key client_data.notification_fd).0 },
  record client_data { keys = keys'; num_keys = increment client_data.num_keys },
  false,
)
enlist w client_data key (keys', suc _) = (w, client_data, true)

pub try_subscribe : Store World → ClientData → Bytes → Run (World × ClientData × Bool)
try_subscribe s client_data key = do
  missing ← kvs_key_exists s key
  elim (missing == 0) [
    | false ↦ ok (s.world, client_data, true)
    | true ↦ elim (at_least max_number_sub client_data.num_keys) [
      | true ↦ ok (s.world, client_data, true)
      | false ↦ do
        added ← add_key_to_subscribed_list key client_data.keys client_data.num_keys
        ok (enlist s.world client_data key added)
    ]
  ]

pub client_subscribe_key : Store World → ClientData → Bytes → Run (Store World × ClientData)
unfolding try_subscribe write_all
client_subscribe_key s client_data key = do
  (w, client_data', fail) ← try_subscribe s client_data key
  ok (
    record s {
      world = (write_all w client_data.response_fd (answer fail (codes "30") (codes "31"))).0;
    },
    client_data',
  )

-- What `client_unsubscribe_key` does by what the list of keys answers.
abbrev pub unlist : World → ClientData → Bytes → List Bytes × ℕ → World × ClientData × Bool
unlist w client_data key (keys', zero) = (
  record w { subscribed_keys = (remove_key w.subscribed_keys key client_data.notification_fd).0 },
  record client_data { keys = keys'; num_keys = decrement client_data.num_keys },
  false,
)
unlist w client_data key (keys', suc _) = (w, client_data, true)

pub client_unsubscribe_key : World → ClientData → Bytes → World × ClientData
client_unsubscribe_key w client_data key =
    let removed = remove_key_from_subscribed_list key client_data.keys client_data.num_keys in
    let (w', client_data', fail) = unlist w client_data key removed in
    ((write_all w' client_data.response_fd (answer fail (codes "41") (codes "40"))).0, client_data')
