-- ===== src/Api.antt =====
-- src/client/api.c: the client's side of a session. Messages to the terminal are left out, but for
-- the notifications. Locking and unlocking a mutex, and what the paths name, are left out too.
pub mod Exchanges
use so_proj.Base.{
  ℕ, zero, suc, ◌-◌, Bool, true, false, not, ◌&&◌, ◌||◌, ◌+◌, List, [], ◌∷◌, ◌++◌, Option, none,
  some, map, ◌==◌, if◌then◌else◌, length, get_or, take, replicate, Bytes, codes, until_nul, ℤ, pos,
  negsuc, int_equal,
}

-- What `strncpy(buffer, source, size)` leaves in a buffer of `size` bytes, the string of `source`
-- with zeros behind it.
abbrev pub strncpy : Bytes → ℕ → Bytes
strncpy source size =
    let text = until_nul (take size source) in text ++ replicate (size - length text) 0

abbrev pub blank : ℕ → ℕ
blank c = if c == 0 then b' ' else c

-- The second loop of `print_notification`, with `i` rounds to go: the string that it leaves.
unfoldable pub cut_blanks : Bytes → ℕ → Bytes
cut_blanks text zero = text
cut_blanks text (suc i) =
    let rest = cut_blanks text i in if get_or text i b' ' == b' ' then rest else take (suc i) text

-- The bytes that `print_notification` prints.
unfoldable pub print_notification : Bytes → ℕ → Bytes
unfolding cut_blanks
print_notification notification size =
    cut_blanks (map blank (strncpy notification size)) size ++ codes "\n"

-- MAX_PIPE_PATH_LENGTH and MAX_STRING_SIZE of src/common/constants.h
abbrev pub max_pipe_path_length : ℕ
max_pipe_path_length = 40

abbrev pub max_string_size : ℕ
max_string_size = 40

-- The variables of the file, with the messages that have gone into the request pipe, the oldest
-- first.
pub record Link : Type 0 where
  pub req_path : Bytes
  pub resp_path : Bytes
  pub notif_path : Bytes
  pub request_fd : ℤ
  pub response_fd : ℤ
  pub notification_fd : ℤ
  pub disconnect : Bool
  pub thread_finished : Bool
  pub requests : List Bytes

-- How `read_all` of the two bytes of a response ends: with the bytes, at the end of the pipe, by a
-- signal, or by an error.
pub data Reply : Type 0 where
  replied : (op code : ℕ) → Reply
  ended : Reply
  interrupted : Reply
  failed : Reply

-- What the pipes do in one exchange: whether `write_all` succeeds, and the response.
pub record Exchange : Type 0 where
  pub accepts : Bool
  pub reply : Reply

-- What the array `response` holds behind `read_all`: zeros, where nothing has been read.
abbrev pub response_code : Reply → ℕ
response_code (replied op code) = code
response_code _ = 0

abbrev pub is_end : Reply → Bool
is_end ended = true
is_end _ = false

abbrev pub is_error : Reply → Bool
is_error failed = true
is_error _ = false

abbrev pub post : Link → Bytes → Link
post s message = record s { requests = s.requests ++ (message ∷ []) }

-- The three `close`, each of which ends the call if it fails.
abbrev pub close_all : Link → (ℤ → Bool) → ℕ
close_all s closes =
    if closes s.request_fd
    then (if closes s.response_fd then (if closes s.notification_fd then 0 else 1) else 1)
    else 1

-- The part of `kvs_disconnect` behind the wait.
pub leave : Link → Exchange → (ℤ → Bool) → Link × ℕ
leave s x closes =
    let s' = post s (codes "2") in
    if x.accepts
    then (if is_error x.reply
        then (s', 1)
        else if is_end x.reply
        then (s', close_all s' closes)
        else if response_code x.reply == b'0'
        then (s', close_all s' closes)
        else (s', 1))
    else (s, 1)

-- `finishes` tells whether the thread of `kvs_notifications` comes to its end; else the call waits
-- for ever, and the result is `none`.
pub kvs_disconnect : Link → Bool → Exchange → (ℤ → Bool) → Option (Link × ℕ)
unfolding leave
kvs_disconnect s finishes x closes =
    if s.disconnect
    then some (s, 0)
    else if finishes || s.thread_finished
    then some (leave (record s { disconnect = true; thread_finished = true }) x closes)
    else none

-- The text of a request for a key: the operation, and 40 bytes of the key with zeros behind it.
abbrev pub key_message : Bytes → Bytes → Bytes
key_message op key = take (max_string_size + 1) (op ++ strncpy key (max_string_size + 1))

-- What the two requests do behind the read of the response. Both set `disconnect` themselves before
-- they call `kvs_disconnect`, which then does nothing.
pub conclude : Link → ℕ → Reply → Link × ℕ
conclude s good interrupted = (record s { disconnect = true }, 1)
conclude s good ended = (record s { disconnect = true }, 1)
conclude s good failed = (s, if response_code failed == good then 0 else 1)
conclude s good (replied op code) = (s, if code == good then 0 else 1)

pub request : Link → Exchange → Bytes → ℕ → Link × ℕ
unfolding conclude
request s x message good =
    if s.disconnect
    then (s, 2)
    else if int_equal s.request_fd (negsuc 0) || int_equal s.response_fd (negsuc 0)
    then (s, 1)
    else if x.accepts
    then conclude (post s message) good x.reply
    else (s, 1)

pub kvs_subscribe : Link → Exchange → Bytes → Link × ℕ
unfolding request
kvs_subscribe s x key = request s x (key_message (codes "3") key) b'1'

pub kvs_unsubscribe : Link → Exchange → Bytes → Link × ℕ
unfolding request
kvs_unsubscribe s x key = request s x (key_message (codes "4") key) b'0'

-- How the system answers the calls of `kvs_connect`: the three `mkfifo`, the `open` of the server's
-- pipe, `write_all` on it, the `open` of the client's three pipes, and the response.
pub record Opening : Type 0 where
  pub makes_request : Bool
  pub makes_response : Bool
  pub makes_notification : Bool
  pub opens_server : Bool
  pub accepts : Bool
  pub response_fd : ℤ
  pub request_fd : ℤ
  pub notification_fd : ℤ
  pub reply : Reply

-- `strncpy(path, pipe_path, MAX_PIPE_PATH_LENGTH - 1)`, with the terminator behind it
abbrev pub stored_path : Bytes → Bytes
stored_path pipe_path = until_nul (take (max_pipe_path_length - 1) pipe_path)

-- The 121 bytes of a connection message.
unfoldable pub connect_message : Bytes → Bytes → Bytes → Bytes
connect_message req_path resp_path notif_path =
    codes "1"
    ++ (strncpy req_path max_pipe_path_length
        ++ (strncpy resp_path max_pipe_path_length ++ strncpy notif_path max_pipe_path_length))

abbrev pub fd_failed : ℤ → Bool
fd_failed fd = int_equal fd (negsuc 0)

-- The calls behind the message: the pipes are opened one after the other, and the response is read.
pub open_pipes : Link → Opening → Link × ℕ
open_pipes s o =
    let s1 = record s { response_fd = o.response_fd } in
    let s2 = record s1 { request_fd = o.request_fd } in
    let s3 = record s2 { notification_fd = o.notification_fd } in
    if fd_failed o.response_fd
    then (s1, 1)
    else if fd_failed o.request_fd
    then (s2, 1)
    else if fd_failed o.notification_fd
    then (s3, 1)
    else (s3, if response_code o.reply == b'0' then 0 else 1)

-- The message to the server's pipe, if it is sent, the state, and the number returned.
pub kvs_connect : Link → Opening → Bytes → Bytes → Bytes → Option Bytes × Link × ℕ
unfolding open_pipes connect_message
kvs_connect s o req_pipe_path resp_pipe_path notif_pipe_path =
    let s0 = record s {
      req_path = stored_path req_pipe_path;
      resp_path = stored_path resp_pipe_path;
      notif_path = stored_path notif_pipe_path;
    } in
    if not (o.makes_request && (o.makes_response && (o.makes_notification && o.opens_server)))
    then (none, s0, 1)
    else if o.accepts
    then (let (s', returned) = open_pipes s0 o in
        (some (connect_message s0.req_path s0.resp_path s0.notif_path), s', returned))
    else (none, s0, 1)
