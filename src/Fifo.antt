-- ===== src/Fifo.antt =====
-- `handle_fifo` of src/server/main.c: the connections that clients ask for. `opens` is what `open`
-- returns for a path. Messages on the standard error and the signal handler are left out.
pub mod Registrations
use so_proj.Base.{
  ℕ, ◌-◌, ◌*◌, ◌+◌, Bool, true, false, List, [], ◌∷◌, ◌++◌, Option, none, some, ◌==◌, if◌then◌else◌,
  get_or, take, drop, Bytes, codes, until_nul, ℤ, pos, negsuc, int_equal,
}
use so_proj.Operations.Texts.{trim_trailing_whitespace}
use so_proj.Operations.{Store}
use so_proj.Session.{World, write_all}
use so_proj.Slots.{Server, is_invalid, activate_client}

-- MAX_PIPE_PATH_LENGTH
abbrev pub max_pipe_path_length : ℕ
max_pipe_path_length = 40

-- A path as `strncpy`, the terminator at the 40th byte and `trim_trailing_whitespace` leave it.
abbrev pub path_at : Bytes → Bytes
path_at ptr = trim_trailing_whitespace (until_nul (take (max_pipe_path_length - 1) ptr))

pub record Paths : Type 0 where
  pub request : Bytes
  pub response : Bytes
  pub notification : Bytes

-- The paths in a message that asks for a connection.
unfoldable pub parse_registration : Bytes → Option Paths
parse_registration buffer =
    let ptr = drop 1 buffer in
    let ptr' = drop max_pipe_path_length ptr in
    if get_or buffer 0 0 == b'1'
    then some (record {
      request = path_at ptr;
      response = path_at ptr';
      notification = path_at (drop max_pipe_path_length ptr');
    })
    else none

-- The answer to a connection that fails.
abbrev pub refuse : Server → ℤ → Server
refuse s response_fd =
    let store = s.store in
    record s { store = record store { world = (write_all store.world response_fd (codes "11")).0 } }

abbrev pub activated : ℤ → Server × ℤ → Server
activated response_fd (s, returned) = if int_equal returned (pos 0) then s else refuse s response_fd

-- The pipes are opened in this order; the result is `none` while `activate_client` waits.
unfoldable pub connect : Server → (Bytes → ℤ) → Paths → Option Server
connect s opens p =
    let response_fd = opens p.response in
    let request_fd = opens p.request in
    let notification_fd = opens p.notification in
    if is_invalid response_fd
    then some s
    else if is_invalid request_fd
    then some (refuse s response_fd)
    else if is_invalid notification_fd
    then some (refuse s response_fd)
    else elim (activate_client s request_fd response_fd notification_fd) [
      | none ↦ none
      | some r ↦ some (activated response_fd r)
    ]

-- One round of the loop with the 121 bytes of a message. `eintr` tells whether `errno` is EINTR
-- behind `read_all`, as a call that was interrupted before has left it: the message is then lost.
unfoldable pub fifo_round : Server → (Bytes → ℤ) → Bool → Bytes → Option Server
unfolding connect parse_registration
fifo_round s opens eintr buffer =
    if eintr
    then some s
    else elim (parse_registration buffer) [ none ↦ some s | some p ↦ connect s opens p ]
