-- ===== src/Fifo/Registrations.antt =====
-- The connection message of src/client/api.c, as `handle_fifo` of src/server/main.c reads it.
use so_proj.Base.{
  ℕ, ◌+◌, ◌-◌, ◌<◌, ◌≡◌, inl, inr, sym, ap, ◌∙◌, false, [], ◌++◌, some, arith, ltb, Bool-cases,
  length, length-append, length-replicate, get_or, take, drop, drop-append, take-eq_of_le,
  take-append_of_le, append-nil, ◌*◌, replicate, Bytes,
}
use so_proj.Scan.Words.{HasNoNul, until_nul-eq}
use so_proj.Operations.Texts.{isspace, trim_trailing_whitespace, trim_trailing_whitespace_lem}
use so_proj.Session.Frames.{until_nul-padded}
use so_proj.Threads.Sessions.{take-padded}
use so_proj.Api.{strncpy, connect_message}
use so_proj.Fifo.{max_pipe_path_length, path_at, parse_registration}

-- A path that a message can carry: no byte of it is zero, and it has at most 39 bytes.
pub record IsPath (path : Bytes) : Type 0 where
  pub plain : HasNoNul path
  pub fits : length path < max_pipe_path_length

-- The last byte is not a blank.
abbrev pub HasNoBlankEnd : Bytes → Type 0
HasNoBlankEnd path = isspace (get_or path (length path - 1) 0) ≡ false

trim-eq : (path : Bytes) → HasNoBlankEnd path → trim_trailing_whitespace path ≡ path
trim-eq path kept =
    let (k, cut, blanks, _) = trim_trailing_whitespace_lem path in
    elim (Bool-cases (ltb k (length path))) [
      | inr whole ↦ cut ∙ take-eq_of_le k path (ground arith)
      | inl short ↦ let blank = blanks (length path - 1) (ground arith) (ground arith) in cc
    ]

strncpy-padded :
    (path : Bytes)
    → IsPath path
    → strncpy path max_pipe_path_length ≡ path ++ replicate (max_pipe_path_length - length path) 0
strncpy-padded path p =
    let fits = p.fits in
    let whole = take-eq_of_le max_pipe_path_length path (omega arith) in
    let text = until_nul-eq path p.plain in rw (whole, text)

length-strncpy :
    (path : Bytes) → IsPath path → length (strncpy path max_pipe_path_length) ≡ max_pipe_path_length
length-strncpy path p =
    let fits = p.fits in
    rw (strncpy-padded path p, length-append, length-replicate {A = ℕ}) (omega arith)

-- A path at the start of what is left of a message.
path_at-strncpy :
    (path rest : Bytes)
    → IsPath path
    → path_at (strncpy path max_pipe_path_length ++ rest) ≡ trim_trailing_whitespace path
path_at-strncpy path rest p =
    let fits = p.fits in
    let size = length-strncpy path p in
    let first =
      take-append_of_le (max_pipe_path_length - 1) (strncpy path max_pipe_path_length) rest []
        (omega arith)
      ∙ ap (take (max_pipe_path_length - 1)) (append-nil (strncpy path max_pipe_path_length)) in
    let text =
      take-padded (max_pipe_path_length - 1) (max_pipe_path_length - length path) path (omega arith)
        (omega arith) in
    let padded = strncpy-padded path p in
    rw (first, padded, text, until_nul-padded path (max_pipe_path_length - 1 - length path) p.plain)

drop-strncpy :
    (path rest : Bytes)
    → IsPath path
    → drop max_pipe_path_length (strncpy path max_pipe_path_length ++ rest) ≡ rest
drop-strncpy path rest p =
    ap (λ (n : ℕ). drop n (strncpy path max_pipe_path_length ++ rest)) (sym (length-strncpy path p))
    ∙ drop-append (strncpy path max_pipe_path_length) rest

-- A connection message of three paths, each of at most 39 bytes and none of them zero, has the 121
-- bytes that the server reads. The server finds in it the three paths without the blanks at their
-- ends: the paths themselves if none of them ends in a blank.
pub connect_message-parse_registration :
    (request response notification : Bytes)
    → IsPath request
    → IsPath response
    → IsPath notification
    → (length (connect_message request response notification) ≡ 3 * max_pipe_path_length + 1)
      × (parse_registration (connect_message request response notification)
          ≡ some (record {
            request = trim_trailing_whitespace request;
            response = trim_trailing_whitespace response;
            notification = trim_trailing_whitespace notification;
          }))
      × ((path : Bytes) → HasNoBlankEnd path → trim_trailing_whitespace path ≡ path)
unfolding connect_message parse_registration
connect_message-parse_registration request response notification a b c =
    let last = strncpy notification max_pipe_path_length in
    let middle = strncpy response max_pipe_path_length ++ last in
    let third : path_at last ≡ trim_trailing_whitespace notification =
      ap path_at (sym (append-nil last)) ∙ path_at-strncpy notification [] c in
    (
      omega (
        arith,
        length-append (strncpy request max_pipe_path_length) middle,
        length-append (strncpy response max_pipe_path_length) last,
        length-strncpy request a,
        length-strncpy response b,
        length-strncpy notification c,
      ),
      rw (
        drop-strncpy request middle a,
        drop-strncpy response last b,
        path_at-strncpy request middle a,
        path_at-strncpy response last b,
        third,
      ),
      trim-eq,
    )
