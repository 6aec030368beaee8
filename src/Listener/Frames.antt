-- ===== src/Listener/Frames.antt =====
-- What the thread of src/client/api.c prints for what src/server/client.c has sent, and what one
-- interruption does to it.
use so_proj.Base.{
  ℕ, zero, suc, ◌+◌, ◌-◌, ◌<◌, ◌≡◌, refl, sym, ap, ◌∙◌, true, false, List, [], ◌∷◌, ◌++◌, Option,
  some, append_assoc, append-nil, arith, leb, length, length-append, take, drop, take-append,
  drop-append, Bytes, codes, pos,
}
use so_proj.Io.{Answer, interrupted, read_all, read_loop}
use so_proj.Io.Transfers.{interruptions, HasNoFailure, read_all-Whole}
use so_proj.Scan.Words.{HasNoNul}
use so_proj.Session.{max_write_size_response, notice_text, notification}
use so_proj.Session.Frames.{ValueHasNoNul, notification-print_notification}
use so_proj.Api.{print_notification}
use so_proj.Listener.{Listener, heard, listen_round, listen}

abbrev pub Notice : Type 0
Notice = Bytes × Option Bytes

abbrev pub Plain : List Notice → Type 0
Plain [] = Unit
Plain ((key, value) ∷ notices) = HasNoNul key × ValueHasNoNul value × Plain notices

-- What the server has sent for some notices, and what is to be printed for them.
unfoldable pub frames : List Notice → Bytes → Bytes
frames [] rest = rest
frames ((key, value) ∷ notices) rest = notification key value ++ frames notices rest

pub lines : List Notice → Bytes
lines [] = []
lines ((key, value) ∷ notices) = (notice_text key value ++ codes "\n") ++ lines notices

-- Enough answers for one frame, none of which interrupts or fails.
pub record IsEnough (answers : List Answer) : Type 0 where
  pub fine : HasNoFailure answers
  pub quiet : interruptions answers ≡ 0
  pub enough : max_write_size_response - 1 < length answers

there : (frame rest : Bytes) (n : ℕ) → length frame ≡ n → leb n (length (frame ++ rest)) ≡ true
there frame rest n size = ground (arith, length-append frame rest)

read_frame :
    (answers : List Answer) (frame rest : Bytes)
    → IsEnough answers
    → length frame ≡ max_write_size_response - 1
    → (left : List Answer) × (read_all answers
          (max_write_size_response - 1)
          (some false)
          (frame ++ rest)
        ≡ some (record {
          code = pos 1;
          buffer = frame;
          intr = some false;
          answers = left;
          rest = rest;
        }))
read_frame answers frame rest e size =
    let quiet = e.quiet in
    let enough = e.enough in
    let (r, ran, (code, buffer, intr, left)) =
      read_all-Whole answers (max_write_size_response - 1) (some false) (frame ++ rest) refl e.fine
        e.quiet (omega arith) in
    let whole = there frame rest (max_write_size_response - 1) size in
    let code' : r.code ≡ pos 1 = rw whole at code in
    let buffer' : r.buffer ≡ frame =
      buffer ∙ ap (λ (n : ℕ). take n (frame ++ rest)) (sym size) ∙ take-append frame rest in
    let left' : r.rest ≡ rest =
      left ∙ ap (λ (n : ℕ). drop n (frame ++ rest)) (sym size) ∙ drop-append frame rest in
    (
      r.answers,
      ran ∙ λ i. some (record {
        code = code' i;
        buffer = buffer' i;
        intr = intr i;
        answers = r.answers;
        rest = left' i;
      }),
    )

-- A thread between two frames, which nobody has disconnected: the array holds `frame`, the input is
-- what is left in the pipe.
abbrev pub listener : Bytes → Bytes → Bytes → Listener
listener frame input printed = record {
  intr = false;
  notification = frame ++ 0 ∷ [];
  input = input;
  printed = printed;
  disconnect = false;
  thread_finished = false;
}

listen_round-frame :
    (answers : List Answer) (old input printed : Bytes) (key : Bytes) (value : Option Bytes)
    → IsEnough answers
    → length old ≡ max_write_size_response - 1
    → HasNoNul key
    → ValueHasNoNul value
    → listen_round false false answers (listener old (notification key value ++ input) printed)
      ≡ some (
        false,
        listener (notification key value) input (printed ++ (notice_text key value ++ codes "\n")),
      )
unfolding listen_round heard
listen_round-frame answers old input printed key value enough width hk hv =
    let frame = notification key value in
    let (size, text) = notification-print_notification key value hk hv in
    let (left, ran) = read_frame answers frame input enough size in
    let behind : drop (length frame) (old ++ 0 ∷ []) ≡ 0 ∷ [] =
      ap (λ (n : ℕ). drop n (old ++ 0 ∷ [])) (size ∙ sym width) ∙ drop-append old (0 ∷ []) in
    rw (ran, behind, text)

-- While nothing interrupts it and nobody disconnects the client, the thread prints one line for each
-- notification in the pipe, in order, and takes just their bytes out of it.
pub listen-frames :
    (notices : List Notice) (answers : ℕ → List Answer) (k : ℕ) (old rest printed : Bytes)
    → ((i : ℕ) → IsEnough (answers i))
    → length old ≡ max_write_size_response - 1
    → Plain notices
    → (last : Bytes) × (listen
          (length notices)
          answers
          k
          (listener old (frames notices rest) printed)
        ≡ some (false, listener last rest (printed ++ lines notices)))
unfolding listen frames lines
listen-frames [] answers k old rest printed enough width plain = (old, rw (append-nil printed))
listen-frames ((key, value) ∷ notices) answers k old rest printed enough width (hk, hv, plain) =
    let text = notice_text key value ++ codes "\n" in
    let round =
      listen_round-frame (answers k) old (frames notices rest) printed key value (enough k) width hk
        hv in
    let (last, ran) =
      listen-frames notices answers (k + 1) (notification key value) rest (printed ++ text) enough
        (notification-print_notification key value hk hv).0 plain in
    (
      last,
      rw (listen, round)
          (ran
            ∙ ap (λ (cs : Bytes). some (false, listener last rest cs))
                (append_assoc printed text (lines notices))),
    )

-- The lines that come of printing the same array again.
pub again : ℕ → Bytes → Bytes
again zero text = []
again (suc n) text = text ++ again n text

-- With `*intr` at 1, the thread reads nothing and prints the same array in each round.
again_printed :
    (rounds k : ℕ) (answers : ℕ → List Answer) (l : Listener)
    → listen rounds answers k (record l { intr = true })
      ≡ some (
        false,
        record l {
          intr = true;
          printed =
              l.printed ++ again rounds (print_notification l.notification max_write_size_response);
        },
      )
unfolding listen listen_round heard read_all again
again_printed zero k answers l = rw (append-nil l.printed)
again_printed (suc rounds) k answers l =
    let text = print_notification l.notification max_write_size_response in
    again_printed rounds (k + 1) answers (record l { printed = l.printed ++ text })
    ∙ ap (λ (cs : Bytes). some (false, record l { intr = true; printed = cs }))
        (append_assoc l.printed text (again rounds text))

-- The round that is interrupted.
listen_round-interrupted :
    (later : List Answer) (l : Listener)
    → l.intr ≡ false
    → listen_round false false (interrupted ∷ later) l
      ≡ some (
        false,
        record l {
          intr = true;
          printed = l.printed ++ print_notification l.notification max_write_size_response;
        },
      )
unfolding listen_round heard read_all read_loop
listen_round-interrupted later l clear = rw clear

-- A thread that has read the array `frame`, and that has been interrupted since.
abbrev pub deaf : Bytes → Bytes → Bytes → Listener
deaf frame input printed = record (listener frame input printed) { intr = true }

-- A thread reads a notification and prints its line; the next read is interrupted before its first
-- byte. From then on, in every number of rounds in which nobody disconnects the client, the thread
-- reads nothing of what is in the pipe, whatever the kernel answers, and prints the line of that
-- notification again in each round, that of the interruption among them.
pub listen_interrupted :
    (rounds k : ℕ) (answers : ℕ → List Answer) (later : List Answer) (key : Bytes)
    (value : Option Bytes) (old rest printed : Bytes)
    → IsEnough (answers k)
    → answers (k + 1) ≡ interrupted ∷ later
    → length old ≡ max_write_size_response - 1
    → HasNoNul key
    → ValueHasNoNul value
    → let line = notice_text key value ++ codes "\n" in
      listen (suc (suc rounds)) answers k (listener old (notification key value ++ rest) printed)
      ≡ some
          (false, deaf (notification key value) rest ((printed ++ line) ++ again (suc rounds) line))
unfolding listen again
listen_interrupted rounds k answers later key value old rest printed enough cut width hk hv =
    let line = notice_text key value ++ codes "\n" in
    let first = listen_round-frame (answers k) old rest printed key value enough width hk hv in
    let l = listener (notification key value) rest (printed ++ line) in
    let text : print_notification l.notification max_write_size_response ≡ line =
      (notification-print_notification key value hk hv).1 in
    let second = listen_round-interrupted later l refl in
    let others =
      again_printed rounds (k + 1 + 1) answers (record l { printed = (printed ++ line) ++ line }) in
    rw (listen, first, listen, cut, second, text)
      (others
        ∙ rw text (
            ap (λ (cs : Bytes). some (false, deaf (notification key value) rest cs))
              (append_assoc (printed ++ line) line (again rounds line))))
