-- ===== src/Threads/Sessions.antt =====
-- The requests that src/client/api.c writes, as `client_thread` of src/server/client.c reads them.
use so_proj.Base.{
  ℕ, zero, suc, ◌+◌, ◌-◌, ◌≤◌, ◌<◌, ◌≡◌, refl, sym, ap, ◌∙◌, Bool, true, false, List, [], ◌∷◌, ◌++◌,
  Option, some, arith, leb, length, length-append, length-replicate, take, drop, take-append,
  drop-append, take-eq_of_le, replicate, Bytes, codes, until_nul, Run, ok, fault, ◌>>=◌,
}
use so_proj.Operations.{Store}
use so_proj.Scan.Words.{HasNoNul, until_nul-eq}
use so_proj.Coperations.{max_string_size}
use so_proj.Session.{World, ClientData, client_subscribe_key, client_unsubscribe_key}
use so_proj.Session.Frames.{until_nul-padded}
use so_proj.Api.{strncpy, key_message}
use so_proj.Threads.{Thread, subscribe_round, unsubscribe_round, key_round, op_round, round, loop}

pub data Request : Type 0 where
  subscribe : (key : Bytes) → Request
  unsubscribe : (key : Bytes) → Request

-- A key that a request can carry.
abbrev pub Fits : Request → Type 0
Fits (subscribe key) = HasNoNul key × (length key ≤ max_string_size)
Fits (unsubscribe key) = HasNoNul key × (length key ≤ max_string_size)

abbrev pub AllFit : List Request → Type 0
AllFit [] = Unit
AllFit (r ∷ requests) = Fits r × AllFit requests

-- The message of a request.
abbrev pub message : Request → Bytes
message (subscribe key) = key_message (codes "3") key
message (unsubscribe key) = key_message (codes "4") key

-- What a client writes in a session: its requests, and the one to disconnect.
abbrev pub session_text : List Request → Bytes → Bytes
session_text [] rest = b'2' ∷ rest
session_text (r ∷ requests) rest = message r ++ session_text requests rest

-- The specification: the requests act on the store and the session in order.
abbrev pub act : Request → Store World → ClientData → Run (Store World × ClientData)
act (subscribe key) s c = client_subscribe_key s c key
act (unsubscribe key) s c =
    let (w, c') = client_unsubscribe_key s.world c key in ok (record s { world = w }, c')

pub act_all : List Request → Store World → ClientData → Run (Store World × ClientData)
act_all [] s c = ok (s, c)
act_all (r ∷ requests) s c = do (s', c') ← act r s c; act_all requests s' c'

pub take-padded :
    (n k : ℕ) (text : Bytes)
    → length text ≤ n
    → n - length text ≤ k
    → take n (text ++ replicate k 0) ≡ text ++ replicate (n - length text) 0
take-padded zero k [] le room = refl
take-padded (suc n) zero [] le room = absurd (omega arith)
take-padded (suc n) (suc k) [] le room =
    let whole : n - 0 ≡ n = omega arith in
    let whole' : suc n - 0 ≡ suc n = omega arith in
    let rest = take-padded n k [] (omega arith) (omega arith) in
    rw whole' (ap (◌∷◌ 0) (rest ∙ rw whole))
take-padded zero k (c ∷ text) le room = absurd (omega arith)
take-padded (suc n) k (c ∷ text) le room =
    let step : suc n - suc (length text) ≡ n - length text = omega arith in
    rw step (ap (◌∷◌ c) (take-padded n k text (omega arith) (omega arith)))

-- The 40 bytes of a key in a message.
abbrev block : Bytes → Bytes
block key = take max_string_size (strncpy key (max_string_size + 1))

block-padded :
    (key : Bytes)
    → HasNoNul key
    → length key ≤ max_string_size
    → block key ≡ key ++ replicate (max_string_size - length key) 0
block-padded key plain le =
    let whole = take-eq_of_le (max_string_size + 1) key (omega arith) in
    let text = until_nul-eq key plain in
    rw (whole, text)
      (take-padded max_string_size (max_string_size + 1 - length key) key le (omega arith))

length-block :
    (key : Bytes)
    → HasNoNul key
    → length key ≤ max_string_size
    → length (block key) ≡ max_string_size
length-block key plain le =
    rw (block-padded key plain le, length-append, length-replicate {A = ℕ}) (omega arith)

until_nul-block :
    (key : Bytes) → HasNoNul key → length key ≤ max_string_size → until_nul (block key) ≡ key
until_nul-block key plain le =
    rw (block-padded key plain le) (until_nul-padded key (max_string_size - length key) plain)

module _ (t : Thread) (key rest : Bytes) (plain : HasNoNul key)
    (le : length key ≤ max_string_size) where
  cut : take max_string_size (block key ++ rest) ≡ block key
  cut =
      ap (λ (n : ℕ). take n (block key ++ rest)) (sym (length-block key plain le))
      ∙ take-append (block key) rest

  left : drop max_string_size (block key ++ rest) ≡ rest
  left =
      ap (λ (n : ℕ). drop n (block key ++ rest)) (sym (length-block key plain le))
      ∙ drop-append (block key) rest

  there : leb max_string_size (length (block key ++ rest)) ≡ true
  there = ground (arith, length-append (block key) rest, length-block key plain le)

  round-subscribe : round false t (b'3' ∷ (block key ++ rest)) ≡ subscribe_round t key rest
  unfolding round op_round key_round
  round-subscribe = rw (there, cut, left, until_nul-block key plain le)

  round-unsubscribe : round false t (b'4' ∷ (block key ++ rest)) ≡ unsubscribe_round t key rest
  unfolding round op_round key_round
  round-unsubscribe = rw (there, cut, left, until_nul-block key plain le)

same_binds {ℓ κ μ ν} :
    {A : Type ℓ} {B : Type κ} {C : Type μ} {D : Type ν} (m : Run A) (f : A → Run B) (g : B → Run D)
    (f' : A → Run C) (g' : C → Run D)
    → ((a : A) → (f a >>= g) ≡ (f' a >>= g'))
    → ((m >>= f) >>= g) ≡ ((m >>= f') >>= g')
same_binds (ok a) f g f' g' same = same a
same_binds (fault e) f g f' g' same = refl

-- A thread that nothing forces to disconnect.
abbrev pub never : ℕ → Bool
never k = false

abbrev pub thread : Store World → ClientData → Bytes → Thread
thread s c input = record { store = s; client_data = c; input = input }

abbrev pub finished : Bytes → Store World × ClientData → Run (Option (Bool × Thread))
finished rest (s, c) = ok (some (false, thread s c rest))

-- The loop of `client_thread` on what a client writes, when nothing forces it to disconnect, has
-- the effect of the client's requests one after the other, and ends without `fail` at the request
-- to disconnect. Each key, of at most 40 bytes, arrives as it was asked for.
pub loop-act_all :
    (requests : List Request) (fuel k : ℕ) (s : Store World) (c : ClientData) (rest : Bytes)
    → AllFit requests
    → length requests < fuel
    → loop fuel never k (thread s c (session_text requests rest))
      ≡ (act_all requests s c >>= finished rest)
unfolding loop act_all
loop-act_all requests zero k s c rest fit lt = absurd (omega arith)
loop-act_all [] (suc fuel) k s c rest fit lt = refl
loop-act_all (subscribe key ∷ requests) (suc fuel) k s c rest ((plain, le), fit) lt =
    let input = session_text requests rest in
    let t = thread s c (message (subscribe key) ++ input) in
    rw (round-subscribe t key input plain le) (
      same_binds (client_subscribe_key s c key) _ _ _ _
        λ r. loop-act_all requests fuel (k + 1) r.0 r.1 rest fit (omega arith))
loop-act_all (unsubscribe key ∷ requests) (suc fuel) k s c rest ((plain, le), fit) lt =
    let input = session_text requests rest in
    let t = thread s c (message (unsubscribe key) ++ input) in
    rw (round-unsubscribe t key input plain le)
      (loop-act_all requests fuel (k + 1) _ _ rest fit (omega arith))
