-- ===== src/Api/Exchanges.antt =====
-- The requests of src/client/api.c in a session whose server responds.
use so_proj.Base.{
  ℕ, ◌≡◌, inl, inr, refl, Bool, true, false, ◌||◌, [], ◌∷◌, ◌++◌, some, Bool-cases, ◌==◌, Bytes,
  codes, ℤ, negsuc, int_equal,
}
use so_proj.Api.{
  Link, replied, Exchange, post, leave, conclude, request, key_message, kvs_disconnect,
  kvs_subscribe, kvs_unsubscribe,
}

-- An exchange in which the request is sent and the server responds, well or ill.
abbrev pub IsAnswered : Exchange → Type 0
IsAnswered x = (x.accepts ≡ true) × ((op : ℕ) × (code : ℕ) × (x.reply ≡ replied op code))

-- A session that runs: the client has not left it, and its pipes are open.
pub record IsOpen (l : Link) : Type 0 where
  pub stays : l.disconnect ≡ false
  pub pipes : (int_equal l.request_fd (negsuc 0) || int_equal l.response_fd (negsuc 0)) ≡ false

-- What a request for a key leaves, and that it does not return 2.
abbrev pub Posted : Link → Bytes → Link × ℕ → Type 0
Posted l text r = (r.0 ≡ post l text) × ((r.1 == 2) ≡ false)

request-post :
    (l : Link) (x : Exchange) (text : Bytes) (good : ℕ)
    → IsOpen l
    → IsAnswered x
    → Posted l text (request l x text good)
unfolding request conclude
request-post l x text good o (sent, (op, code, reply)) =
    let stays = o.stays in
    let pipes = o.pipes in
    elim (Bool-cases (code == good)) [
      | inl well ↦ simp (stays, pipes, sent, reply, well) (refl, refl)
      | inr ill ↦ simp (stays, pipes, sent, reply, ill) (refl, refl)
    ]

pub kvs_subscribe-post :
    (l : Link) (x : Exchange) (key : Bytes)
    → IsOpen l
    → IsAnswered x
    → Posted l (key_message (codes "3") key) (kvs_subscribe l x key)
unfolding kvs_subscribe
kvs_subscribe-post l x key o answered =
    request-post l x (key_message (codes "3") key) b'1' o answered

pub kvs_unsubscribe-post :
    (l : Link) (x : Exchange) (key : Bytes)
    → IsOpen l
    → IsAnswered x
    → Posted l (key_message (codes "4") key) (kvs_unsubscribe l x key)
unfolding kvs_unsubscribe
kvs_unsubscribe-post l x key o answered =
    request-post l x (key_message (codes "4") key) b'0' o answered

pub kvs_disconnect-post :
    (l : Link) (x : Exchange) (closes : ℤ → Bool)
    → IsOpen l
    → IsAnswered x
    → (l' : Link) × (returned : ℕ) × (kvs_disconnect l true x closes ≡ some (l', returned))
      × (l'.requests ≡ l.requests ++ (codes "2" ∷ []))
unfolding kvs_disconnect leave
kvs_disconnect-post l x closes o (sent, (op, code, reply)) =
    let stays = o.stays in
    let r = leave (record l { disconnect = true; thread_finished = true }) x closes in
    elim (Bool-cases (code == b'0')) [
      | inl well ↦ (r.0, r.1, simp stays, simp (sent, reply, well))
      | inr ill ↦ (r.0, r.1, simp stays, simp (sent, reply, ill))
    ]
