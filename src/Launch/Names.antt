-- ===== src/Launch/Names.antt =====
-- The path of the FIFO, as src/client/main.c and src/server/main.c make it.
use so_proj.Base.{
  ◌+◌, ◌≤◌, ◌++◌, length-append, take-eq_of_le, ◌≡◌, codes, refl, sym, ◌∙◌, ltb, arith, Bool-cases,
  inl, inr, length, Bytes, ok,
}
use so_proj.Client.{path_with}
use so_proj.Api.{max_pipe_path_length}
use so_proj.Launch.{fifo_name}

-- A client that is given the name of the server's FIFO asks for the server's own path, unless
-- `strncat` writes behind its array.
path_with-fifo_name :
    (name path : Bytes) → path_with (codes "/tmp/") name ≡ ok path → path ≡ fifo_name name
path_with-fifo_name name path e =
    let start = codes "/tmp/" in
    elim (Bool-cases (ltb (length start + length name) max_pipe_path_length)) [
      | inl fits ↦
          let same : ok (start ++ name) ≡ ok path = sym (rw fits refl) ∙ e in
          let read : start ++ name ≡ path = cc in
          let few : length (start ++ name) ≤ 39 = ground (arith, length-append start name, fits) in
          sym (take-eq_of_le 39 (start ++ name) few ∙ read)
      | inr behind ↦ absurd (grind (arith, behind, e))
    ]
