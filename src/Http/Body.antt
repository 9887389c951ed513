-- ===== src/Http/Body.antt =====
-- Connection.cpp, `ResponseHandler`: the body of a response, behind its headers.
-- A response's `Read` is outside: its answers are a list, in order, each with the bytes it put into
-- the buffer and whether it was the last. `none` says that the list ended before the loop did. What
-- is committed to the write buffer is the list of bytes that go out.
pub mod Chunked
pub mod Length
use mini_web_srv.Base.{
  ℕ, zero, suc, ◌+◌, ◌-◌, ◌/◌, ◌%◌, Bool, true, false, ◌&&◌, ◌||◌, Option, none, some, List, [],
  ◌∷◌, ◌++◌, Bytes, ltb, leb, ◌==◌, if◌then◌else◌, length, codes,
}

pub record Read : Type 0 where
  pub bytes : Bytes
  pub is_finished : Bool

-- With `Content-Length`: the bytes written, `TotalWriteLength`, and `RetVal`. The handler returns
-- `RetVal`, and false besides when the response has a connection to go on with (`NextConn`).
pub record Written : Type 0 where
  pub out : Bytes
  pub total : ℕ
  pub keep : Bool

abbrev pub prepend : Bytes → Written → Written
prepend bs w = record w { out = bs ++ w.out; total = length bs + w.total }

unfoldable pub length_body : ℕ → List Read → Option Written
length_body zero rs = some (record { out = []; total = 0; keep = false })
length_body (suc n) [] = none
length_body (suc n) (r ∷ rs) =
    let left = if leb (length r.bytes) (suc n) then suc n - length r.bytes else 0 in
    let rest = length_body left rs in
    let last : Written = record {
      out = r.bytes;
      total = length r.bytes;
      keep = r.is_finished && left == 0;
    } in
    if r.is_finished || left == 0
    then some last
    else elim rest [ none ↦ none | some w ↦ some (prepend r.bytes w) ]

-- A digit of `%08x`.
unfoldable pub hex_char : ℕ → ℕ
hex_char n = if ltb n 10 then b'0' + n else b'a' + (n - 10)

-- `%0<k>x` of a number below `16 ^ k`.
unfoldable pub hex_chars : ℕ → ℕ → Bytes
hex_chars zero n = []
hex_chars (suc k) n = hex_chars k (n / 16) ++ hex_char (n % 16) ∷ []

-- One chunk: the length in eight digits (an `unsigned int` has no more), the data, the line breaks.
unfoldable pub chunk : Bytes → Bytes
chunk bs = hex_chars 8 (length bs) ++ (codes "\r\n" ++ (bs ++ codes "\r\n"))

abbrev pub final_chunk : Bytes
final_chunk = codes "0\r\n\r\n"

abbrev pub is_empty : Bytes → Bool
is_empty [] = true
is_empty (b ∷ bs) = false

-- Without a length: the bytes written, and `TotalWriteLength`.
unfoldable pub chunked_body : List Read → Option (Bytes × ℕ)
chunked_body [] = none
chunked_body (r ∷ rs) =
    let rest = chunked_body rs in
    if is_empty r.bytes
    then some (final_chunk, 0)
    else if r.is_finished
    then some (chunk r.bytes ++ final_chunk, length r.bytes)
    else elim rest [
      | none ↦ none
      | some (out, total) ↦ some (chunk r.bytes ++ out, length r.bytes + total)
    ]
