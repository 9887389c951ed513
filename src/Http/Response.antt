-- ===== src/Http/Response.antt =====
-- Connection.cpp, `ResponseHandler`: the choice of the response, and its headers, which are printed into
-- a block of the write buffer. The bytes of the block that nothing has written are the parameter
-- `garbage`; `room` is the block without the two bytes that are left at its end. `none` is a write
-- behind the end of the block.
pub mod Laws
pub mod Space
mod Tests
use mini_web_srv.Base.{
  ℕ, zero, suc, ◌+◌, ◌-◌, ◌/◌, ◌%◌, ◌^◌, Bool, true, false, ◌&&◌, Option, none, some, List, [], ◌∷◌,
  ◌++◌, Bytes, ltb, leb, ◌==◌, if◌then◌else◌, length, take, tabulate, codes,
}

-- What the sources answer: a response, a standard exception, or any other one.
pub data Created (R E : Type 0) : Type 0 where
  made : R → Created R E
  failed : E → Created R E
  failed_other : Created R E

-- What the handler of errors and the source of the program give for a request.
pub record Makers (R E : Type 0) : Type 0 where
  pub create : Created R E
  pub create_from_exception : E → R
  pub create_error : R

-- The `catch` clauses.
unfoldable pub rescue : {R E : Type 0} → Makers R E → Created R E → R
rescue m (made r) = r
rescue m (failed e) = m.create_from_exception e
rescue m failed_other = m.create_error

-- The response, and whether the header for other origins is written; first comes the answer of the
-- source of preflight responses, if there is one.
unfoldable pub choose : {R E : Type 0} → Option (Created (Option R) E) → Makers R E → R × Bool
unfolding rescue
choose none m = (rescue m m.create, false)
choose (some (made none)) m = (rescue m m.create, true)
choose (some (made (some r))) m = (r, false)
choose (some (failed e)) m = (m.create_from_exception e, true)
choose (some failed_other) m = (m.create_error, true)

-- What the handler asks of a response. `length` is `none` for the number that says that it is not
-- known; an extra header is `none` if `GetExtraHeader` returns false.
pub record Response : Type 0 where
  pub code : ℕ
  pub content_type : Bytes
  pub charset : Option Bytes
  pub length : Option ℕ
  pub extra : List (Option (Bytes × Bytes))

-- `%d` and `%llu`, of at most as many digits as the fuel.
unfoldable pub dec_chars : ℕ → ℕ → Bytes
dec_chars zero n = []
dec_chars (suc k) n =
    let rest = dec_chars k (n / 10) in
    if ltb n 10 then (b'0' + n) ∷ [] else rest ++ (b'0' + n % 10) ∷ []

-- Common.cpp, `GetResponseName`.
unfoldable pub get_response_name : ℕ → Bytes
get_response_name code =
    if code == 200
    then codes "OK"
    else if code == 301
    then codes "MovedPermanently"
    else if code == 302
    then codes "Found"
    else if code == 303
    then codes "SeeOther"
    else if code == 304
    then codes "NotModified"
    else if code == 401
    then codes "Unauthorized"
    else if code == 403
    then codes "YouShallNotPass"
    else if code == 404
    then codes "NotFound"
    else if code == 500
    then codes "ServerError"
    else codes "Whatever"

unfoldable pub status_line : Response → Bytes → Bytes
status_line r server =
    codes "HTTP/1.1 "
    ++ dec_chars 10 r.code
    ++ codes " "
    ++ get_response_name r.code
    ++ codes "\r\nServer: "
    ++ server
    ++ codes "\r\n"

unfoldable pub type_line : Response → Bytes
type_line r = elim r.charset [
  | none ↦ codes "Content-Type: " ++ r.content_type ++ codes "\r\n"
  | some charset ↦
      codes "Content-Type: " ++ r.content_type ++ codes "; charset=\"" ++ charset ++ codes "\"\r\n"
]

abbrev pub cors_line : Bytes
cors_line = codes "Access-Control-Allow-Origin: *\r\n"

unfoldable pub length_line : Response → Bytes
length_line r = elim r.length [
  | none ↦ codes "Transfer-Encoding: chunked\r\n"
  | some n ↦ codes "Content-Length: " ++ dec_chars 20 n ++ codes "\r\n"
]

abbrev pub extra_line : Bytes → Bytes → Bytes
extra_line name value = name ++ codes ": " ++ value ++ codes "\r\n"

module _ (garbage : ℕ → ℕ) (room : ℕ) where
  -- `CurrPos+=snprintf(CurrPos, CurrPosEnd-CurrPos, …)`, where `out` is the bytes up to `CurrPos`: the
  -- text is cut to the space and ended with a zero, but its whole length is added. A position behind
  -- the end makes the space a huge number.
  unfoldable pub print : Bytes → Bytes → Option Bytes
  print text out =
      if ltb room (length out)
      then (if leb (length out + length text + 1) (room + 2) then some (out ++ text) else none)
      else (let space = room - length out in
          if ltb (length text) space
          then some (out ++ text)
          else (let cut = if space == 0 then [] else take (space - 1) text ++ 0 ∷ [] in
              some (
                out
                ++ cut
                ++ tabulate (length text - space)
                    (λ i. garbage (room + (length text - space - 1 - i))))))

  -- `CurrPos+=strftime(CurrPos,40, …)`, which does not look at the space.
  unfoldable pub print_date : Bytes → Bytes → Option Bytes
  print_date text out =
      if leb (length out + length text + 1) (room + 2) then some (out ++ text) else none

  unfoldable pub print_extra : Option (Bytes × Bytes) → Bytes → Option Bytes
  print_extra none out = some out
  print_extra (some (name, value)) out =
      if ltb room (length out)
      then none
      else if ltb ((length name + length value + 4) % 2 ^ 32) (room - length out)
      then (if leb (length out + length (extra_line name value)) (room + 2)
          then some (out ++ extra_line name value)
          else none)
      else some out

  unfoldable pub print_extras : List (Option (Bytes × Bytes)) → Bytes → Option Bytes
  print_extras [] out = some out
  print_extras (h ∷ hs) out = elim (print_extra h out) [
    | none ↦ none
    | some out' ↦ print_extras hs out'
  ]

  abbrev pub and_then : Option Bytes → (Bytes → Option Bytes) → Option Bytes
  and_then none f = none
  and_then (some out) f = f out

  unfoldable pub and_cors : Bool → Option Bytes → Option Bytes
  and_cors false o = o
  and_cors true o = and_then o (print cors_line)

  unfoldable pub and_date : Option Bytes → Option Bytes → Option Bytes
  and_date none o = o
  and_date (some date) o = and_then o (print_date date)

  -- The headers, as they are committed. `date` is `none` if the clock gives no date.
  unfoldable pub write_headers : Response → Bytes → Bool → Option Bytes → Option Bytes
  write_headers r server cors date =
      let status = print (status_line r server) [] in
      let typed = and_then status (print (type_line r)) in
      let dated = and_date date (and_cors cors typed) in
      let measured = and_then dated (print (length_line r)) in
      let extended = and_then measured (print_extras r.extra) in
      and_then extended (print (codes "\r\n"))
