-- ===== src/Http/Response/Laws.antt =====
-- The headers of a response, if there is space for all of them: Connection.cpp, `ResponseHandler`.
use mini_web_srv.Base.{
  ℕ, ◌+◌, ◌-◌, ◌%◌, ◌^◌, ◌<◌, ◌≡◌, refl, sym, ap, ◌∙◌, Bool, true, false, Option, none, some, List,
  [], ◌∷◌, ◌++◌, Bytes, arith, ltb, leb, if◌then◌else◌, length, length-append, append_assoc,
  append-nil, codes,
}
use mini_web_srv.Http.Response.{
  Response, status_line, type_line, cors_line, length_line, extra_line, print, print_date,
  print_extra, print_extras, and_cors, and_date, and_then, write_headers,
}

abbrev pub extras_text : List (Option (Bytes × Bytes)) → Bytes
extras_text [] = []
extras_text (none ∷ hs) = extras_text hs
extras_text (some (name, value) ∷ hs) = extra_line name value ++ extras_text hs

abbrev pub optional : Bool → Bytes → Bytes
optional b text = if b then text else []

abbrev pub date_text : Option Bytes → Bytes
date_text none = []
date_text (some d) = d

-- The lines that every response has, and all of them.
abbrev pub fixed_text : Response → Bytes → Bool → Option Bytes → Bytes
fixed_text r server cors date =
    (((status_line r server ++ type_line r) ++ optional cors cors_line) ++ date_text date)
    ++ length_line r

pub length-extra_line :
    (name value : Bytes) → length (extra_line name value) ≡ length name + length value + 4
length-extra_line name value = omega (
  arith,
  length-append (name ++ codes ": " ++ value) (codes "\r\n"),
  length-append (name ++ codes ": ") value,
  length-append name (codes ": "),
)

module _ (garbage : ℕ → ℕ) (room : ℕ) where
  print-fits :
      (text out : Bytes)
      → length out + length text < room
      → print garbage room text out ≡ some (out ++ text)
  unfolding print
  print-fits text out l = ground (arith, l)

  print_date-fits :
      (text out : Bytes)
      → length out + length text < room
      → print_date garbage room text out ≡ some (out ++ text)
  unfolding print_date
  print_date-fits text out l = ground (arith, l)

  print_extras-fits :
      (hs : List (Option (Bytes × Bytes))) (out : Bytes)
      → room < 2 ^ 32
      → length out + length (extras_text hs) < room
      → print_extras garbage room hs out ≡ some (out ++ extras_text hs)
  unfolding print_extras print_extra
  print_extras-fits [] out w l = ap some (sym (append-nil out))
  print_extras-fits (none ∷ hs) out w l = print_extras-fits hs out w l
  print_extras-fits (some (name, value) ∷ hs) out w l =
      let line = extra_line name value in
      let n = length-extra_line name value in
      let whole = length-append line (extras_text hs) in
      let past : ltb room (length out) ≡ false = ground (arith, l) in
      let space : ltb ((length name + length value + 4) % 2 ^ 32) (room - length out) ≡ true =
        ground (arith, n, whole, w, l) in
      let fits : leb (length out + length line) (room + 2) ≡ true = ground (arith, whole, l) in
      rw (print_extras, print_extra, past, space, fits)
        (print_extras-fits hs (out ++ line) w (omega (arith, length-append out line, whole, l))
          ∙ ap some (append_assoc out line (extras_text hs)))

  cors-fits :
      (b : Bool) (out : Bytes)
      → length out + length (optional b cors_line) < room
      → and_cors garbage room b (some out) ≡ some (out ++ optional b cors_line)
  unfolding and_cors
  cors-fits true out l = print-fits cors_line out l
  cors-fits false out l = ap some (sym (append-nil out))

  date-fits :
      (d : Option Bytes) (out : Bytes)
      → length out + length (date_text d) < room
      → and_date garbage room d (some out) ≡ some (out ++ date_text d)
  unfolding and_date
  date-fits none out l = ap some (sym (append-nil out))
  date-fits (some t) out l = print_date-fits t out l

  -- The fixed lines, while they fit.
  pub write_headers-fixed :
      (r : Response) (server : Bytes) (cors : Bool) (date : Option Bytes)
      → length (fixed_text r server cors date) < room
      → write_headers garbage room r server cors date
        ≡ and_then garbage room
            (print_extras garbage room r.extra (fixed_text r server cors date))
            (print garbage room (codes "\r\n"))
  unfolding write_headers
  write_headers-fixed r server cors date l =
      let a = status_line r server in
      let b = type_line r in
      let c = optional cors cors_line in
      let d = date_text date in
      let e = length_line r in
      let ab = length-append a b in
      let abc = length-append (a ++ b) c in
      let abcd = length-append ((a ++ b) ++ c) d in
      let all = length-append (((a ++ b) ++ c) ++ d) e in
      rw
        (
          write_headers,
          print-fits a [] (omega (arith, ab, abc, abcd, all, l)),
          print-fits b a (omega (arith, ab, abc, abcd, all, l)),
          cors-fits cors (a ++ b) (omega (arith, ab, abc, abcd, all, l)),
          date-fits date ((a ++ b) ++ c) (omega (arith, ab, abc, abcd, all, l)),
          print-fits e (((a ++ b) ++ c) ++ d) (omega (arith, ab, abc, abcd, all, l)),
        )
        refl

  -- If everything fits, with the empty line and a zero behind it, what is committed is the status line,
  -- the fixed headers, every extra header in order, and the empty line; the space is below `2 ^ 32`.
  pub write_headers-fits :
      (r : Response) (server : Bytes) (cors : Bool) (date : Option Bytes)
      → room < 2 ^ 32
      → length (fixed_text r server cors date) + length (extras_text r.extra) + 2 < room
      → write_headers garbage room r server cors date
        ≡ some ((fixed_text r server cors date ++ extras_text r.extra) ++ codes "\r\n")
  write_headers-fits r server cors date w l =
      let f = fixed_text r server cors date in
      let x = extras_text r.extra in
      write_headers-fixed r server cors date (omega (arith, l))
      ∙ rw (print_extras-fits r.extra f w (omega (arith, l)))
          (print-fits (codes "\r\n") (f ++ x) (omega (arith, length-append f x, l)))
