-- ===== src/Http/Response/Space.antt =====
-- The space for the headers of a response, if it is short: Connection.cpp, `ResponseHandler`.
use mini_web_srv.Base.{
  ℕ, ◌+◌, ◌-◌, ◌%◌, ◌^◌, ◌≤◌, ◌<◌, ◌≡◌, refl, ◌∙◌, Bool, true, false, Bool-cases, Option-cases, inl,
  inr, Option, none, some, List, [], ◌∷◌, ◌++◌, Bytes, arith, ltb, leb, ◌==◌, length, length-append,
  length-take, length-tabulate, codes, take, tabulate,
}
use mini_web_srv.Http.Response.{
  Response, status_line, type_line, cors_line, length_line, extra_line, print, print_date,
  print_extra, print_extras, and_cors, and_date, and_then, write_headers,
}
use mini_web_srv.Http.Response.Laws.{fixed_text, length-extra_line, write_headers-fixed}

-- Headers of which each is below `2 ^ 32` bytes.
abbrev pub AreShort : List (Option (Bytes × Bytes)) → Type 0
AreShort [] = Unit {0}
AreShort (none ∷ hs) = AreShort hs
AreShort (some (name, value) ∷ hs) = (length name + length value + 4 < 2 ^ 32) × AreShort hs

module _ (garbage : ℕ → ℕ) (room : ℕ) where
  -- A header that does not fit is left out.
  print_extras-bounded :
      (hs : List (Option (Bytes × Bytes))) (out : Bytes)
      → room < 2 ^ 32
      → AreShort hs
      → length out < room
      → (out' : Bytes) × (print_extras garbage room hs out ≡ some out') × (length out' < room)
  unfolding print_extras print_extra
  print_extras-bounded [] out w k l = (out, refl, l)
  print_extras-bounded (none ∷ hs) out w k l = print_extras-bounded hs out w k l
  print_extras-bounded (some (name, value) ∷ hs) out w k l =
      let line = extra_line name value in
      let n = length-extra_line name value in
      let past : ltb room (length out) ≡ false = ground (arith, l) in
      elim (Bool-cases (ltb ((length name + length value + 4) % 2 ^ 32) (room - length out))) [
        | inr e ↦ rw (print_extras, print_extra, past, e) (print_extras-bounded hs out w k.1 l)
        | inl e ↦
            (let fits : leb (length out + length line) (room + 2) ≡ true =
                ground (arith, n, e, k, l) in
              rw (print_extras, print_extra, past, e, fits)
                (print_extras-bounded hs (out ++ line) w k.1
                  (ground (arith, length-append out line, n, e, k, l))))
      ]

  print-some :
      (text out : Bytes)
      → length out ≤ room
      → (o : Bytes) × (print garbage room text out ≡ some o) × (length o ≡ length out + length text)
  unfolding print
  print-some text out l =
      let past : ltb room (length out) ≡ false = ground (arith, l) in
      elim (Bool-cases (ltb (length text) (room - length out))) [
        | inl e ↦ rw (print, past, e) (out ++ text, refl, length-append out text)
        | inr e ↦
            (let space = room - length out in
              let fill =
                tabulate (length text - space)
                  (λ i. garbage (room + (length text - space - 1 - i))) in
              let f =
                length-tabulate (length text - space)
                  (λ i. garbage (room + (length text - space - 1 - i))) in
              elim (Bool-cases (space == 0)) [
                | inl z ↦
                    rw (print, past, e, z)
                      (
                        (out ++ []) ++ fill,
                        refl,
                        ground (
                          arith,
                          length-append (out ++ []) fill,
                          length-append out [],
                          f,
                          z,
                          e,
                          l,
                        ),
                      )
                | inr z ↦
                    rw (print, past, e, z)
                      (
                        (out ++ (take (space - 1) text ++ 0 ∷ [])) ++ fill,
                        refl,
                        ground (
                          arith,
                          length-append (out ++ (take (space - 1) text ++ 0 ∷ [])) fill,
                          length-append out (take (space - 1) text ++ 0 ∷ []),
                          length-append (take (space - 1) text) (0 ∷ []),
                          length-take (space - 1) text,
                          f,
                          z,
                          e,
                          l,
                        ),
                      )
              ])
      ]

  -- A position behind the space, or a write that has gone wrong.
  abbrev IsPast : Option Bytes → Type 0
  IsPast none = Unit {0}
  IsPast (some out) = room < length out

  print-past :
      (text : Bytes) (o : Option Bytes)
      → 1 < length text
      → IsPast o
      → and_then garbage room o (print garbage room text) ≡ none
  unfolding print
  print-past text none l p = refl
  print-past text (some out) l p = ground (arith, p, l)

  typed-IsPast :
      (text out : Bytes) → room < length out + length text → IsPast (print garbage room text out)
  unfolding print
  typed-IsPast text out l = elim (Bool-cases (ltb room (length out))) [
    | inl e ↦ elim (Bool-cases (leb (length out + length text + 1) (room + 2))) [
      | inl k ↦ rw (print, e, k) (omega (arith, length-append out text, l))
      | inr k ↦ rw (print, e, k) tt
    ]
    | inr e ↦
        (let (o, p, n) = print-some text out (ground (arith, e)) in rw p (omega (arith, n, l)))
  ]

  length_line-long : (r : Response) → 1 < length (length_line r)
  unfolding length_line
  length_line-long r = elim (Option-cases r.length) [
    | inl e ↦ rw (length_line, e) (omega arith)
    | inr (n, e) ↦ rw (length_line, e) (omega arith)
  ]

  and_cors-IsPast : (b : Bool) (o : Option Bytes) → IsPast o → IsPast (and_cors garbage room b o)
  unfolding and_cors
  and_cors-IsPast false o p = p
  and_cors-IsPast true o p = rw (print-past cors_line o (omega arith) p) tt

  and_date-IsPast :
      (d : Option Bytes) (o : Option Bytes) → IsPast o → IsPast (and_date garbage room d o)
  unfolding and_date print_date
  and_date-IsPast none o p = p
  and_date-IsPast (some d) none p = tt
  and_date-IsPast (some d) (some out) p =
      elim (Bool-cases (leb (length out + length d + 1) (room + 2))) [
        | inl e ↦ rw (print_date, e) (omega (arith, length-append out d, p))
        | inr e ↦ rw (print_date, e) tt
      ]

  -- If the lines that every response has fit, whatever the extra headers are, nothing is written
  -- behind the end of the block: each extra header is written whole or left out, and what is committed
  -- is within the block; the space and every extra header are below `2 ^ 32`.
  pub write_headers-bounded :
      (r : Response) (server : Bytes) (cors : Bool) (date : Option Bytes)
      → room < 2 ^ 32
      → AreShort r.extra
      → length (fixed_text r server cors date) < room
      → (out : Bytes) × (write_headers garbage room r server cors date ≡ some out)
        × (length out ≤ room + 2)
  write_headers-bounded r server cors date w k l =
      let (o, e, n) = print_extras-bounded r.extra (fixed_text r server cors date) w k l in
      let (p, f, m) = print-some (codes "\r\n") o (omega (arith, n)) in
      (p, write_headers-fixed garbage room r server cors date l ∙ rw e f, omega (arith, m, n))

  -- If the status line and the content type are longer than the space, the block is overrun.
  pub write_headers-none :
      (r : Response) (server : Bytes) (cors : Bool) (date : Option Bytes)
      → room < length (status_line r server ++ type_line r)
      → write_headers garbage room r server cors date ≡ none
  unfolding write_headers
  write_headers-none r server cors date l =
      let a = status_line r server in
      let b = type_line r in
      let (o, e, n) = print-some a [] (omega arith) in
      let typed : IsPast (and_then garbage room (print garbage room a []) (print garbage room b)) =
        rw e (typed-IsPast b o (omega (arith, n, length-append a b, l))) in
      rw
        (
          write_headers,
          print-past (length_line r) _ (length_line-long r)
              (and_date-IsPast date _ (and_cors-IsPast cors _ typed)),
        )
        refl
