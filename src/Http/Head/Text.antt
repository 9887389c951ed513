-- ===== src/Http/Head/Text.antt =====
-- A head as text: its lines, scanned.
use mini_web_srv.Base.{
  subst, take, drop, take-append-length, drop-append-length, ℕ, ◌+◌, ◌≡◌, ◌<◌, refl, sym, ap, ap₂,
  ◌∙◌, Bool, true, false, some, List, [], ◌∷◌, ◌++◌, Bytes, map, arith, lt→ltb, ◌==◌, length,
  append_assoc, append-nil, codes, length-append,
}
use mini_web_srv.ReadBuff.{Buff, relevant_data}
use mini_web_srv.ReadBuff.Inv.{IsValid}
use mini_web_srv.Http.Head.Reads.{NoneEmpty, HasRoom, stream}
use mini_web_srv.Http.Head.Chunks.{Agrees, header_handler-Agrees}
use mini_web_srv.Http.RequestLine.{Request, parse_request_line}
use mini_web_srv.Http.RequestLine.RoundTrip.{Lacks}
use mini_web_srv.Http.HeaderLine.{extract_header}
use mini_web_srv.Http.Head.{
  headers_done, header_handler, Head, more, done, end_line, scan_byte, shift, scan, fresh_head,
}
use mini_web_srv.Http.Head.Scan.{scan_then, scan-append, shift-shift, shift_zero}

abbrev pub is_newline : ℕ → Bool
is_newline c = c == b'\n'

-- A line that the handler reads as one: no line break inside, and more than the `\r` at its end.
abbrev pub IsLine : Bytes → Type 0
IsLine l = Lacks is_newline l × (1 < length l)

abbrev pub lines_text : List Bytes → Bytes
lines_text [] = []
lines_text (l ∷ ls) = l ++ b'\n' ∷ lines_text ls

abbrev pub AreLines : List Bytes → Type 0
AreLines [] = Unit {0}
AreLines (l ∷ ls) = IsLine l × AreLines ls

scan_plain :
    (h : Head) (l : Bytes) → Lacks is_newline l → scan h l ≡ more (record h { line = h.line ++ l })
unfolding scan scan_byte
scan_plain h [] k = ap (λ x. more (record h { line = x })) (sym (append-nil h.line))
scan_plain h (c ∷ cs) k =
    rw (scan, scan_byte, k.0)
      (ap (shift 1) (scan_plain (record h { line = h.line ++ c ∷ [] }) cs k.1)
        ∙ ap (λ x. more (record h { line = x })) (append_assoc h.line (c ∷ []) cs))

scan_break :
    (h h' : Head) (rest : Bytes)
    → 1 < length h.line
    → end_line h ≡ more h'
    → scan h (b'\n' ∷ rest) ≡ shift 1 (scan h' rest)
unfolding scan scan_byte
scan_break h h' rest l e = rw (scan, scan_byte, lt→ltb 1 (length h.line) l, e) refl

-- A line and its break, from the start of a line.
scan_line :
    (h h' : Head) (l rest : Bytes)
    → IsLine l
    → h.line ≡ []
    → end_line (record h { line = l }) ≡ more h'
    → scan h (l ++ b'\n' ∷ rest) ≡ shift (length l + 1) (scan h' rest)
scan_line h h' l rest k s e =
    scan-append h l (b'\n' ∷ rest)
    ∙ ap (λ r. scan_then (length l) r (b'\n' ∷ rest))
        (scan_plain h l k.0 ∙ ap (λ x. more (record h { line = x ++ l })) s)
    ∙ ap (shift (length l)) (scan_break (record h { line = l }) h' rest k.1 e)
    ∙ shift-shift (length l) 1 (length l + 1) (scan h' rest) refl

found_line :
    (h : Head)
    → h.found ≡ true
    → end_line h ≡ more (record h { headers = h.headers ++ extract_header h.line ∷ []; line = [] })
unfolding end_line
found_line h f = rw f refl

first_line :
    (h : Head) (r : Request)
    → h.found ≡ false
    → parse_request_line h.request h.line ≡ some (r, true)
    → end_line h ≡ more (record h { request = r; found = true; line = [] })
unfolding end_line
first_line h r f e = rw (f, e) refl

scan_headers :
    (h : Head) (ls : List Bytes) (rest : Bytes)
    → h.found ≡ true
    → h.line ≡ []
    → AreLines ls
    → scan h (lines_text ls ++ rest)
      ≡ shift
          (length (lines_text ls))
          (scan (record h { headers = h.headers ++ map extract_header ls; line = [] }) rest)
scan_headers h [] rest f s k =
    sym (shift_zero _)
    ∙ ap (λ x. shift 0 (scan x rest))
        (ap₂ (λ hs l. record h { headers = hs; line = l }) (sym (append-nil h.headers)) s)
scan_headers h (l ∷ ls) rest f s k =
    let hs = h.headers ++ extract_header l ∷ [] in
    let h' = record h { headers = hs; line = [] } in
    ap (scan h) (append_assoc l (b'\n' ∷ lines_text ls) rest)
    ∙ scan_line h h' l (lines_text ls ++ rest) k.0 s (found_line (record h { line = l }) f)
    ∙ ap (shift (length l + 1)) (scan_headers h' ls rest f refl k.1)
    ∙ shift-shift (length l + 1) (length (lines_text ls)) (length (l ++ b'\n' ∷ lines_text ls)) _
        (omega (arith, length-append l (b'\n' ∷ lines_text ls)))
    ∙ ap
        (λ x.
          shift (length (l ++ b'\n' ∷ lines_text ls))
            (scan (record h { headers = x; line = [] }) rest))
        (append_assoc h.headers (extract_header l ∷ []) (map extract_header ls))

empty_line :
    (h : Head) (rest : Bytes)
    → h.line ≡ []
    → scan h (codes "\r\n" ++ rest) ≡ done (record h { line = codes "\r" }) 2
unfolding scan scan_byte
empty_line h rest s = rw (scan, scan_byte, s) refl

-- The text of a head: the request line, the header lines and the empty line.
abbrev pub head_text : Bytes → List Bytes → Bytes
head_text first ls = lines_text (first ∷ ls) ++ codes "\r\n"

-- The scan of a head's text finds the request of its first line and every header, in order, and stops
-- behind the empty line, whatever comes after it, if the first line is a request line and no line has
-- a line break inside or is empty.
pub scan-head_text :
    (r r' : Request) (first : Bytes) (ls : List Bytes) (rest : Bytes)
    → AreLines (first ∷ ls)
    → parse_request_line r first ≡ some (r', true)
    → scan (fresh_head r) (head_text first ls ++ rest)
      ≡ done
          (record {
            request = r';
            found = true;
            headers = map extract_header ls;
            line = codes "\r";
          })
          (length (head_text first ls))
scan-head_text r r' first ls rest k e =
    let h = fresh_head r in
    let h' = record h { request = r'; found = true } in
    let body = codes "\r\n" ++ rest in
    let whole : length first + 1 + (length (lines_text ls) + 2) ≡ length (head_text first ls) =
      omega (
        arith,
        length-append (lines_text (first ∷ ls)) (codes "\r\n"),
        length-append first (b'\n' ∷ lines_text ls),
      ) in
    ap (scan h) (
      append_assoc (lines_text (first ∷ ls)) (codes "\r\n") rest
      ∙ append_assoc first (b'\n' ∷ lines_text ls) body)
    ∙ scan_line h h' first (lines_text ls ++ body) k.0 refl
        (first_line (record h { line = first }) r' refl e)
    ∙ ap (shift (length first + 1)) (
        scan_headers h' ls body refl refl k.1
        ∙ ap (shift (length (lines_text ls))) (empty_line _ rest refl))
    ∙ ap
        (done (record {
          request = r';
          found = true;
          headers = map extract_header ls;
          line = codes "\r";
        }))
        whole

pub header_handler-head_text :
    (r r' : Request) (b : Buff) (reads : List Bytes) (first : Bytes) (ls : List Bytes)
    (rest : Bytes)
    → IsValid b
    → NoneEmpty reads
    → HasRoom b reads
    → stream b reads ≡ head_text first ls ++ rest
    → AreLines (first ∷ ls)
    → parse_request_line r first ≡ some (r', true)
    → (b' : Buff) × (rs : List Bytes) × (header_handler r b reads
        ≡ some (
            headers_done
              (record {
                request = r';
                found = true;
                headers = map extract_header ls;
                line = codes "\r";
              })
              b'
              rs))
      × IsValid b'
      × (relevant_data b' ≡ relevant_data b ++ head_text first ls)
      × (stream b' rs ≡ rest)
header_handler-head_text r r' b reads first ls rest v ne room e k p =
    let s = ap (scan (fresh_head r)) e ∙ scan-head_text r r' first ls rest k p in
    let (b', rs, o, v', kept, left) =
      subst (λ x. Agrees b reads x (header_handler r b reads)) s
        (header_handler-Agrees r b reads v ne room) in
    let n = length (head_text first ls) in
    (
      b',
      rs,
      o,
      v',
      kept
          ∙ ap (λ x. relevant_data b ++ take n x) e
          ∙ ap (◌++◌ (relevant_data b)) (take-append-length (head_text first ls) rest),
      left ∙ ap (drop n) e ∙ drop-append-length (head_text first ls) rest,
    )
