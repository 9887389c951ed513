-- ===== src/Http/Head.antt =====
-- Connection.cpp, `HeaderHandler` and `ContinueRead`: the head of a request, read line by line from the
-- read buffer. What the socket's reads give is a list; `waiting` says that it ended, and the handler
-- is still in a read.
pub mod Scan
pub mod Reads
pub mod Chunks
pub mod Text
mod Tests
use mini_web_srv.Base.{
  ℕ, zero, suc, ◌+◌, ◌-◌, Bool, true, false, Option, none, some, List, [], ◌∷◌, ◌++◌, Bytes, ltb,
  ◌==◌, if◌then◌else◌, length,
}
use mini_web_srv.ReadBuff.{Buff, size, consume, available_length, available_data, receive}
use mini_web_srv.Http.RequestLine.{Request, parse_request_line}
use mini_web_srv.Http.HeaderLine.{Header, extract_header}

-- `RequestLineFound`, what the lines have given, and the bytes from `LineStartPos` up to `InBuff`. A
-- header whose line has no end is `none`: its number is unknown.
pub record Head : Type 0 where
  pub request : Request
  pub found : Bool
  pub headers : List (Option Header)
  pub line : Bytes

-- `closed` is the result false; `done` is true, with the number of bytes of the block to consume;
-- `overrun` is a read behind the end of the query, see `add_url_encoded`.
pub data Scanned : Type 0 where
  more : Head → Scanned
  done : Head → ℕ → Scanned
  refused : Scanned
  overrun : Scanned

-- A line of more than one byte, `\n` left out.
unfoldable pub end_line : Head → Scanned
end_line h =
    if h.found
    then more (record h { headers = h.headers ++ extract_header h.line ∷ []; line = [] })
    else elim (parse_request_line h.request h.line) [
      | none ↦ overrun
      | some (request, ok) ↦
          if ok then more (record h { request = request; found = true; line = [] }) else refused
    ]

unfoldable pub scan_byte : Head → ℕ → Scanned
unfolding end_line
scan_byte h c =
    if c == b'\n'
    then (if ltb 1 (length h.line) then end_line h else done h 1)
    else more (record h { line = h.line ++ c ∷ [] })

abbrev pub shift : ℕ → Scanned → Scanned
shift k (done h n) = done h (k + n)
shift k r = r

-- The inner loop, over the bytes of a block.
unfoldable pub scan : Head → Bytes → Scanned
scan h [] = more h
scan h (c ∷ cs) = elim (scan_byte h c) [ more h' ↦ shift 1 (scan h' cs) | r ↦ r ]

-- `ContinueRead`: nothing is read if there is no free space.
unfoldable pub continue_read : Buff → List Bytes → Option (Buff × List Bytes)
continue_read b reads =
    if size b - b.data_end == 0
    then some (b, reads)
    else elim reads [ [] ↦ none | r ∷ rs ↦ some (receive b r, rs) ]

pub data Outcome : Type 0 where
  headers_done : Head → Buff → List Bytes → Outcome
  closed : Outcome
  overran : Outcome
  waiting : Outcome

-- A block, and what comes after it.
unfoldable pub head_block :
    (Head → Buff → List Bytes → Option Outcome) → Head → Buff → List Bytes → Option Outcome
head_block next h b reads = elim (scan h (available_data b)) [
  | done h' n ↦ some (headers_done h' (consume b n true).0 reads)
  | refused ↦ some closed
  | overrun ↦ some overran
  | more h' ↦ elim (continue_read (consume b (available_length b) true).0 reads) [
    | none ↦ some waiting
    | some (b', rs) ↦ next h' b' rs
  ]
]

-- The outer loop, on fuel for its rounds.
unfoldable pub head_loop : ℕ → Head → Buff → List Bytes → Option Outcome
unfolding continue_read head_block
head_loop zero h b reads = none
head_loop (suc fuel) h b reads =
    if available_length b == 0
    then elim (continue_read b reads) [
      | none ↦ some waiting
      | some (b', rs) ↦
          if available_length b' == 0 then some closed else head_block (head_loop fuel) h b' rs
    ]
    else head_block (head_loop fuel) h b reads

abbrev pub fresh_head : Request → Head
fresh_head r = record { request = r; found = false; headers = []; line = [] }

-- The handler. A round without a read is the last but one.
unfoldable pub header_handler : Request → Buff → List Bytes → Option Outcome
unfolding head_loop
header_handler r b reads = head_loop (suc (suc (length reads))) (fresh_head r) b reads
