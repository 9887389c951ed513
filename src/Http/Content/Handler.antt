-- ===== src/Http/Content/Handler.antt =====
-- The content handler as a whole: from the headers of a request to its content.
use mini_web_srv.Base.{
  ℕ, suc, ◌^◌, ◌%◌, ◌≤◌, ◌<◌, ◌≡◌, refl, ap, ap₂, ◌∙◌, true, false, Option, none, some, List, [],
  ◌++◌, Bytes, arith, ltb, ◌==◌, length, take, take_all, drop, drop_all,
}
use mathlib.Core.List.{flatten}
use mini_web_srv.ReadBuff.{
  Buff, consume, available_length, available_data, relevant_data, reset_relevant,
}
use mini_web_srv.ReadBuff.Inv.{IsValid, reset_relevant-IsValid}
use mini_web_srv.ReadBuff.View.{
  Stream, length-available, consume-pending, consume-kept, reset_relevant-view,
}
use mini_web_srv.Query.Boundary.{Splitter, append_form_multipart, append_chunks}
use mini_web_srv.Query.Boundary.Stream.{items}
use mini_web_srv.Query.Boundary.Chunks.{IsHeld, append_chunks-flatten}
use mini_web_srv.Http.ContentType.{ct_form_multipart}
use mini_web_srv.Http.HeaderLine.{Header}
use mini_web_srv.Http.Head.Reads.{stream}
use mini_web_srv.Http.Content.{
  Found, whole, parts, find_headers, is_multipart, is_url_encoded, await_data, read_content,
  content_handler,
}
use mini_web_srv.Http.Content.Laws.{AwaitFits, await_data-stream}
use mini_web_srv.Http.Content.Multipart.{PartsFit, multipart_loop-stream}

abbrev pub no_headers : Bytes → Found
no_headers boundary = record { content_length = none; content_type = none; boundary = boundary }

content_handler-found :
    (g : ℕ → ℕ) (to_number : Bytes → Option ℕ) (most rbs : ℕ) (boundary : Bytes)
    (headers : List (Option Header)) (b : Buff) (reads : List Bytes) (f : Found) (n : ℕ)
    → find_headers to_number (no_headers boundary) headers ≡ some f
    → f.content_length ≡ some n
    → 0 < n
    → n ≤ most
    → content_handler g to_number most rbs boundary headers b reads
      ≡ read_content g rbs (suc (length reads)) f n b reads
unfolding content_handler
content_handler-found g to_number most rbs boundary headers b reads f n e l p q =
    let nonzero : (n == 0) ≡ false = ground arith in
    let small : ltb most n ≡ false = ground arith in rw (content_handler, e, l, nonzero, small) refl

-- A multipart content with its two headers, in any reads, reaches the parts as if the query's object
-- were given exactly the announced bytes in one piece, and what is behind them is still to come; under
-- the conditions on the sizes, the reads and the state of the object.
pub content_handler-multipart :
    (g : ℕ → ℕ) (to_number : Bytes → Option ℕ) (most rbs : ℕ) (boundary : Bytes)
    (headers : List (Option Header)) (b : Buff) (reads : List Bytes) (f : Found) (n : ℕ)
    (s : Splitter)
    → find_headers to_number (no_headers boundary) headers ≡ some f
    → f.content_length ≡ some n
    → f.content_type ≡ some ct_form_multipart
    → 0 < n
    → n ≤ most
    → 0 < rbs
    → IsValid b
    → PartsFit g rbs n (reset_relevant b) reads
    → n ≤ length (stream b reads)
    → IsHeld s
    → (chunks : List Bytes) × (b' : Buff) × (rs : List Bytes) × (content_handler g to_number most
          rbs boundary headers b reads
        ≡ some (parts f.boundary chunks b' rs))
      × (items (append_chunks f.boundary s chunks).0
          ≡ items (append_form_multipart f.boundary s (take n (stream b reads))).0)
      × ((append_chunks f.boundary s chunks).1
          ≡ (append_form_multipart f.boundary s (take n (stream b reads))).1)
      × (stream b' rs ≡ drop n (stream b reads))
unfolding read_content
content_handler-multipart g to_number most rbs boundary headers b reads f n s e l t p q w v fit k
      i =
    let same : stream (reset_relevant b) reads ≡ stream b reads =
      ap (λ (x : Stream). x.pending ++ flatten reads) (reset_relevant-view v) in
    let (chunks, b', rs, m, v', c, d) =
      multipart_loop-stream g rbs reads (suc (length reads)) n (reset_relevant b) w p
        (reset_relevant-IsValid v) fit (omega arith) (omega (arith, ap length same)) in
    let (x, y) = append_chunks-flatten f.boundary s chunks i in
    let at = c ∙ ap (take n) same in
    (
      chunks,
      b',
      rs,
      content_handler-found g to_number most rbs boundary headers b reads f n e l p q
          ∙ rw (read_content, t, m) refl,
      x ∙ ap (λ z. items (append_form_multipart f.boundary s z).0) at,
      y ∙ ap (λ z. (append_form_multipart f.boundary s z).1) at,
      d ∙ ap (drop n) same,
    )

read_content-whole :
    (g : ℕ → ℕ) (rbs fuel : ℕ) (f : Found) (n : ℕ) (b b' : Buff) (reads rs : List Bytes)
    → is_multipart f.content_type ≡ false
    → n < 2 ^ 32
    → await_data g fuel n b reads ≡ some (some (b', rs))
    → read_content g rbs fuel f n b reads
      ≡ some (
          whole
            (is_url_encoded f.content_type)
            (available_data b')
            (consume b' (available_length b') true).0
            rs)
unfolding read_content
read_content-whole g rbs fuel f n b b' reads rs t w m =
    let small : n % 2 ^ 32 ≡ n = omega arith in
    let m' = ap (λ x. await_data g fuel x b reads) small ∙ m in rw (read_content, t, m') refl

-- Any other content is handed on whole, and with it everything else that came: the content starts
-- with the announced bytes, nothing behind it is left in the buffer, and the reads that were not
-- needed are still to come.
pub content_handler-whole :
    (g : ℕ → ℕ) (to_number : Bytes → Option ℕ) (most rbs : ℕ) (boundary : Bytes)
    (headers : List (Option Header)) (b : Buff) (reads : List Bytes) (f : Found) (n : ℕ)
    → find_headers to_number (no_headers boundary) headers ≡ some f
    → f.content_length ≡ some n
    → is_multipart f.content_type ≡ false
    → 0 < n
    → n ≤ most
    → n < 2 ^ 32
    → IsValid b
    → AwaitFits g n b reads
    → n ≤ length (stream b reads)
    → (body : Bytes) × (b' : Buff) × (rs : List Bytes) × (content_handler g to_number most rbs
          boundary headers b reads
        ≡ some (whole (is_url_encoded f.content_type) body b' rs))
      × (n ≤ length body)
      × (body ++ flatten rs ≡ stream b reads)
      × (available_data b' ≡ [])
      × (relevant_data b' ≡ relevant_data b ++ body)
content_handler-whole g to_number most rbs boundary headers b reads f n e l t p q w v fit k =
    let (b', rs, m, v', h, s, kept) =
      await_data-stream g reads (suc (length reads)) n b v fit (omega arith) k in
    let n' = available_length b' in
    let all : length (available_data b') ≤ n' = omega (arith, length-available v') in
    (
      available_data b',
      (consume b' n' true).0,
      rs,
      content_handler-found g to_number most rbs boundary headers b reads f n e l p q
          ∙ read_content-whole g rbs (suc (length reads)) f n b b' reads rs t w m,
      omega (arith, length-available v'),
      s,
      consume-pending n' true v' ∙ drop_all n' (available_data b') all,
      consume-kept n' v' ∙ ap₂ (◌++◌) kept (take_all n' (available_data b') all),
    )
