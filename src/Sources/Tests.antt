-- ===== src/Sources/Tests.antt =====
-- Runs of the dispatch, and the theorems at concrete inputs.
use mini_web_srv.Base.{ℕ, ◌≡◌, refl, some, arith, true, false, List, [], ◌∷◌, ◌++◌, codes}
use mini_web_srv.Query.Params.{str_eq}
use mini_web_srv.Sources.Combiner.{
  Rewrite, find_rewrite, Holder, created, not_found, redirect, accepts, dispatch, create,
}
use mini_web_srv.Sources.Combiner.Laws.{create-mounted}
use mini_web_srv.Http.Body.{length_body}
use mini_web_srv.Sources.Text.{Static, create_static, get_length, reads}
use mini_web_srv.Sources.Text.Laws.{length_body-create_static}

abbrev files : Holder ℕ
files = record { prefix = codes "/f"; resp_source = 1; exact_match_only = false }

abbrev status : Holder ℕ
status = record { prefix = codes "/s"; resp_source = 2; exact_match_only = true }

abbrev rewrites : List Rewrite
rewrites =
    record { resource = codes "/"; target = codes "/s"; is_redirect = false; is_permanent = false }
    ∷ record { resource = codes "/o"; target = codes "/f"; is_redirect = true; is_permanent = true }
    ∷ []

create_samples :
    (create ℕ rewrites (status ∷ files ∷ []) (codes "/") ≡ created 2 [])
    × (create ℕ rewrites (status ∷ files ∷ []) (codes "/o") ≡ redirect (codes "/f") true)
    × (create ℕ rewrites (status ∷ files ∷ []) (codes "/fx") ≡ not_found (codes "/fx"))
unfolding create dispatch accepts find_rewrite str_eq
create_samples = (refl, refl, refl)

create-mounted_example :
    create ℕ rewrites ((status ∷ []) ++ files ∷ []) (codes "/f" ++ b'/' ∷ codes "a")
    ≡ created 1 (b'/' ∷ codes "a")
unfolding find_rewrite accepts str_eq
create-mounted_example =
    create-mounted ℕ rewrites (status ∷ []) [] files (codes "a") refl (refl, tt) refl

-- A text in blocks of two bytes.
abbrev page : Static
page = record {
  data_text = codes "abc";
  static_code = 200;
  static_type = codes "text/plain";
  static_charset = codes "UTF-8";
}

length_body-create_static_example :
    length_body (get_length (create_static page)) (reads 2 3 (create_static page))
    ≡ some (record { out = codes "abc"; total = 3; keep = true })
length_body-create_static_example = length_body-create_static 2 page (omega arith) (omega arith)
