-- ===== src/Sources/Text.antt =====
-- RespSources/Helper/StringResponse.h and StaticRespSource.cpp: a response that is a text. A response of
-- the kind is the bytes from `ReadPos` to `EndPos`, whichever constructor made it.
pub mod Laws
use mini_web_srv.Base.{
  ℕ, zero, suc, Bool, true, false, List, [], ◌∷◌, Bytes, if◌then◌else◌, length, take, drop,
}
use mini_web_srv.Http.Body.{Read}

pub record StringResponse : Type 0 where
  pub left : Bytes
  pub response_code : ℕ
  pub content_type : Bytes
  pub charset : Bytes

abbrev pub is_done : Bytes → Bool
is_done [] = true
is_done (b ∷ bs) = false

unfoldable pub get_length : StringResponse → ℕ
get_length r = length r.left

unfoldable pub read : ℕ → StringResponse → Read × StringResponse
read max_length r = (
  record { bytes = take max_length r.left; is_finished = is_done (drop max_length r.left) },
  record r { left = drop max_length r.left },
)

-- The answers of `Read`, up to the one that says that it is the last; on fuel for their number.
unfoldable pub reads : ℕ → ℕ → StringResponse → List Read
reads max_length zero r = []
reads max_length (suc fuel) r =
    let (a, r') = read max_length r in
    let rest = reads max_length fuel r' in if a.is_finished then a ∷ [] else a ∷ rest

-- `StaticRespSource`, whose data are outside of it.
pub record Static : Type 0 where
  pub data_text : Bytes
  pub static_code : ℕ
  pub static_type : Bytes
  pub static_charset : Bytes

unfoldable pub create_static : Static → StringResponse
create_static s = record {
  left = s.data_text;
  response_code = s.static_code;
  content_type = s.static_type;
  charset = s.static_charset;
}
