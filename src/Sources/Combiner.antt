-- ===== src/Sources/Combiner.antt =====
-- RespSources/CombinerRespSource.cpp and CombinerRespSource.h: the dispatch of a resource to the
-- response source that is mounted under its prefix. The sources are outside: `S` is their type, and
-- an answer says which of them is called, and for which rest of the resource.
pub mod Laws
use mini_web_srv.Base.{
  ℕ, Bool, true, false, not, ◌&&◌, Option, none, some, List, [], ◌∷◌, ◌++◌, Bytes, ltb, ◌==◌,
  if◌then◌else◌, length, take, drop, get_or,
}
use mini_web_srv.Query.Params.{str_eq}

-- `RewHolder`, with the resource that it stands for.
pub record Rewrite : Type 0 where
  pub resource : Bytes
  pub target : Bytes
  pub is_redirect : Bool
  pub is_permanent : Bool

-- The map's entry of a resource, the last that was added.
unfoldable pub find_rewrite : Bytes → List Rewrite → Option Rewrite
find_rewrite s [] = none
find_rewrite s (r ∷ rs) =
    let rest = find_rewrite s rs in
    let here = if str_eq r.resource s then some r else none in
    elim rest [ none ↦ here | some x ↦ some x ]

module _ (S : Type 0) where
  pub record Holder : Type 0 where
    pub prefix : Bytes
    pub resp_source : S
    pub exact_match_only : Bool

  pub data Answer : Type 0 where
    redirect : Bytes → Bool → Answer
    created : S → Bytes → Answer
    not_found : Bytes → Answer

  -- `RSHolder::operator()`.
  unfoldable pub accepts : Holder → Bytes → Bool
  accepts h resource =
      if not h.exact_match_only && ltb (length h.prefix) (length resource)
      then (str_eq (take (length h.prefix) resource) h.prefix
          && get_or resource (length h.prefix) 0 == b'/')
      else if length resource == length h.prefix
      then str_eq resource h.prefix
      else false

  unfoldable pub dispatch : List Holder → Bytes → Answer
  dispatch [] resource = not_found resource
  dispatch (h ∷ hs) resource =
      let rest = dispatch hs resource in
      if accepts h resource then created h.resp_source (drop (length h.prefix) resource) else rest

  unfoldable pub create : List Rewrite → List Holder → Bytes → Answer
  create rewrites holders resource = elim (find_rewrite resource rewrites) [
    | none ↦ dispatch holders resource
    | some r ↦ if r.is_redirect then redirect r.target r.is_permanent else dispatch holders r.target
  ]
