-- ===== src/Sources/Combiner/Laws.antt =====
-- Which source answers.
use mini_web_srv.Base.{
  ℕ, ◌≡◌, refl, ◌∙◌, true, false, not, ◌&&◌, none, List, [], ◌∷◌, ◌++◌, Bytes, ltb, lt→ltb, ◌==◌,
  Bool-cases, inl, inr, arith, length, get_or, length-append, take-append-length,
  drop-append-length,
}
use mini_web_srv.Query.Params.{str_eq_self}
use mini_web_srv.Sources.Combiner.{
  Rewrite, find_rewrite, Holder, created, accepts, dispatch, create,
}

get_or-append-length : (xs ys : Bytes) (c : ℕ) → get_or (xs ++ c ∷ ys) (length xs) 0 ≡ c
get_or-append-length [] ys c = refl
get_or-append-length (x ∷ xs) ys c = get_or-append-length xs ys c

module _ (S : Type 0) where
  -- A holder takes a longer resource under its prefix exactly at a slash: never a name that only
  -- starts with the prefix, and nothing longer if it wants an exact match.
  pub accepts-append :
      (h : Holder S) (c : ℕ) (rest : Bytes)
      → accepts S h (h.prefix ++ c ∷ rest) ≡ (not h.exact_match_only && c == b'/')
  unfolding accepts
  accepts-append h c rest =
      let longer : ltb (length h.prefix) (length (h.prefix ++ c ∷ rest)) ≡ true =
        lt→ltb _ _ (omega (arith, length-append h.prefix (c ∷ rest))) in
      let differ : (length (h.prefix ++ c ∷ rest) == length h.prefix) ≡ false =
        ground (arith, length-append h.prefix (c ∷ rest)) in
      elim (Bool-cases h.exact_match_only) [
        | inl e ↦ rw (e, differ) refl
        | inr e ↦
            rw
              (
                e,
                longer,
                take-append-length h.prefix (c ∷ rest),
                str_eq_self h.prefix,
                get_or-append-length h.prefix rest c,
              )
              refl
      ]

  abbrev pub AllRefuse : List (Holder S) → Bytes → Type 0
  AllRefuse [] resource = Unit {0}
  AllRefuse (h ∷ hs) resource = (accepts S h resource ≡ false) × AllRefuse hs resource

  dispatch-append :
      (hs hs' : List (Holder S)) (resource : Bytes)
      → AllRefuse hs resource
      → dispatch S (hs ++ hs') resource ≡ dispatch S hs' resource
  unfolding dispatch
  dispatch-append [] hs' resource a = refl
  dispatch-append (h ∷ hs) hs' resource a = rw a.0 (dispatch-append hs hs' resource a.1)

  -- A resource below a mounted prefix goes to the source that is mounted there, which sees what is
  -- behind the prefix, if the resource is not rewritten, no holder in front takes it, and the mount
  -- is not for exact matches only.
  pub create-mounted :
      (rewrites : List Rewrite) (hs hs' : List (Holder S)) (h : Holder S) (rest : Bytes)
      → find_rewrite (h.prefix ++ b'/' ∷ rest) rewrites ≡ none
      → AllRefuse hs (h.prefix ++ b'/' ∷ rest)
      → h.exact_match_only ≡ false
      → create S rewrites (hs ++ h ∷ hs') (h.prefix ++ b'/' ∷ rest)
        ≡ created h.resp_source (b'/' ∷ rest)
  unfolding create dispatch
  create-mounted rewrites hs hs' h rest n a e =
      rw (create, n)
        (dispatch-append hs (h ∷ hs') (h.prefix ++ b'/' ∷ rest) a
          ∙ rw (dispatch, accepts-append h b'/' rest, e, drop-append-length h.prefix (b'/' ∷ rest))
              refl)
