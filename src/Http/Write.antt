-- ===== src/Http/Write.antt =====
-- Connection.cpp, `WriteNext` and `WriteAll`: buffers of the write queue go out on the socket, one by
-- one. What is written is a list of texts. The loop is on fuel for its rounds.
pub mod Laws
mod Tests
use mini_web_srv.Base.{ℕ, zero, suc, Option, none, some, List, [], ◌∷◌, Bytes}
use mini_web_srv.WriteQueue.Queue.{Queue, pop, release}

module _ (size : ℕ) where
  unfoldable pub write_next : Queue → Queue × List Bytes
  unfolding pop release
  write_next q =
      let (q', text) = pop q in elim text [ none ↦ (q', []) | some t ↦ (release size q', t ∷ []) ]

  unfoldable pub write_all : ℕ → Queue → Option (Queue × List Bytes)
  unfolding pop release
  write_all zero q = none
  write_all (suc fuel) q =
      let (q', text) = pop q in
      let rest = write_all fuel (release size q') in
      elim text [
        | none ↦ some (q', [])
        | some t ↦ elim rest [ none ↦ none | some (q'', ts) ↦ some (q'', t ∷ ts) ]
      ]
