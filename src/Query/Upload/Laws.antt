-- ===== src/Query/Upload/Laws.antt =====
-- QueryParams.cpp, `TempFileUploadHelper`: what its counters say of what it has written.
use mini_web_srv.Base.{
  ℕ, ◌+◌, ◌^◌, ◌≤◌, ◌<◌, Bool, Option, List, [], ◌∷◌, ◌++◌, Bytes, length, arith, ◌≡◌, Option-cases,
  inl, inr,
}
use mini_web_srv.Query.Upload.{Limits, Uploader, on_new_file, on_file_data}

-- The bytes that were written.
abbrev pub written_size : List (Bytes × Bytes) → ℕ
written_size [] = 0
written_size ((path, bytes) ∷ ws) = length bytes + written_size ws

written_size-append :
    (ws : List (Bytes × Bytes)) (path bytes : Bytes)
    → written_size (ws ++ (path, bytes) ∷ []) ≡ written_size ws + length bytes
written_size-append [] path bytes = omega arith
written_size-append ((p, b) ∷ ws) path bytes =
    let ih = written_size-append ws path bytes in omega arith

-- What both counters say, if `n` bytes are still to come.
abbrev pub IsCounted : Limits → ℕ → Uploader → Type 0
IsCounted l n u =
    (u.limits ≡ l)
    × (u.curr_file_size + n < 2 ^ 64)
    × (u.total_file_size ≤ u.curr_file_size)
    × (written_size u.written ≤ u.total_file_size)
    × (written_size u.written ≤ l.max_upload_size)
    × (written_size u.written ≤ l.max_total_upload_size)

module _ (create : ℕ → Option (Bytes × Bool)) (accepts : Bytes → Bytes → Bool) where
  pub on_new_file-IsCounted :
      (l : Limits) (n : ℕ) (u : Uploader)
      → IsCounted l n u
      → IsCounted l n (on_new_file create accepts u).0
  unfolding on_new_file
  on_new_file-IsCounted l n u h = ground arith

  pub on_file_data-IsCounted :
      (l : Limits) (n : ℕ) (u : Uploader) (bytes : Bytes)
      → IsCounted l (length bytes + n) u
      → IsCounted l n (on_file_data create accepts u bytes).0
  unfolding on_file_data
  on_file_data-IsCounted l n u bytes h = elim (Option-cases u.curr_file) [
    | inl e ↦ rw e (ground arith)
    | inr (path, e) ↦ rw e (let app = written_size-append u.written path bytes in ground arith)
  ]
