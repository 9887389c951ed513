-- ===== src/Query/Upload.antt =====
-- QueryParams.cpp, `TempFileUploadHelper`: the default handler of uploaded files. What the file system
-- does is a parameter: `create` gives the path of the n-th file and whether it is open, or `none` for an
-- exception, and `accepts` says whether a write to a path goes well. What was written is recorded. Sizes
-- are 64 bits wide.
pub mod Laws
use mini_web_srv.Base.{
  ℕ, ◌+◌, ◌-◌, ◌%◌, ◌^◌, Bool, true, false, ◌||◌, Option, none, some, List, [], ◌∷◌, ◌++◌, Bytes,
  ltb, ◌==◌, if◌then◌else◌, length,
}

-- `Config::FileUpload`, without the directory.
pub record Limits : Type 0 where
  pub max_upload_size : ℕ
  pub max_total_upload_size : ℕ

-- The limits of the default constructor.
abbrev pub default_limits : Limits
default_limits = record { max_upload_size = 2 ^ 64 - 1; max_total_upload_size = 2 ^ 64 - 1 }

-- `curr_file` is the path of the open stream, `created` the number of files so far, and `written` what
-- the streams took, in order.
pub record Uploader : Type 0 where
  pub limits : Limits
  pub curr_file : Option Bytes
  pub curr_file_size : ℕ
  pub total_file_size : ℕ
  pub created : ℕ
  pub written : List (Bytes × Bytes)

abbrev pub new_uploader : Limits → Uploader
new_uploader limits = record {
  limits = limits;
  curr_file = none;
  curr_file_size = 0;
  total_file_size = 0;
  created = 0;
  written = [];
}

unfoldable pub on_file_end : Uploader → Uploader
on_file_end u = record u { curr_file = none }

module _ (create : ℕ → Option (Bytes × Bool)) (accepts : Bytes → Bytes → Bool) where
  -- The path, and whether the file can be written.
  unfoldable pub on_new_file : Uploader → Uploader × Bytes × Bool
  on_new_file u =
      let u' = record u { curr_file = none } in
      if u.limits.max_upload_size == 0 || u.limits.max_total_upload_size == 0
      then (u', [], false)
      else elim (create u.created) [
        | none ↦ (u', [], false)
        | some (path, is_open) ↦
            (record u' { curr_file = some path; created = u.created + 1 }, path, is_open)
      ]

  unfoldable pub on_file_data : Uploader → Bytes → Uploader × Bool
  on_file_data u bytes = elim u.curr_file [
    | none ↦ (u, false)
    | some path ↦
        let size = (u.curr_file_size + length bytes) % 2 ^ 64 in
        let total = (u.total_file_size + length bytes) % 2 ^ 64 in
        let u' = record u { curr_file_size = size } in
        if ltb u.limits.max_upload_size size
        then (u', false)
        else (let u'' = record u' { total_file_size = total } in
            if ltb u.limits.max_total_upload_size total
            then (u'', false)
            else if accepts path bytes
            then (record u'' { written = u.written ++ (path, bytes) ∷ [] }, true)
            else (u'', false))
  ]
