-- ===== src/Query/Parts/TempFile.antt =====
-- QueryParams.cpp, `TempFileUploadHelper` as the handler of uploaded files: it looks at neither of the
-- names, nor at the type.
use mini_web_srv.Base.{ℕ, Bool, Option, Bytes}
use mini_web_srv.Query.Upload.{Uploader, on_new_file, on_file_data, on_file_end}
use mini_web_srv.Query.Parts.{Helper}

unfoldable pub temp_file_helper :
    (ℕ → Option (Bytes × Bool)) → (Bytes → Bytes → Bool) → Helper Uploader
temp_file_helper create accepts = record {
  on_new_file = λ u name file_name mime. on_new_file create accepts u;
  on_file_data = on_file_data create accepts;
  on_file_end = on_file_end;
}
