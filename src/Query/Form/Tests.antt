-- ===== src/Query/Form/Tests.antt =====
-- The theorems on whole forms at concrete inputs, and a run of an object that is used again.
use mini_web_srv.Base.{
  ℕ, ◌≡◌, refl, Bool, true, some, none, Option, [], ◌∷◌, List, Bytes, arith, codes,
}
use mathlib.Core.List.{flatten}
use mini_web_srv.Query.Upload.{Uploader, new_uploader, Limits}
use mini_web_srv.Query.Parts.{Parts, read, mode_string}
use mini_web_srv.Query.Parts.TempFile.{temp_file_helper}
use mini_web_srv.Query.Form.{Form, new_form, set_boundary, move_assign, append_body}
use mini_web_srv.Query.Form.Laws.{append_body-IsBounded, IsBounded}

abbrev create : ℕ → Option (Bytes × Bool)
create n = some (b'/' ∷ n ∷ [], true)

abbrev accepts : Bytes → Bytes → Bool
accepts path bytes = true

abbrev small : Limits
small = record { max_upload_size = 3; max_total_upload_size = 10 }

-- Members that no constructor sets.
abbrev uninit : Parts Uploader
uninit = record {
  state = read;
  counter = 7;
  header_tmp = [];
  params = [];
  files = [];
  removed = [];
  target = none;
  mode = mode_string;
  helper = new_uploader small;
}

abbrev form : Form Uploader
form = set_boundary (new_form uninit (new_uploader small)) (codes "b")

abbrev chunks : List Bytes
chunks =
    codes "--b\r\nContent-Disposition: form-data; name=\"f\"; filename=\"x\"\r\n\r\nabc\r"
    ∷ codes "\n--b--"
    ∷ []

append_body-IsBounded_example :
    IsBounded small (append_body (temp_file_helper create accepts) form chunks)
unfolding set_boundary new_form flatten
append_body-IsBounded_example =
    append_body-IsBounded create accepts small form chunks (omega arith) refl (omega arith)

-- What is assigned to an object that has read a part goes on in the middle of that part.
move_assign_sample : (move_assign (record form { parts = uninit }) form).parts.state ≡ read
unfolding move_assign
move_assign_sample = refl
