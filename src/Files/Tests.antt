-- ===== src/Files/Tests.antt =====
-- Runs of the handlers of files on a disk that is an association list, and their law applied there.
use Prim.Native.String
use ai_aggregator.Prelude.{
  ◌≡◌, refl, sym, false, String, Option, none, some, List, [], ◌∷◌, if◌then◌else◌, if-cases, str_eq,
  eq_iff, lookup, insert,
}
use ai_aggregator.Prelude.Int.{pos}
use ai_aggregator.Prelude.Text.{trim_space, trim_left, trim_right}
use ai_aggregator.Prelude.Json.{str}
use ai_aggregator.Http.{Ctx, no_locals, no_body}
use ai_aggregator.Files.{Os, file_mime_allowed, wildcard_prefix, put, find_file, read_file}
use ai_aggregator.Files.Handlers.{
  Calls, Upload, World, whole, create_file_record, get_file_record, handle_upload_file,
  handle_download_file,
}
use ai_aggregator.Files.Sharing.{IsShared, handle_upload_file-IsShared}

abbrev Pairs : Type 0
Pairs = List (String × String)

-- A path that would be blank is "/".
abbrev or_root : String → String
or_root path = if str_eq (trim_space path) "" then "/" else path

root_named : str_eq (trim_space "/") "" ≡ false
unfolding trim_space trim_left trim_right
root_named = refl

or_root_named : (path : String) → str_eq (trim_space (or_root path)) "" ≡ false
or_root_named path =
    if-cases (λ p. str_eq (trim_space p) "" ≡ false) (str_eq (trim_space path) "") _ _
      (λ _. root_named) (λ named. named)

found :
    (path content : String) (before after : Pairs)
    → some (insert path content before) ≡ some after
    → lookup path after ≡ some content
found path content before after e =
    let same : insert path content before ≡ after = cc in
    rw (sym same, (eq_iff path path).1 refl) refl

abbrev os : Os
os = record {
  Disk = Pairs;
  join = λ dir name. or_root (String.◌++◌ dir (String.◌++◌ "/" name));
  base = λ name. name;
  create = λ path content disk. some (insert path content disk);
  read = lookup;
  remove = λ path disk. disk;
  read_created = found;
  join_named = λ dir name _. or_root_named (String.◌++◌ dir (String.◌++◌ "/" name));
}

abbrev calls : Calls
calls = record {
  may_write = λ _ _. none;
  max_size_mb = some 1;
  detect = λ _. "application/x-executable";
  allow_list = "text/*" ∷ [];
  to_lower = λ s. s;
  contains = λ _ _. false;
  new_id = "file-1";
  insert_fails = false;
  reread_fails = false;
  query_fails = false;
  file_json = λ f. str f.id;
}

abbrev by : String → Ctx
by user_id = record {
  authorization = "";
  request_id = "q1";
  locals = record no_locals { user_id = some user_id };
  status = 200;
  headers = [];
  body = no_body;
}

-- A program that its sender calls a text.
abbrev upload : Option Upload
upload = some (record {
  filename = "a.txt";
  declared_mime = "text/plain; charset=utf-8";
  purpose = "";
  size = pos 3;
  reading = whole "abc" "abc";
})

abbrev start : World os "files" calls
start = record { files = []; disk = [] }

file_tests :
    ((handle_upload_file os "files" calls upload (by "u1") start).ctx.status ≡ 201)
    × ((handle_download_file os "files" calls "file-1"
          (by "u2")
          (handle_upload_file os "files" calls upload (by "u1") start).world).ctx.status
        ≡ 404)
unfolding handle_upload_file handle_download_file get_file_record find_file read_file
    create_file_record file_mime_allowed wildcard_prefix put trim_space trim_left trim_right
file_tests = (refl, refl)

named : str_eq (trim_space "files") "" ≡ false
unfolding trim_space trim_left trim_right
named = refl

handle_upload_file-IsShared_example :
    IsShared os "files" calls
      (by "u1")
      start
      (handle_upload_file os "files" calls upload (by "u1") start)
handle_upload_file-IsShared_example =
    handle_upload_file-IsShared os "files" calls refl named (by "u1") start upload
