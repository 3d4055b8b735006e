-- ===== src/Files/Handlers.antt =====
-- The handlers of files (backend/internal/gateway/router.go), with CreateFileRecord, GetFileRecord
-- and DeleteFileRecord (backend/internal/storage/store.go).
use ai_aggregator.Prelude.{
  ℕ, ◌*◌, Bool, true, false, ◌&&◌, ◌||◌, String, Option, none, some, List, ◌∷◌, any, map,
  if◌then◌else◌, str_eq,
}
use ai_aggregator.Prelude.Int.{ℤ, pos, ltb_ℤ, leb_ℤ}
use ai_aggregator.Prelude.Json.{Json, str, bool, obj, field, end}
use ai_aggregator.Http.{value, Ctx, Handler, answer, error_response, local_string}
use ai_aggregator.Auth.{get_user_id}
use ai_aggregator.Files.{
  FileRecord, Os, put, read_file, delete, file_mime_allowed, is_blocked, find_file, has_file_id,
  mark_deleted,
}

-- What comes of opening and reading the file of a form.
pub data Reading : Type 0 where
  unopened : Reading
  unreadable : Reading
  cut_off : (first_chunk : String) → Reading
  whole : (first_chunk payload : String) → Reading

pub record Upload : Type 0 where
  pub filename : String
  pub declared_mime : String
  pub purpose : String
  pub size : ℤ
  pub reading : Reading

-- What the handlers call: the permission "files:write" of a user in a workspace (`none` for an
-- error), the setting max_file_size_mb as parsePositiveInt64 reads it, without overflow (`none` for
-- an error), http.DetectContentType, the list of allowed types, strings.ToLower, bytes.Contains, a
-- new id, and the statements that fail. `reread_fails` is the query after the insert.
pub record Calls : Type 0 where
  pub may_write : (workspace_id user_id : String) → Option Bool
  pub max_size_mb : Option ℕ
  pub detect : String → String
  pub allow_list : List String
  pub to_lower : String → String
  pub contains : String → String → Bool
  pub new_id : String
  pub insert_fails : Bool
  pub reread_fails : Bool
  pub query_fails : Bool
  pub file_json : FileRecord → Json

module _ (os : Os) (dir : String) (calls : Calls) where
  open os use {Disk}

  -- The rows of uploaded_files and the disk.
  pub record World : Type 0 where
    pub files : List FileRecord
    pub disk : Disk

  abbrev invalid : String → Handler World
  invalid message c w = answer 400 (error_response "invalid_request" message) c w

  -- CreateFileRecord: the row that it returns, and the rows. The id is the primary key.
  unfoldable pub create_file_record :
      FileRecord → List FileRecord → Option FileRecord × List FileRecord
  create_file_record f files =
      if calls.insert_fails || any (has_file_id f.id) files
      then (none, files)
      else (if calls.reread_fails then none else find_file f.user_id f.id (f ∷ files), f ∷ files)

  -- GetFileRecord
  unfoldable pub get_file_record : (user_id file_id : String) → World → Option FileRecord
  unfolding find_file
  get_file_record user_id file_id w =
      if calls.query_fails then none else find_file user_id file_id w.files

  -- The row of an upload.
  abbrev pub record_of : Upload → (mime path : String) → Ctx → FileRecord
  record_of up mime path c = record {
    id = calls.new_id;
    user_id = get_user_id c;
    api_key_id = local_string c.locals.api_key_id;
    workspace_id = local_string c.locals.workspace_id;
    filename = up.filename;
    purpose = if str_eq up.purpose "" then "assistants" else up.purpose;
    mime_type = mime;
    storage_path = path;
    status = "uploaded";
  }

  abbrev pub recorded : (path : String) → Disk → Option FileRecord × List FileRecord → Handler World
  recorded path disk (none, files) c w =
      answer 500 (error_response "internal_server_error" "failed to create file record") c
        (record { files = files; disk = delete os dir path disk })
  recorded path disk (some f, files) c w =
      answer 201 (value (calls.file_json f)) c (record { files = files; disk = disk })

  abbrev pub stored : Upload → (mime : String) → Option (String × Disk) → Handler World
  stored up mime none c w =
      answer 500 (error_response "internal_server_error" "failed to store file") c w
  stored up mime (some (path, disk)) c w =
      recorded path disk (create_file_record (record_of up mime path c) w.files) c w

  -- The rest of handleUploadFile, from the detection of the type.
  abbrev pub take_reading : Upload → Reading → Handler World
  take_reading up unopened c w = invalid "failed to open uploaded file" c w
  take_reading up unreadable c w = invalid "failed to read uploaded file" c w
  take_reading up (cut_off first_chunk) c w =
      if file_mime_allowed calls.to_lower (calls.detect first_chunk) up.declared_mime
        calls.allow_list
      then invalid "failed to read uploaded file" c w
      else answer 415 (error_response "invalid_request" "file mime type is not allowed") c w
  take_reading up (whole first_chunk payload) c w =
      if file_mime_allowed calls.to_lower (calls.detect first_chunk) up.declared_mime
        calls.allow_list
      then if is_blocked calls.contains payload
        then answer 400 (error_response "policy_violation" "file rejected by malware scan") c w
        else stored up (calls.detect first_chunk) (put os dir calls.new_id payload w.disk) c w
      else answer 415 (error_response "invalid_request" "file mime type is not allowed") c w

  abbrev pub exceeds : ℤ → Option ℕ → Bool
  exceeds size none = false
  exceeds size (some mb) = ltb_ℤ (pos 0) (pos (mb * 1048576)) && ltb_ℤ (pos (mb * 1048576)) size

  abbrev pub take_file : Option Upload → Handler World
  take_file none c w = invalid "multipart file field is required" c w
  take_file (some up) c w =
      if leb_ℤ up.size (pos 0)
      then invalid "file must not be empty" c w
      else if exceeds up.size calls.max_size_mb
      then answer 413 (error_response "invalid_request" "file exceeds max_file_size_mb") c w
      else take_reading up up.reading c w

  abbrev pub behind_write : Option Bool → Handler World → Handler World
  behind_write none next c w = invalid "invalid workspace_id" c w
  behind_write (some allowed) next c w =
      if allowed
      then next c w
      else answer 403
          (error_response "permission_denied"
            "user does not have files:write permission for the workspace")
          c w

  -- handleUploadFile; no upload where the form has no file.
  unfoldable pub handle_upload_file : Option Upload → Handler World
  unfolding create_file_record file_mime_allowed put delete
  handle_upload_file up c w =
      let workspace_id = local_string c.locals.workspace_id in
      if str_eq workspace_id ""
      then take_file up c w
      else behind_write (calls.may_write workspace_id (get_user_id c)) (take_file up) c w

  abbrev missing : String → Handler World
  missing message c w = answer 404 (error_response "not_found" message) c w

  -- handleGetFile
  unfoldable pub handle_get_file : (file_id : String) → Handler World
  unfolding get_file_record
  handle_get_file file_id c w = elim (get_file_record (get_user_id c) file_id w) [
    | none ↦ missing "file not found" c w
    | some f ↦ answer 200 (value (calls.file_json f)) c w
  ]

  -- handleDownloadFile behind the look-up of the row; the content is the body.
  abbrev pub download : Option FileRecord → Handler World
  download none c w = missing "file not found" c w
  download (some f) c w =
      if str_eq f.storage_path ""
      then missing "file content not found" c w
      else elim (read_file os dir f.storage_path w.disk) [
        | none ↦ missing "file content not found" c w
        | some content ↦ answer 200 (value (str content)) c w
      ]

  -- handleDownloadFile
  unfoldable pub handle_download_file : (file_id : String) → Handler World
  unfolding get_file_record read_file
  handle_download_file file_id c w = download (get_file_record (get_user_id c) file_id w) c w

  -- handleDeleteFile, with DeleteFileRecord.
  unfoldable pub handle_delete_file : (update_fails : Bool) → (file_id : String) → Handler World
  unfolding get_file_record delete
  handle_delete_file update_fails file_id c w = elim (get_file_record (get_user_id c) file_id w) [
    | none ↦ missing "file not found" c w
    | some f ↦
        if update_fails
        then missing "file not found" c w
        else answer 200 (value (obj (field "id" (str f.id) (field "deleted" (bool true) end)))) c
            (record {
              files = map (mark_deleted (get_user_id c) file_id) w.files;
              disk = delete os dir f.storage_path w.disk;
            })
  ]
