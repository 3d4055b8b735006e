-- ===== src/Files.antt =====
-- Files: handleUploadFile, handleGetFile, handleDownloadFile and handleDeleteFile with
-- fileMimeAllowed and scanUploadedFile (backend/internal/gateway/router.go), the rows of
-- uploaded_files (backend/internal/storage/store.go) and LocalStore
-- (backend/internal/filestore/store.go). A content is a text of its bytes. Metadata, audit rows and
-- headers are left out.
pub mod Handlers
mod Sharing
mod Tests
use Prim.Native.String
use Prim.Native.Char.{code}
use ai_aggregator.Prelude.{
  ℕ, ◌*◌, ◌≡◌, Bool, true, false, ◌&&◌, ◌||◌, not, String, Option, none, some, List, [], ◌∷◌, any,
  map, if◌then◌else◌, str_eq, ◌==◌,
}
use ai_aggregator.Prelude.Int.{ℤ, pos, ltb_ℤ}
use ai_aggregator.Prelude.Text.{trim_space, has_prefix}

-- storage.FileRecord.
pub record FileRecord : Type 0 where
  pub id : String
  pub user_id : String
  pub api_key_id : String
  pub workspace_id : String
  pub filename : String
  pub purpose : String
  pub mime_type : String
  pub storage_path : String
  pub status : String

-- The operating system: filepath.Join and filepath.Base, a new file with a content (os.OpenFile
-- with O_EXCL, and the copy), os.ReadFile and os.Remove. `none` is an error. A file that was made
-- can be read, and a path below a directory that is not blank is not blank.
pub record Os : Type 1 where
  pub Disk : Type 0
  pub join : String → String → String
  pub base : String → String
  pub create : (path content : String) → Disk → Option Disk
  pub read : (path : String) → Disk → Option String
  pub remove : (path : String) → Disk → Disk
  pub read_created :
      (path content : String) (before after : Disk)
      → create path content before ≡ some after
      → read path after ≡ some content
  pub join_named :
      (dir name : String)
      → str_eq (trim_space dir) "" ≡ false
      → str_eq (trim_space (join dir name)) "" ≡ false

-- NewLocalStore: the directory.
abbrev pub local_dir : String → String
local_dir dir = if str_eq (trim_space dir) "" then "/tmp/ai-aggregator-files" else dir

module _ (os : Os) (dir : String) where
  open os use {Disk}

  abbrev pub placed : (path : String) → Option Disk → Option (String × Disk)
  placed path none = none
  placed path (some after) = some (path, after)

  -- LocalStore.Put: the path.
  unfoldable pub put : (key content : String) → Disk → Option (String × Disk)
  put key content disk =
      if str_eq (trim_space key) ""
      then none
      else let path = os.join dir (os.base key) in placed path (os.create path content disk)

  -- LocalStore.Get
  unfoldable pub read_file : (path : String) → Disk → Option String
  read_file path disk = if str_eq (trim_space path) "" then none else os.read path disk

  -- LocalStore.Delete
  unfoldable pub delete : (path : String) → Disk → Disk
  delete path disk = if str_eq (trim_space path) "" then disk else os.remove path disk

-- strings.Split(s, ";")[0]
abbrev pub before_semicolon : String → String
before_semicolon String.[] = ""
before_semicolon (String.◌∷◌ c s) = if code c == b';' then "" else String.◌∷◌ c (before_semicolon s)

abbrev cons_to : Option String → String → Option String
cons_to none s = none
cons_to (some rest) s = some (String.◌++◌ s rest)

-- The prefix of an item that ends in "/*", with its slash.
unfoldable pub wildcard_prefix : String → Option String
wildcard_prefix String.[] = none
wildcard_prefix (String.◌∷◌ c s) =
    let rest = wildcard_prefix s in
    if str_eq (String.◌∷◌ c s) "/*" then some "/" else cons_to rest (String.◌∷◌ c "")

module _ (to_lower : String → String) where
  abbrev pub mime_of : String → String
  mime_of s = to_lower (trim_space (before_semicolon s))

  -- One item of the list.
  abbrev pub mime_item : (detected declared item : String) → Bool
  mime_item detected declared item =
      if str_eq item "*" || str_eq item "*/*" then true else elim (wildcard_prefix item) [
        | some prefix ↦ has_prefix detected prefix || has_prefix declared prefix
        | none ↦ str_eq item detected || str_eq item declared
      ]

  -- fileMimeAllowed
  unfoldable pub file_mime_allowed : (detected declared : String) → List String → Bool
  unfolding wildcard_prefix
  file_mime_allowed detected declared [] = true
  file_mime_allowed detected declared (item ∷ items) =
      any (mime_item (mime_of detected) (mime_of declared)) (item ∷ items)

-- scanUploadedFile, whether the content is blocked: `contains` is bytes.Contains.
abbrev pub is_blocked : (contains : String → String → Bool) → String → Bool
is_blocked contains payload =
    contains payload "X5O!P%@AP[4\\PZX54(P^)7CC)7}$EICAR-STANDARD-ANTIVIRUS-TEST-FILE!$H+H*"

-- The WHERE of GetFileRecord.
abbrev pub is_file_of : (user_id file_id : String) → FileRecord → Bool
is_file_of user_id file_id f =
    str_eq f.id file_id && str_eq f.user_id user_id && not (str_eq f.status "deleted")

unfoldable pub find_file : (user_id file_id : String) → List FileRecord → Option FileRecord
find_file user_id file_id [] = none
find_file user_id file_id (f ∷ rest) =
    if is_file_of user_id file_id f then some f else find_file user_id file_id rest

abbrev pub has_file_id : String → FileRecord → Bool
has_file_id file_id f = str_eq f.id file_id

abbrev pub mark_deleted : (user_id file_id : String) → FileRecord → FileRecord
mark_deleted user_id file_id f =
    if is_file_of user_id file_id f then record f { status = "deleted" } else f
