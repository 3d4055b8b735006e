-- ===== src/Files/Sharing.antt =====
-- Who gets a file that was uploaded (handleUploadFile and handleDownloadFile in
-- backend/internal/gateway/router.go).
use ai_aggregator.Prelude.{
  ◌≤◌, ◌≡◌, refl, sym, ◌∙◌, ◌≢◌, inl, inr, Bool, true, false, ◌&&◌, ◌||◌, not, String, Option, none,
  some, List, [], ◌∷◌, any, if◌then◌else◌, if-cases, str_eq, eq_iff, arith, Bool-cases,
}
use ai_aggregator.Prelude.Text.{trim_space}
use ai_aggregator.Prelude.Json.{str}
use ai_aggregator.Prelude.Int.{pos, leb_ℤ}
use ai_aggregator.Http.{local_string, value, Ctx, Outcome}
use ai_aggregator.Auth.{get_user_id}
use ai_aggregator.Files.{
  FileRecord, Os, put, placed, read_file, file_mime_allowed, is_blocked, is_file_of, find_file,
  has_file_id,
}
use ai_aggregator.Files.Handlers.{
  Reading, unopened, unreadable, cut_off, whole, Upload, Calls, World, create_file_record,
  get_file_record, record_of, recorded, stored, take_reading, exceeds, take_file, behind_write,
  handle_upload_file, handle_download_file,
}

-- No row of that id, no file.
find_file-none :
    (user_id file_id : String) (files : List FileRecord)
    → any (has_file_id file_id) files ≡ false
    → find_file user_id file_id files ≡ none
unfolding find_file
find_file-none user_id file_id [] h = refl
find_file-none user_id file_id (f ∷ files) h =
    let apart : str_eq f.id file_id ≡ false = first h in
    rw apart (find_file-none user_id file_id files (rest h))
  where
    first :
        (str_eq f.id file_id || any (has_file_id file_id) files) ≡ false
        → str_eq f.id file_id ≡ false
    first h = ground arith

    rest :
        (str_eq f.id file_id || any (has_file_id file_id) files) ≡ false
        → any (has_file_id file_id) files ≡ false
    rest h = ground arith

trimmed_nil : str_eq (trim_space "") "" ≡ true
unfolding trim_space
trimmed_nil = refl

true-false : true ≡ false → ⊥
true-false e = cc

blank : (path : String) → path ≡ "" → str_eq (trim_space path) "" ≡ false → ⊥
blank path e h = true-false (sym trimmed_nil ∙ (rw e at h))

module _ (os : Os) (dir : String) (calls : Calls) where
  -- An upload: refused without a row; or lost, where the row could not be read again; or there for
  -- its owner alone, with its content.
  pub data IsShared (c : Ctx) (w : World os dir calls) : Outcome (World os dir calls) → Type 0 where
    rejected :
        (o : Outcome (World os dir calls))
        → 400 ≤ o.ctx.status
        → o.world.files ≡ w.files
        → IsShared c w o
    lost :
        (o : Outcome (World os dir calls))
        → o.ctx.status ≡ 500
        → calls.reread_fails ≡ true
        → IsShared c w o
    uploaded :
        (payload : String) (o : Outcome (World os dir calls))
        → o.ctx.status ≡ 201
        → ((d : Ctx)
            → get_user_id d ≡ get_user_id c
            → (handle_download_file os dir calls calls.new_id d o.world).ctx.body
              ≡ value (str payload))
        → ((d : Ctx)
            → get_user_id d ≢ get_user_id c
            → (handle_download_file os dir calls calls.new_id d o.world).ctx.status ≡ 404)
        → IsShared c w o

  module _ (works : calls.query_fails ≡ false) (named : str_eq (trim_space dir) "" ≡ false)
      (c : Ctx) (w : World os dir calls) where
    open os use {Disk}

    mine :
        (f : FileRecord) (d : Ctx)
        → f.id ≡ calls.new_id
        → f.user_id ≡ get_user_id d
        → f.status ≡ "uploaded"
        → is_file_of (get_user_id d) calls.new_id f ≡ true
    mine f d id owner status =
        rw ((eq_iff f.id calls.new_id).1 id, (eq_iff f.user_id (get_user_id d)).1 owner, status)
          refl

    foreign :
        (f : FileRecord) (d : Ctx)
        → f.user_id ≡ get_user_id c
        → get_user_id d ≢ get_user_id c
        → is_file_of (get_user_id d) calls.new_id f ≡ false
    foreign f d owner other = elim (Bool-cases (str_eq f.user_id (get_user_id d))) [
      | inl same ↦ absurd (other (sym ((eq_iff f.user_id (get_user_id d)).0 same) ∙ owner))
      | inr apart ↦ dropped (str_eq f.id calls.new_id) (not (str_eq f.status "deleted")) apart
    ]
      where
        dropped :
            (a b : Bool)
            → str_eq f.user_id (get_user_id d) ≡ false
            → (a && str_eq f.user_id (get_user_id d) && b) ≡ false
        dropped a b h = ground arith

    not_blank : (path : String) → str_eq (trim_space path) "" ≡ false → str_eq path "" ≡ false
    not_blank path h = elim (Bool-cases (str_eq path "")) [
      | inl empty ↦ absurd (blank path ((eq_iff path "").0 empty) h)
      | inr other ↦ other
    ]

    -- The owner's download.
    own_download :
        (f : FileRecord) (files : List FileRecord) (disk : Disk) (d : Ctx) (payload : String)
        → f.id ≡ calls.new_id
        → f.user_id ≡ get_user_id c
        → f.status ≡ "uploaded"
        → str_eq (trim_space f.storage_path) "" ≡ false
        → os.read f.storage_path disk ≡ some payload
        → get_user_id d ≡ get_user_id c
        → (handle_download_file os dir calls calls.new_id d
            (record { files = f ∷ files; disk = disk })).ctx.body
          ≡ value (str payload)
    unfolding handle_download_file get_file_record find_file read_file
    own_download f files disk d payload id owner status path content same =
        rw
          (
            works,
            mine f d id (owner ∙ sym same) status,
            not_blank f.storage_path path,
            path,
            content,
          )
          refl

    other_download :
        (f : FileRecord) (files : List FileRecord) (disk : Disk) (d : Ctx)
        → f.user_id ≡ get_user_id c
        → any (has_file_id calls.new_id) files ≡ false
        → get_user_id d ≢ get_user_id c
        → (handle_download_file os dir calls calls.new_id d
            (record { files = f ∷ files; disk = disk })).ctx.status
          ≡ 404
    unfolding handle_download_file get_file_record find_file
    other_download f files disk d owner free other =
        rw (works, foreign f d owner other, find_file-none (get_user_id d) calls.new_id files free)
          refl

    -- A row that was inserted.
    inserted :
        (up : Upload) (mime path payload : String) (disk : Disk)
        → str_eq (trim_space path) "" ≡ false
        → os.read path disk ≡ some payload
        → any (has_file_id calls.new_id) w.files ≡ false
        → IsShared c w (
            recorded os dir calls path disk
              (
                if calls.reread_fails
                    then none
                    else find_file
                        (get_user_id c)
                        calls.new_id
                        (record_of os dir calls up mime path c ∷ w.files),
                record_of os dir calls up mime path c ∷ w.files,
              )
              c
              w)
    unfolding find_file
    inserted up mime path payload disk named_path content free =
        let f = record_of os dir calls up mime path c in
        if-cases (λ o. IsShared c w (recorded os dir calls path disk (o, f ∷ w.files) c w))
          calls.reread_fails _ _ (λ down. lost _ refl down)
          (λ up_again. rw (mine f c refl refl refl) (
            uploaded payload _ refl
              (λ d same.
                own_download f w.files disk d payload refl refl refl named_path content same)
              (λ d other. other_download f w.files disk d refl free other)))

    placed-IsShared :
        (up : Upload) (mime payload : String) (o : Option Disk)
        → os.create (os.join dir (os.base calls.new_id)) payload w.disk ≡ o
        → IsShared c w
            (stored os dir calls up mime (placed os dir (os.join dir (os.base calls.new_id)) o) c w)
    unfolding create_file_record
    placed-IsShared up mime payload none e = rejected _ (omega arith) refl
    placed-IsShared up mime payload (some disk) e =
        let path = os.join dir (os.base calls.new_id) in
        if-cases (λ r. IsShared c w (recorded os dir calls path disk r c w))
          (calls.insert_fails || any (has_file_id calls.new_id) w.files) _ _
          (λ _. rejected _ (omega arith) refl)
          (λ free.
            inserted up mime path payload disk (os.join_named dir (os.base calls.new_id) named)
              (os.read_created path payload w.disk disk e)
              (unused calls.insert_fails (any (has_file_id calls.new_id) w.files) free))
      where
        unused : (a b : Bool) → (a || b) ≡ false → b ≡ false
        unused a b h = ground arith

    stored-IsShared :
        (up : Upload) (mime payload : String)
        → IsShared c w (stored os dir calls up mime (put os dir calls.new_id payload w.disk) c w)
    unfolding put
    stored-IsShared up mime payload =
        if-cases (λ o. IsShared c w (stored os dir calls up mime o c w))
          (str_eq (trim_space calls.new_id) "") _ _ (λ _. rejected _ (omega arith) refl)
          (λ _.
            placed-IsShared up mime payload
              (os.create (os.join dir (os.base calls.new_id)) payload w.disk) refl)

    reading-IsShared :
        (up : Upload) (r : Reading) → IsShared c w (take_reading os dir calls up r c w)
    reading-IsShared up unopened = rejected _ (omega arith) refl
    reading-IsShared up unreadable = rejected _ (omega arith) refl
    reading-IsShared up (cut_off first_chunk) =
        if-cases (IsShared c w)
          (file_mime_allowed calls.to_lower (calls.detect first_chunk) up.declared_mime
            calls.allow_list)
          _ _ (λ _. rejected _ (omega arith) refl) (λ _. rejected _ (omega arith) refl)
    reading-IsShared up (whole first_chunk payload) =
        if-cases (IsShared c w)
          (file_mime_allowed calls.to_lower (calls.detect first_chunk) up.declared_mime
            calls.allow_list)
          _ _
          (λ _.
            if-cases (IsShared c w) (is_blocked calls.contains payload) _ _
              (λ _. rejected _ (omega arith) refl)
              (λ _. stored-IsShared up (calls.detect first_chunk) payload))
          (λ _. rejected _ (omega arith) refl)

    take_file-IsShared : (up : Option Upload) → IsShared c w (take_file os dir calls up c w)
    take_file-IsShared none = rejected _ (omega arith) refl
    take_file-IsShared (some up) =
        if-cases (IsShared c w) (leb_ℤ up.size (pos 0)) _ _ (λ _. rejected _ (omega arith) refl)
          (λ _.
            if-cases (IsShared c w) (exceeds os dir calls up.size calls.max_size_mb) _ _
              (λ _. rejected _ (omega arith) refl) (λ _. reading-IsShared up up.reading))

    behind_write-IsShared :
        (up : Option Upload) (may : Option Bool)
        → IsShared c w (behind_write os dir calls may (take_file os dir calls up) c w)
    behind_write-IsShared up none = rejected _ (omega arith) refl
    behind_write-IsShared up (some true) = take_file-IsShared up
    behind_write-IsShared up (some false) = rejected _ (omega arith) refl

    -- Where the files' directory has a name and the rows can be read, an upload is answered with an
    -- error and adds no file; or its row was written but not read back, and the answer is 500; or it
    -- is answered 201. Then a download of the new file by its owner, in the state that the upload
    -- leaves, has the content that was uploaded, and one by any other user is answered 404.
    pub handle_upload_file-IsShared :
        (up : Option Upload) → IsShared c w (handle_upload_file os dir calls up c w)
    unfolding handle_upload_file
    handle_upload_file-IsShared up =
        if-cases (IsShared c w) (str_eq (local_string c.locals.workspace_id) "") _ _
          (λ _. take_file-IsShared up)
          (λ _.
            behind_write-IsShared up
              (calls.may_write (local_string c.locals.workspace_id) (get_user_id c)))
