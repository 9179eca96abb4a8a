-- ===== src/Upload.antt =====
-- The upload of a photo or a document: the control (frontend/src/shared/ui/file-upload.tsx), the checks
-- before a file is posted (frontend/src/core/lib/upload/fileStorage.ts), and the form's value that the
-- control sets (frontend/src/modules/registration/components/RegisterDocumentsStep.tsx). An upload
-- takes time: its start and its end are two events, between which others may come. The objects that are
-- made and revoked for a preview are numbers; dragging, and the status for screen readers, are not
-- modelled.
pub mod Laws
pub mod Display
mod Tests
use choschmous_v.Base.Options.{◌>>=◌}
use choschmous_v.Base.Picking.{pick}
use choschmous_v.Base.{
  ℕ, zero, suc, ◌*◌, Bool, true, false, not, ◌&&◌, Option, none, some, List, [], ◌∷◌, ltb,
  if◌then◌else◌, nat_eq, or_else, is_some, includes, Text, codes, text_eq, is_empty, starts_with,
}

pub record File : Type 0 where
  pub name : Text
  pub type : Text
  pub size : ℕ

-- `UploadConstraints`
pub record Constraints : Type 0 where
  pub allowed_types : List Text
  pub max_size : ℕ

abbrev pub photo : Constraints
photo = record {
  allowed_types = codes "image/jpeg" ∷ codes "image/png" ∷ codes "image/webp" ∷ [];
  max_size = 2 * 1024 * 1024;
}

abbrev pub document : Constraints
document = record {
  allowed_types =
      codes "image/jpeg" ∷ codes "image/png" ∷ codes "image/webp" ∷ codes "application/pdf" ∷ [];
  max_size = 5 * 1024 * 1024;
}

-- What `uploadFile` does with a file before it waits for the server.
pub data Attempt : Type 0 where
  invalid_type too_large post : Attempt

abbrev pub upload_file : Constraints → File → Attempt
upload_file c f =
    if not (includes c.allowed_types f.type)
    then invalid_type
    else (if ltb c.max_size f.size then too_large else post)

abbrev pub is_post : Attempt → Bool
is_post post = true
is_post _ = false

pub data Variant : Type 0 where
  hero tile : Variant

abbrev pub is_hero : Variant → Bool
is_hero hero = true
is_hero tile = false

pub data UploadError : Type 0 where
  over_size not_image failed : UploadError

-- The source of a preview: an object for a chosen file, or a stored value.
pub data Url : Type 0 where
  object : ℕ → Url
  stored : Text → Url

-- A call of `handleFile` that waits: its file, its object, the value of the form at its start, and
-- whether the file has been posted.
pub record Pending : Type 0 where
  pub file : File
  pub object_url : Option Url
  pub value : Option Text
  pub is_posted : Bool

pub record Answer : Type 0 where
  pub file : File
  pub path : Text

-- The control and the form's value; all answers with a path, the latest first; the calls that wait.
pub record State : Type 0 where
  pub uploading : Bool
  pub upload_error : Option UploadError
  pub preview_url : Option Url
  pub file_name : Option Text
  pub value : Option Text
  pub objects : ℕ
  pub pending : List Pending
  pub answers : List Answer
  pub posted : List File

-- `value || null`
abbrev pub value_or_null : Option Text → Option Text
value_or_null none = none
value_or_null (some t) = if is_empty t then none else some t

abbrev pub preview_of : Option Text → Option Url
preview_of none = none
preview_of (some t) = if is_empty t then none else some (stored t)

unfoldable pub start : Option Text → State
start value = record {
  uploading = false;
  upload_error = none;
  preview_url = preview_of value;
  file_name = none;
  value = value;
  objects = 0;
  pending = [];
  answers = [];
  posted = [];
}

abbrev pub is_image : File → Bool
is_image f = starts_with f.type (codes "image/")

-- A file is chosen, or dropped on the control; the value is removed; a call ends with the path of the
-- file, or with a rejection.
pub data Event : Type 0 where
  choose : File → Event
  remove : Event
  fulfilled : ℕ → Text → Event
  rejected : ℕ → Event

module _ (variant : Variant) (max_size : ℕ) (c : Constraints) where
  -- The call, as it waits.
  abbrev pub call_of : File → State → Pending
  call_of f s = record {
    file = f;
    object_url = if is_image f then some (object s.objects) else none;
    value = s.value;
    is_posted = is_post (upload_file c f);
  }

  -- `handleFile` from `setUploading(true)` up to its `await`.
  abbrev pub begin_upload : File → State → State
  begin_upload f s = record {
    uploading = true;
    upload_error = none;
    preview_url = if is_image f then (call_of f s).object_url else s.preview_url;
    file_name = some f.name;
    value = s.value;
    objects = if is_image f then suc s.objects else s.objects;
    pending = call_of f s ∷ s.pending;
    answers = s.answers;
    posted = if is_post (upload_file c f) then f ∷ s.posted else s.posted;
  }

  -- `handleFile` up to its `await`.
  unfoldable pub handle_file : File → State → State
  handle_file f s =
      if ltb max_size f.size
      then record s { upload_error = some over_size }
      else (if not (is_image f) && is_hero variant
          then record s { upload_error = some not_image }
          else begin_upload f s)

  -- `handleFile` behind its `await`, of the call that is no longer in the list.
  abbrev pub succeed : Text → Pending → List Pending → State → State
  succeed path p others s = record s {
    value = value_or_null (some path);
    uploading = false;
    pending = others;
    answers = record { file = p.file; path = path } ∷ s.answers;
  }

  abbrev pub fail : Pending → List Pending → State → State
  fail p others s = record s {
    upload_error = some failed;
    preview_url = preview_of p.value;
    file_name = none;
    uploading = false;
    pending = others;
  }

  abbrev pub handle_remove : State → State
  handle_remove s = record s {
    preview_url = none;
    file_name = none;
    upload_error = none;
    value = none;
  }

  -- The preview or the name of a file stands in place of the control that takes one.
  abbrev pub shows_file : State → Bool
  shows_file s =
      if is_hero variant then is_some s.preview_url else is_some (value_or_null s.file_name)

  -- What an event does where it can happen: a file is taken where the control is on the page, and
  -- removed where a file is; a path is the answer to a call that has posted its file.
  unfoldable pub handle : Event → State → Option State
  handle (choose f) s = if not (shows_file s) then some (handle_file f s) else none
  handle remove s = if shows_file s then some (handle_remove s) else none
  handle (fulfilled i path) s =
      pick i s.pending >>= λ r. if r.0.is_posted then some (succeed path r.0 r.1 s) else none
  handle (rejected i) s = pick i s.pending >>= λ r. some (fail r.0 r.1 s)

  -- The control after events, of which those that are not possible do nothing.
  unfoldable pub run : List Event → State → State
  run [] s = s
  run (e ∷ es) s = run es (or_else (handle e s) s)
