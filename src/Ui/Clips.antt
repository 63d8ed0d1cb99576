-- ===== src/Ui/Clips.antt =====
-- `ServeHTTP`'s checks, `getClips` and `putClips` of internal/ui/server.go, over a request whose body is
-- decoded already.
use docker_smartclips.Prelude.{
  Bool, true, false, not, ◌&&◌, Option, none, some, List, [], ◌∷◌, if◌then◌else◌,
}
use docker_smartclips.Floats.{Floats}
use docker_smartclips.Config.Names.{Text, is_empty, same_text}
use docker_smartclips.Config.Clip.{Clip}
use docker_smartclips.Config.Validate.{Resolved, Problem, validate}
use docker_smartclips.Config.Stored.{Codec, Disk, LoadedFile, FileCalls, load, save}

pub data Method : Type 0 where
  get head put other : Method

abbrev pub is_reading : Method → Bool
is_reading get = true
is_reading head = true
is_reading _ = false

-- What `ServeHTTP` reads of a request: its method, the header Sec-Fetch-Site and the media type.
pub record Request : Type 0 where
  pub method : Method
  pub site : Text
  pub media_type : Text

-- Passed on, or refused with 403 or 415.
pub data Admission : Type 0 where
  admitted forbidden unsupported_media : Admission

-- "same-origin" and "application/json"
abbrev pub same_origin : Text
same_origin = 0x73 ∷ 0x61 ∷ 0x6d ∷ 0x65 ∷ 0x2d ∷ 0x6f ∷ 0x72 ∷ 0x69 ∷ 0x67 ∷ 0x69 ∷ 0x6e ∷ []

abbrev pub application_json : Text
application_json =
    0x61 ∷ 0x70 ∷ 0x70 ∷ 0x6c ∷ 0x69 ∷ 0x63 ∷ 0x61 ∷ 0x74 ∷ 0x69 ∷ 0x6f ∷ 0x6e ∷ 0x2f ∷ 0x6a ∷ 0x73
    ∷ 0x6f ∷ 0x6e ∷ []

-- `ServeHTTP` in front of the handlers.
unfoldable pub admit : Request → Admission
admit r =
    if is_reading r.method
    then admitted
    else if not (is_empty r.site) && not (same_text r.site same_origin)
    then forbidden
    else if not (same_text r.media_type application_json)
    then unsupported_media
    else admitted

pub record PutRequest : Type 0 where
  pub clips : List Clip
  pub version : Text

-- 200, 400, 422, 500 and 409
pub data Response : Type 0 where
  saved : Text → Response
  bad_request : Response
  invalid : List Problem → Response
  server_error conflict : Response

module _ (floats : Floats) (lower : Text → Text) (codec : Codec) where
  -- `getClips` as far as it reads the clips file.
  abbrev pub get_clips : FileCalls → Disk → Option LoadedFile
  get_clips calls disk = load codec calls disk

  abbrev pub answer_saved : Option Text × Disk → Response × Disk
  answer_saved (none, disk) = (server_error, disk)
  answer_saved (some v, disk) = (saved v, disk)

  -- What `putClips` does with the lock held.
  unfoldable pub save_clips : FileCalls → PutRequest → Disk → Response × Disk
  save_clips calls req disk = elim (load codec calls disk) [
    | none ↦ (server_error, disk)
    | some current ↦
        if same_text req.version current.version
        then answer_saved (save codec calls req.clips disk)
        else (conflict, disk)
  ]

  abbrev pub when_valid : FileCalls → PutRequest → List Problem → Disk → Response × Disk
  when_valid calls req [] disk = save_clips calls req disk
  when_valid calls req (p ∷ ps) disk = (invalid (p ∷ ps), disk)

  -- `putClips`; `none` is a body that cannot be decoded.
  unfoldable pub put_clips :
      (Text → Resolved) → FileCalls → Option PutRequest → Disk → Response × Disk
  put_clips resolve calls none disk = (bad_request, disk)
  put_clips resolve calls (some req) disk =
      when_valid calls req (validate floats lower resolve req.clips) disk
