-- ===== src/Ui/Tests.antt =====
-- Runs of the handlers of internal/ui, and the theorems at concrete requests.
use mathlib.Core.List.{Perm}
use docker_smartclips.Prelude.{ℕ, ◌≡◌, refl, true, false, none, some, List, [], ◌∷◌}
use docker_smartclips.Config.Names.{Text, trim_slashes, trim_space, check_name, group_problems}
use docker_smartclips.Config.Clip.{path, name_problems}
use docker_smartclips.Config.Metadata.{check_metadata}
use docker_smartclips.Config.Validate.{found, clip_problems, validate_loop, validate}
use docker_smartclips.Config.Stored.{Codec, FileCalls, is_blank, parse, load, encode, save}
use docker_smartclips.Config.Tests.{grouped, plain_floats}
use docker_smartclips.Ui.Clips.{
  put, get, admitted, forbidden, admit, PutRequest, saved, conflict, save_clips, put_clips,
}
use docker_smartclips.Ui.Saved.{
  IsWritten, IsHandled, put_clips-IsHandled, is_saved, put_clips-keeps_first,
}
use docker_smartclips.Ui.Times.{
  Parser, frame, preview, preview_of, bad_length, parse_seconds, IsAllowed, asked-IsAllowed,
}
use docker_smartclips.Ui.Browse.{Found, IsSorted, shown, browse, insert_entry, browse-IsSorted}
use docker_smartclips.Engine.Build.{ext}

-- A file's hash is its content, and every list of clips is one byte of JSON.
abbrev codec : Codec
codec = record { hash = λ b. b; marshal = λ clips. some (0x5b ∷ []); unmarshal = λ b. some [] }

abbrev all_well : FileCalls
all_well = record { can_read = true; stat = some 7; can_write = true }

abbrev keep_case : Text → Text
keep_case t = t

-- A request based on a missing file.
abbrev request : PutRequest
request = record { clips = grouped ∷ []; version = [] }

put_clips-saved :
    put_clips plain_floats keep_case codec found all_well (some request) none
    ≡ (saved (0x5b ∷ 0x0a ∷ []), some (0x5b ∷ 0x0a ∷ []))
unfolding put_clips save_clips load save encode validate validate_loop clip_problems name_problems
    group_problems check_name trim_space trim_slashes path check_metadata
put_clips-saved = refl

put_clips-conflict :
    put_clips plain_floats keep_case codec found all_well (some request) (some (0x5b ∷ 0x0a ∷ []))
    ≡ (conflict, some (0x5b ∷ 0x0a ∷ []))
unfolding put_clips save_clips load save encode validate validate_loop clip_problems name_problems
    group_problems check_name trim_space trim_slashes path check_metadata parse is_blank
put_clips-conflict = refl

parse-blank : parse codec (0x20 ∷ 0xe2 ∷ 0x80 ∷ 0x83 ∷ 0x0a ∷ []) ≡ some []
unfolding parse is_blank
parse-blank = refl

put_clips-IsHandled_example :
    IsHandled plain_floats keep_case found codec
      (some request)
      none
      (put_clips plain_floats keep_case codec found all_well (some request) none).0
      (put_clips plain_floats keep_case codec found all_well (some request) none).1
put_clips-IsHandled_example =
    put_clips-IsHandled plain_floats keep_case found codec all_well (some request) none

saved_first :
    (put_clips plain_floats keep_case codec found all_well (some request) none).0
    ≡ saved (0x5b ∷ 0x0a ∷ [])
unfolding put_clips save_clips load save encode validate validate_loop clip_problems name_problems
    group_problems check_name trim_space trim_slashes path check_metadata
saved_first = refl

put_clips-keeps_first_example :
    let after = (put_clips plain_floats keep_case codec found all_well (some request) none).1 in
    (is_saved plain_floats keep_case found codec
        (put_clips plain_floats keep_case codec found all_well (some request) after).0
      ≡ false)
    × ((put_clips plain_floats keep_case codec found all_well (some request) after).1 ≡ after)
    × IsWritten codec (grouped ∷ []) (0x5b ∷ 0x0a ∷ []) after
put_clips-keeps_first_example =
    put_clips-keeps_first plain_floats keep_case found codec all_well all_well request request none
      (0x5b ∷ 0x0a ∷ []) refl saved_first (λ e. absurd (cc))

admit-cross_site : admit (record { method = put; site = 0x63 ∷ []; media_type = [] }) ≡ forbidden
unfolding admit
admit-cross_site = refl

admit-get : admit (record { method = get; site = 0x63 ∷ []; media_type = [] }) ≡ admitted
unfolding admit
admit-get = refl

-- A time is its one character, which stands for the float64 itself.
abbrev parser : Parser
parser = record { parse_float = λ v. some (first v); is_nan = λ f. false }
  where
    first : Text → ℕ
    first [] = 0
    first (n ∷ v) = n

preview-short : preview plain_floats parser (found []) (1 ∷ []) (2 ∷ []) ≡ bad_length
unfolding preview parse_seconds
preview-short = refl

preview-asked :
    preview plain_floats parser (found []) (1 ∷ []) (0x4000000000000000 ∷ [])
    ≡ preview_of [] 1 0x4000000000000000
unfolding preview parse_seconds
preview-asked = refl

asked-IsAllowed_example :
    IsAllowed plain_floats parser (found []) (frame plain_floats parser (found []) (1 ∷ []))
    × IsAllowed plain_floats parser
        (found [])
        (preview plain_floats parser (found []) (1 ∷ []) (0x4000000000000000 ∷ []))
asked-IsAllowed_example =
    asked-IsAllowed plain_floats parser (found []) (1 ∷ []) (1 ∷ []) (0x4000000000000000 ∷ [])

-- "b.ts", the folder "c", and the hidden ".x"
abbrev folder : List Found
folder =
    record { name = 0x62 ∷ 0x2e ∷ 0x74 ∷ 0x73 ∷ []; info = some (false, 9) }
    ∷ record { name = 0x63 ∷ []; info = some (true, 0) }
    ∷ record { name = 0x2e ∷ 0x78 ∷ []; info = some (true, 0) }
    ∷ []

browse-folders_first :
    browse keep_case folder
    ≡ record { name = 0x63 ∷ []; dir = true; size = 0 }
      ∷ record { name = 0x62 ∷ 0x2e ∷ 0x74 ∷ 0x73 ∷ []; dir = false; size = 9 }
      ∷ []
unfolding browse insert_entry ext
browse-folders_first = refl

browse-IsSorted_example :
    IsSorted keep_case (browse keep_case folder)
    × Perm (browse keep_case folder) (shown keep_case folder)
browse-IsSorted_example = browse-IsSorted keep_case folder
