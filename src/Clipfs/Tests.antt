-- ===== src/Clipfs/Tests.antt =====
-- Runs of the files of internal/clipfs, and the theorems at a concrete clip.
use docker_smartclips.Prelude.{ℕ, ◌≡◌, refl, arith, List, [], ◌∷◌, some, true, false}
use docker_smartclips.Io.{file_reader}
use docker_smartclips.Layout.Tests.{clip, clip-IsFinal, film_bytes}
use docker_smartclips.Clipfs.Files.{
  Root, Opening, opened, not_opened, handle, refused, open_clip, static_read,
}
use docker_smartclips.Clipfs.Serving.{Serves, open_clip-Serves}

abbrev root : Root
root = record { uid = 1000; gid = 1000; created = 0 }

-- The data file as it was, and after a change.
abbrev film_file : List ℕ → Opening
film_file p = opened (file_reader film_bytes) (some (8, 1))

abbrev changed_file : List ℕ → Opening
changed_file p = opened (file_reader film_bytes) (some (8, 2))

open_clip-opens : open_clip film_file clip 0 ≡ handle (file_reader film_bytes)
unfolding open_clip
open_clip-opens = refl

open_clip-writes : open_clip film_file clip 1 ≡ refused 30 false
unfolding open_clip
open_clip-writes = refl

open_clip-stale : open_clip changed_file clip 0 ≡ refused 5 true
unfolding open_clip
open_clip-stale = refl

open_clip-gone : open_clip (λ p. not_opened (some 2)) clip 0 ≡ refused 2 true
unfolding open_clip
open_clip-gone = refl

static_read-tail : static_read (1 ∷ 2 ∷ 3 ∷ []) 4 1 ≡ 2 ∷ 3 ∷ []
unfolding static_read
static_read-tail = refl

open_clip-Serves_example : Serves root clip (file_reader film_bytes) film_bytes
open_clip-Serves_example =
    open_clip-Serves root clip film_bytes clip-IsFinal (omega arith) (omega arith) film_file 0 1
      (file_reader film_bytes) refl open_clip-opens
