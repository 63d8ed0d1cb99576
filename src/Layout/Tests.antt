-- ===== src/Layout/Tests.antt =====
-- Runs of the functions of internal/layout, and the theorems at concrete inputs.
use docker_smartclips.Prelude.{
  ℕ, ◌-◌, ◌^◌, ◌≡◌, ◌⊎◌, ◌↔◌, refl, List, [], ◌∷◌, arith, All, none, some,
}
use docker_smartclips.Io.{ok, err, eof, part_range, file_reader}
use docker_smartclips.Io.Search.{search}
use docker_smartclips.Layout.Part.{
  Part, FileId, mkv, Layout, literal, range, append_part, append_last,
}
use docker_smartclips.Layout.Finalize.{check_part, finalize_loop, finalize}
use docker_smartclips.Layout.Read.{fill_part, read_loop, read_at}
use docker_smartclips.Layout.Content.{contents, Extends, append_part-Extends}
use docker_smartclips.Layout.Finalized.{
  InRange, IsPart, IsFinal, finalized, finalize_iff, finalize_wraps,
}
use docker_smartclips.Layout.ReadAt.{slice_read, IsServed, read_at-eq-slice}
use docker_smartclips.Prelude.{true, false}
use docker_smartclips.Dict.{lookup}
use docker_smartclips.Layout.Atomic.{on_disk, in_cache, Folder, Calls, write_file_atomic}
use docker_smartclips.Layout.Crash.{IsSafe, write_file_atomic-IsWhole}

abbrev pub film : FileId
film = record { path = 0x66 ∷ 0x69 ∷ 0x6c ∷ 0x6d ∷ []; size = 8; mod_time = 1 }

abbrev pub film_bytes : List ℕ
film_bytes = 10 ∷ 11 ∷ 12 ∷ 13 ∷ 14 ∷ 15 ∷ 16 ∷ 17 ∷ []

abbrev pub layout_of : List Part → ℕ → List ℕ → Layout
layout_of parts size offsets = record {
  version = 1;
  kind = mkv;
  origin = film;
  source = film;
  start = 0;
  finish = 0;
  actual_start = 0;
  actual_end = 0;
  size = size;
  built = 0;
  parts = parts;
  offsets = offsets;
}

abbrev pub clip_parts : List Part
clip_parts =
    record { bytes = some (1 ∷ 2 ∷ 3 ∷ []); off = 0; len = 3 }
    ∷ record { bytes = none; off = 2; len = 4 }
    ∷ []

abbrev pub clip : Layout
clip = layout_of clip_parts 7 (0 ∷ 3 ∷ [])

-- A read across the two parts.
read_across :
    read_at clip (0 ∷ 0 ∷ 0 ∷ 0 ∷ []) 1 (file_reader film_bytes) ≡ some (2 ∷ 3 ∷ 12 ∷ 13 ∷ [], none)
unfolding read_at read_loop fill_part search file_reader
read_across = refl

read_tail :
    read_at clip (0 ∷ 0 ∷ 0 ∷ 0 ∷ []) 5 (file_reader film_bytes) ≡ some (14 ∷ 15 ∷ [], some eof)
unfolding read_at read_loop fill_part search file_reader
read_tail = refl

finalize-clip : finalize (layout_of clip_parts 0 []) ≡ ok clip
unfolding finalize finalize_loop check_part
finalize-clip = refl

finalize_outside : finalize (layout_of (range 6 3 ∷ []) 0 []) ≡ err (part_range 0)
unfolding finalize finalize_loop check_part range
finalize_outside = refl

merged :
    append_part (append_part (range 2 3 ∷ []) (range 5 1)) (literal (9 ∷ []))
    ≡ range 2 4 ∷ literal (9 ∷ []) ∷ []
unfolding append_part append_last range literal
merged = refl

pub clip-IsFinal : IsFinal clip
clip-IsFinal = record { parts = omega arith; size = refl; offsets = refl }

clip_is_served : IsServed clip film_bytes (0 ∷ 0 ∷ []) 2
clip_is_served = record {
  final = clip-IsFinal;
  source = refl;
  file_small = omega arith;
  total_small = omega arith;
  buffer_small = omega arith;
  offset_small = omega arith;
}

read_at-eq-slice_example :
    read_at clip (0 ∷ 0 ∷ []) 2 (file_reader film_bytes)
    ≡ some (slice_read (contents film_bytes clip_parts) 2 2)
read_at-eq-slice_example = read_at-eq-slice clip film_bytes (0 ∷ 0 ∷ []) 2 clip_is_served

append_part-Extends_example :
    Extends film_bytes clip_parts
      (record { bytes = none; off = 6; len = 2 })
      (append_part clip_parts (record { bytes = none; off = 6; len = 2 }))
append_part-Extends_example =
    append_part-Extends film_bytes (record { bytes = none; off = 6; len = 2 }) (omega arith)
      (omega arith) clip_parts (omega arith) (omega arith)

in_range : All InRange clip_parts
in_range = (omega arith, ((omega arith, omega arith, λ a b. omega arith), tt))

finalize_iff_example : (finalize (layout_of clip_parts 0 []) ≡ ok clip) ↔ (
    All (IsPart 8) clip_parts
    × (◌≡◌ {A = ℕ} 0 0 ⊎ ◌≡◌ {A = ℕ} 0 7)
    × (clip ≡ finalized (layout_of clip_parts 0 [])))
finalize_iff_example =
    finalize_iff (layout_of clip_parts 0 [])
      (record { file = omega arith; ranges = in_range; sum = λ h. omega arith }) clip

abbrev wrapping_range : List Part
wrapping_range = range (2 ^ 63 - 1) 2 ∷ []

finalize_wraps_example :
    finalize (layout_of wrapping_range 0 []) ≡ ok (layout_of wrapping_range 2 (0 ∷ []))
finalize_wraps_example =
    finalize_wraps (layout_of wrapping_range 0 []) (2 ^ 63 - 1) 2 (omega arith) (omega arith)
      (omega arith) (omega arith) (omega arith) refl refl

-- The disk is full after one byte, or every call succeeds.
abbrev full_disk : Calls
full_disk = record {
  name = 0x74 ∷ [];
  create = true;
  write = false;
  written = 1;
  chmod = true;
  sync = true;
  close = true;
  rename = true;
  remove = true;
}

abbrev old_folder : Folder
old_folder = (0x66 ∷ [], on_disk (1 ∷ 2 ∷ [])) ∷ []

abbrev new_content : List ℕ
new_content = 3 ∷ 4 ∷ []

write_file_atomic-full : write_file_atomic full_disk (0x66 ∷ []) new_content old_folder ≡ record {
  success = false;
  now = old_folder;
  before =
      ((0x66 ∷ [], on_disk (1 ∷ 2 ∷ [])) ∷ (0x74 ∷ [], in_cache (3 ∷ [])) ∷ [])
      ∷ ((0x66 ∷ [], on_disk (1 ∷ 2 ∷ [])) ∷ (0x74 ∷ [], in_cache []) ∷ [])
      ∷ old_folder
      ∷ [];
}
unfolding write_file_atomic
write_file_atomic-full = refl

write_file_atomic-done :
    (write_file_atomic (record full_disk { write = true }) (0x66 ∷ []) new_content old_folder).now
    ≡ (0x66 ∷ [], on_disk new_content) ∷ []
unfolding write_file_atomic
write_file_atomic-done = refl

write_file_atomic-IsWhole_example :
    let t = write_file_atomic full_disk (0x66 ∷ []) new_content old_folder in
    IsSafe full_disk (0x66 ∷ []) new_content old_folder t.now
    × All (IsSafe full_disk (0x66 ∷ []) new_content old_folder) t.before
    × (t.success ≡ false → lookup (0x66 ∷ []) t.now ≡ lookup (0x66 ∷ []) old_folder)
    × (t.success ≡ true → lookup (0x66 ∷ []) t.now ≡ some (on_disk new_content))
write_file_atomic-IsWhole_example =
    write_file_atomic-IsWhole full_disk (0x66 ∷ []) new_content old_folder refl refl
