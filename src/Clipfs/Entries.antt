-- ===== src/Clipfs/Entries.antt =====
-- `SetClip`, `RemoveClip` and `Len` of internal/clipfs/clipfs.go on the map of entries, which is the
-- sink of the engine. The nodes that they place in the mounted tree are not modelled.
use docker_smartclips.Prelude.{ℕ, ◌≡◌, refl, ap, inl, inr, Option, none, some, length, Option-cases}
use docker_smartclips.Config.Names.{Text}
use docker_smartclips.Dict.{
  Differs, Dict, lookup, insert, erase, lookup-insert_self, lookup-insert_ne, lookup-erase_self,
  lookup-erase_ne,
}
use docker_smartclips.Layout.Part.{Layout}
use docker_smartclips.Engine.State.{Sink}

-- `entry`; the document is `none` where the source's slice is nil.
pub record Entry : Type 0 where
  pub layout : Layout
  pub nfo : Option Text
  pub nfo_time : ℕ

unfoldable pub set_clip : Text → Layout → Option Text → ℕ → Dict Entry → Dict Entry
set_clip p l nfo t entries = insert p (record { layout = l; nfo = nfo; nfo_time = t }) entries

unfoldable pub remove_clip : Text → Dict Entry → Dict Entry
remove_clip p entries = elim (lookup p entries) [ none ↦ entries | some e ↦ erase p entries ]

-- `Len`
abbrev pub len : Dict Entry → ℕ
len entries = length entries

abbrev pub layout_of : Option Entry → Option Layout
layout_of none = none
layout_of (some e) = some e.layout

-- The layout of the clip under a path.
abbrev pub served : Text → Dict Entry → Option Layout
served p entries = layout_of (lookup p entries)

pub remove_clip_self : (p : Text) (entries : Dict Entry) → served p (remove_clip p entries) ≡ none
unfolding remove_clip
remove_clip_self p entries = elim (Option-cases (lookup p entries)) [
  | inl e ↦ rw (e, remove_clip) (ap layout_of e)
  | inr (x, e) ↦ rw (e, remove_clip) (ap layout_of (lookup-erase_self p entries))
]

pub remove_clip_ne :
    (q p : Text) (entries : Dict Entry)
    → Differs q p
    → served q (remove_clip p entries) ≡ served q entries
unfolding remove_clip
remove_clip_ne q p entries d = elim (Option-cases (lookup p entries)) [
  | inl e ↦ rw (e, remove_clip) refl
  | inr (x, e) ↦ rw (e, remove_clip) (ap layout_of (lookup-erase_ne q p entries d))
]

pub set_clip_self :
    (p : Text) (l : Layout) (nfo : Option Text) (t : ℕ) (entries : Dict Entry)
    → served p (set_clip p l nfo t entries) ≡ some l
unfolding set_clip
set_clip_self p l nfo t entries = ap layout_of (lookup-insert_self p _ entries)

pub set_clip_ne :
    (q p : Text) (l : Layout) (nfo : Option Text) (t : ℕ) (entries : Dict Entry)
    → Differs q p
    → served q (set_clip p l nfo t entries) ≡ served q entries
unfolding set_clip
set_clip_ne q p l nfo t entries d = ap layout_of (lookup-insert_ne q p _ entries d)

-- The map of entries is a sink.
abbrev pub entries_sink : Sink (Dict Entry)
entries_sink = record {
  set_clip = set_clip;
  remove_clip = remove_clip;
  served = served;
  served-set_self = set_clip_self;
  served-set_ne = set_clip_ne;
  served-remove_self = remove_clip_self;
  served-remove_ne = remove_clip_ne;
}
