-- ===== src/Engine/Update.antt =====
-- `applyClip` of internal/engine/engine.go, with `clipKey`, `metadataEqual`, `dataValid`, `statusOf` and
-- `publish`: what becomes of one clip, of the sink, and whether the clip is queued.
use docker_smartclips.Prelude.{
  ℕ, Bool, true, false, not, ◌&&◌, ◌||◌, Option, none, some, [], if◌then◌else◌,
}
use docker_smartclips.Config.Names.{Text, is_empty, same_text}
use docker_smartclips.Config.Clip.{Clip}
use docker_smartclips.Config.Validate.{found, unresolved, fields_of}
use docker_smartclips.Layout.Part.{FileId, Layout}
use docker_smartclips.Layout.Stored.{
  format_version, stat_ok, stat_error, not_regular, stat, same_file, load,
}
use docker_smartclips.Nfo.Write.{generate}
use docker_smartclips.Engine.State.{
  Library, System, Failure, input_error, file_error, irregular, Status, pending, ready, failed,
  is_failed, ClipState, File, Sink,
}

abbrev pub is_some {ℓ} : {A : Type ℓ} → Option A → Bool
is_some none = false
is_some (some a) = true

-- The time of the file, or that of the layout.
abbrev pub nfo_time : Option ℕ → Layout → ℕ
nfo_time none l = l.built
nfo_time (some t) l = t

-- `e.file.ModTime`; before the first `Apply` there is no file, and no clip to publish.
abbrev pub mod_time_of : Option File → Option ℕ
mod_time_of none = none
mod_time_of (some f) = f.mod_time

-- `dataValid`
unfoldable pub data_valid : System → Layout → Bool
data_valid w l = elim (stat w.os_stat l.source.path) [
  | stat_ok id ↦ same_file id l.source
  | stat_error e ↦ false
  | not_regular ↦ false
]

-- `st.ready == nil || e.dataValid(st.ready)`
abbrev pub data_kept : System → Option Layout → Bool
data_kept w none = true
data_kept w (some l) = data_valid w l

-- `statusOf`
unfoldable pub status_of : System → Layout → Status
status_of w l = ready l.kind l.actual_start l.actual_end l.size (w.relative l.origin.path)

-- `layout.Load` of the index entry, where its data is still valid.
unfoldable pub load_valid : System → Text → Option Layout
load_valid w key = elim (load (w.index key)) [
  | none ↦ none
  | some l ↦ if data_valid w l then some l else none
]

-- The clip's new state, the sink, and whether the clip is queued.
pub record Outcome (S : Type 0) : Type 0 where
  pub state : ClipState
  pub sink : S
  pub waits : Bool

-- `st.ready != nil && st.ready.Origin != origin`
abbrev pub is_replaced : FileId → Option Layout → Bool
is_replaced origin none = false
is_replaced origin (some l) = not (same_file l.origin origin)

module _ (lib : Library) where
  -- `publish`'s document: none without metadata and NFO type.
  unfoldable pub nfo_of : Clip → Option Text
  nfo_of c =
      if is_some c.metadata || not (is_empty c.nfo_type)
      then some (generate lib.format c.nfo_type (fields_of c.metadata))
      else none

  -- `clipKey`
  abbrev pub clip_key : Clip → FileId → Text
  clip_key c origin = lib.hash format_version origin c.start c.finish c.output

  -- `metadataEqual`
  abbrev pub metadata_equal : Clip → Clip → Bool
  metadata_equal a b =
      same_text (lib.marshal a.nfo_type a.metadata) (lib.marshal b.nfo_type b.metadata)

  module _ {S : Type 0} (sink : Sink S) where
    -- `if st.ready != nil { e.sink.RemoveClip(path) }`
    abbrev pub withdraw : Text → Option Layout → S → S
    withdraw p none s = s
    withdraw p (some l) s = sink.remove_clip p s

    -- `publish`, of the clip's layout
    unfoldable pub publish : Option File → Text → Clip → Layout → S → S
    publish file p c l s = sink.set_clip p l (nfo_of c) (nfo_time (mod_time_of file) l) s

    abbrev pub republish : Option File → Text → Clip → Option Layout → S → S
    republish file p c none s = s
    republish file p c (some l) s = publish file p c l s

    -- The closure `fail`
    unfoldable pub fail : Text → Clip → ClipState → Failure → S → Outcome S
    fail p c st e s = record {
      state = record { clip = c; input = []; key = []; status = failed e; ready = none };
      sink = withdraw p st.ready s;
      waits = false;
    }

    -- The clip is the one that is served, queued or built.
    unfoldable pub keep : Option File → Text → Clip → ClipState → S → Outcome S
    keep file p c st s = record {
      state = record st { clip = c };
      sink = if metadata_equal st.clip c then s else republish file p c st.ready s;
      waits = false;
    }

    -- The end of `applyClip`, with the layout that stays served meanwhile.
    unfoldable pub load_or_wait :
        System → Option File → Text → Clip → Text → Text → Option Layout → S → Outcome S
    load_or_wait w file p c input key old s = elim (load_valid w key) [
      | some l ↦ record {
        state = record {
          clip = c;
          input = input;
          key = key;
          status = status_of w l;
          ready = some l;
        };
        sink = publish file p c l s;
        waits = false;
      }
      | none ↦ record {
        state = record { clip = c; input = input; key = key; status = pending; ready = old };
        sink = s;
        waits = true;
      }
    ]

    -- From the key on: an unchanged clip, a replaced source, or another version.
    unfoldable pub update_from :
        System → Option File → Text → Clip → Text → FileId → ClipState → S → Outcome S
    update_from w file p c input origin st s =
        let key = clip_key c origin in
        if same_text st.key key && (not (is_failed st.status) && data_kept w st.ready)
        then keep file p c st s
        else if is_replaced origin st.ready
        then load_or_wait w file p c input key none (sink.remove_clip p s)
        else load_or_wait w file p c input key st.ready s

    -- `applyClip`
    unfoldable pub update : System → Option File → Text → Clip → ClipState → S → Outcome S
    update w file p c st s = elim (w.resolve c.input) [
      | unresolved e ↦ fail p c st (input_error e) s
      | found input ↦ elim (stat w.os_stat input) [
        | stat_error e ↦ fail p c st (file_error e) s
        | not_regular ↦ fail p c st irregular s
        | stat_ok origin ↦ update_from w file p c input origin st s
      ]
    ]
