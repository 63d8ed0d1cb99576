-- ===== src/Engine/Work.antt =====
-- The queue of internal/engine/engine.go: `enqueue`, and how a worker receives a path and begins its
-- build. The capacity of the channel, 2^16 paths, is not modelled.
use docker_smartclips.Prelude.{◌+◌, ◌-◌, Option, none, some, List, [], ◌∷◌, ◌++◌, if◌then◌else◌}
use docker_smartclips.Config.Names.{Text, same_text}
use docker_smartclips.Dict.{has}
use docker_smartclips.Engine.State.{ClipState, Job, Work}

-- `delete(e.queued, path)`
abbrev pub forget : Text → List Text → List Text
forget p [] = []
forget p (q ∷ qs) = if same_text p q then forget p qs else q ∷ forget p qs

unfoldable pub enqueue : Text → Work → Work
enqueue p k =
    if has p k.queued then k else record k { queue = k.queue ++ (p ∷ []); queued = p ∷ k.queued }

-- `path := <-e.queue`, where the queue is `p` and then `rest`.
abbrev pub receive : Text → List Text → Work → Work
receive p rest k = record k { queue = rest; received = p ∷ k.received }

-- A worker looks up the path that it received; the others have received `others`.
unfoldable pub begin : Text → List Text → Option ClipState → Work → Work
begin p others none k = record k { queued = forget p k.queued; received = others }
begin p others (some st) k = record k {
  queued = forget p k.queued;
  received = others;
  jobs = record { path = p; clip = st.clip; input = st.input; key = st.key } ∷ k.jobs;
  building = k.building + 1;
}

-- A worker has built; the others' builds are `others`.
abbrev pub end_job : List Job → Work → Work
end_job others k = record k { jobs = others; building = k.building - 1 }
