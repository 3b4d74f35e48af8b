-- ===== src/Dashboard/Events.antt =====
-- What a client of the stream of events reads from it, by the format of server-sent events.

use custom_network_proxy_ser.Base.{ℕ, none, some, List, [], ◌∷◌, ◌++◌, map, ◌==◌, if◌then◌else◌}
use custom_network_proxy_ser.Text.{Text, codes, same, split_once, join}
use custom_network_proxy_ser.Text.Files.{lines_of}
use custom_network_proxy_ser.LogSchema.{Fields}
use custom_network_proxy_ser.Json.{Json}
use custom_network_proxy_ser.Dashboard.{new_entries}
use custom_network_proxy_ser.Dashboard.Snapshot.{build_snapshot}
use custom_network_proxy_ser.Dashboard.Serve.{sse_text, entry_json, Pass}

-- The fields of the event that is being read.
pub record Pending : Type 0 where
  pub kind : Text
  pub lines : List Text

abbrev pub nothing : Pending
nothing = record { kind = []; lines = [] }

abbrev unspaced : Text → Text
unspaced [] = []
unspaced (c ∷ s) = if c == b' ' then s else c ∷ s

abbrev take_field : Text → Text → Pending → Pending
take_field name value p =
    if same name (codes "event")
    then record p { kind = value }
    else if same name (codes "data")
    then record p { lines = p.lines ++ value ∷ [] }
    else p

abbrev take_line : Text → Pending → Pending
take_line line p = elim (split_once b':' line) [
  | none ↦ take_field line [] p
  | some (name, value) ↦ take_field name (unspaced value) p
]

abbrev pub kind_of : Text → Text
kind_of [] = codes "message"
kind_of (c ∷ s) = c ∷ s

-- An empty line ends an event, which counts if it has data.
unfoldable pub read_lines : Pending → List Text → List (Text × Text)
read_lines p [] = []
read_lines p ([] ∷ ls) =
    let rest = read_lines nothing ls in
    elim p.lines [ [] ↦ rest | d ∷ ds ↦ (kind_of p.kind, join (10 ∷ []) (d ∷ ds)) ∷ rest ]
read_lines p ((c ∷ l) ∷ ls) = read_lines (take_line (c ∷ l) p) ls

-- The events of a stream: their types and their data.
unfoldable pub event_source : Text → List (Text × Text)
unfolding read_lines lines_of
event_source stream = read_lines nothing (lines_of stream)

-- What the passes of the loop have to tell: the snapshot, then each new entry.
abbrev pub log_events : List Fields → List (Text × Json)
log_events entries = map (λ (f : Fields). (codes "log", entry_json f)) entries

unfoldable pub told : (ℕ → ℕ → ℕ) → ℕ → List Pass → List (Text × Json)
unfolding new_entries build_snapshot
told rate last_log_count [] = []
told rate last_log_count (p ∷ passes) =
    let (entries, count) = new_entries last_log_count p.ring in
    (codes "metrics", build_snapshot rate p.seen) ∷ (log_events entries ++ told rate count passes)

abbrev pub stream_text : List (Text × Json) → Text
stream_text [] = []
stream_text ((kind, j) ∷ es) = sse_text kind j ++ stream_text es
