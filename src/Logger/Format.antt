-- ===== src/Logger/Format.antt =====
-- The formatters of src/logger.py, and what its two handlers write.

use custom_network_proxy_ser.Base.{
  ℕ, ◌+◌, Bool, not, ◌&&◌, ◌==◌, ltb, length, take, ◌||◌, Option, none, some, List, [], ◌∷◌, ◌++◌,
  leb, if◌then◌else◌,
}
use custom_network_proxy_ser.Text.{Text, codes, same}
use custom_network_proxy_ser.Text.Codec.{encode}
use custom_network_proxy_ser.LogSchema.{LogEntry, Fields, text, to_dict, to_human}
use custom_network_proxy_ser.Json.{object, members_of, dumps}

-- The parts of a `logging.LogRecord` that are read; the first two are missing on a record that
-- did not come from `log_event`.
pub record LogRecord : Type 0 where
  pub log_entry : Option LogEntry
  pub log_entry_dict : Option Fields
  pub levelname : Text
  pub message : Text

abbrev fallback : Text → LogRecord → Fields
fallback now r =
    (codes "timestamp", text now)
    ∷ (codes "level", text r.levelname)
    ∷ (codes "event", text (codes "SYSTEM"))
    ∷ (codes "message", text r.message)
    ∷ []

-- An empty dict counts as missing.
abbrev chosen : Text → LogRecord → Option Fields → Fields
chosen now r none = fallback now r
chosen now r (some []) = fallback now r
chosen now r (some (f ∷ fields)) = f ∷ fields

-- `_JSONFormatter.format`
unfoldable pub json_format : Text → LogRecord → Text
unfolding dumps
json_format now r = dumps (object (members_of (chosen now r r.log_entry_dict)))

-- `_HumanFormatter.format`
unfoldable pub human_format : LogRecord → Text
unfolding to_human
human_format r = codes "  " ++ elim r.log_entry [ none ↦ r.message | some entry ↦ to_human entry ]

-- The record that `log_event` makes of an entry; `levelname` is that of its level's number.
unfoldable pub record_of : Text → LogEntry → LogRecord
unfolding to_dict
record_of levelname entry = record {
  log_entry = some entry;
  log_entry_dict = some (to_dict entry);
  levelname = levelname;
  message = entry.message;
}

-- `getattr(logging, name, logging.INFO)` for the names of levels.
unfoldable pub level_number : Text → ℕ
level_number name =
    if same name (codes "DEBUG")
    then 10
    else if same name (codes "INFO")
    then 20
    else if same name (codes "WARNING") || same name (codes "WARN")
    then 30
    else if same name (codes "ERROR")
    then 40
    else if same name (codes "CRITICAL") || same name (codes "FATAL")
    then 50
    else if same name (codes "NOTSET")
    then 0
    else 20

-- How the log file rotates: `maxBytes` and `backupCount`, where a number that is not positive is
-- 0 here, and whether the version of Python also rotates a file that is empty.
pub record Rotation : Type 0 where
  pub max_bytes : ℕ
  pub backup_count : ℕ
  pub rolls_empty : Bool

-- What the file, its backups, the newest first, and the terminal hold.
pub record Outputs : Type 0 where
  pub file : Text
  pub backups : List Text
  pub stderr : Text

-- `RotatingFileHandler.shouldRollover`, for a line and its end
unfoldable pub should_rollover : Rotation → Text → Text → Bool
unfolding encode
should_rollover rotation line file =
    ltb 0 rotation.max_bytes
    && (rotation.rolls_empty || not (length file == 0))
    && leb rotation.max_bytes (length (encode file) + (length line + 1))

-- `doRollover`: without backups the file goes on.
unfoldable pub do_rollover : Rotation → Outputs → Outputs
do_rollover rotation out =
    if ltb 0 rotation.backup_count
    then record out { file = []; backups = take rotation.backup_count (out.file ∷ out.backups) }
    else out

-- `RotatingFileHandler.emit`
unfoldable pub emit : Rotation → Text → Outputs → Outputs
unfolding should_rollover do_rollover
emit rotation line out =
    let ready = if should_rollover rotation line out.file then do_rollover rotation out else out in
    record ready { file = ready.file ++ line ++ 10 ∷ [] }

-- `_logger.handle(record)`: each handler writes the record as a line, from its own level on.
-- `NOTSET` is below the level of the file.
unfoldable pub handle : Rotation → Text → ℕ → ℕ → LogRecord → Outputs → Outputs
unfolding json_format human_format emit
handle rotation now threshold level r out =
    let written = if leb 10 level then emit rotation (json_format now r) out else out in
    record written {
      stderr = if leb threshold level then out.stderr ++ human_format r ++ 10 ∷ [] else out.stderr;
    }

-- An event that is logged: when its record is formatted, the name of its level, and its entry.
pub record Logged : Type 0 where
  pub now : Text
  pub level_name : Text
  pub entry : LogEntry

-- The handlers after some events, in turn.
unfoldable pub handle_all : Rotation → ℕ → List Logged → Outputs → Outputs
unfolding handle record_of level_number
handle_all rotation threshold [] out = out
handle_all rotation threshold (e ∷ es) out =
    let r = record_of e.level_name e.entry in
    handle_all rotation threshold es
      (handle rotation e.now threshold (level_number e.level_name) r out)
