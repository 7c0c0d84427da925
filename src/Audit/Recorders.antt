-- ===== src/Audit/Recorders.antt =====
-- internal/broker/audit/recorder.go: a recorder acts on the state `S` of the outside world, and
-- reports whether it failed.
use certplane.Base.{Bool, ◌≡◌, Option, none, some, List, [], ◌∷◌, ◌++◌, arith, if◌then◌else◌}
use certplane.Audit.{Event}

pub data RecordError : Type 0 where
  creating_directory opening writing syncing closing marshaling recording : RecordError

abbrev pub Recorder : Type 0 → Type 0
Recorder S = Event → S → List RecordError × S

-- The lines of an audit log, and what the next operations on it will answer.
pub record LogFile : Type 0 where
  pub lines : List Event
  pub mkdir_fails : Bool
  pub open_fails : Bool
  pub encode_fails : Bool
  pub sync_fails : Bool
  pub close_fails : Bool

-- `JSONLRecorder.Record`: `json.Encoder.Encode` writes one line or fails.
unfoldable pub jsonl_record : Recorder LogFile
jsonl_record event f =
    if f.encode_fails then (writing ∷ [], f) else ([], record f { lines = f.lines ++ (event ∷ []) })

-- The errors are looked at when the file is closed: the first of the three that occurred counts.
after_write : LogFile → List RecordError
after_write f =
    if f.encode_fails
    then writing ∷ []
    else if f.sync_fails
    then syncing ∷ []
    else if f.close_fails
    then closing ∷ []
    else []

encoded : Event → LogFile → LogFile
encoded event f = if f.encode_fails then f else record f { lines = f.lines ++ (event ∷ []) }

-- `FileJSONLRecorder.Record`
unfoldable pub file_record : Recorder LogFile
unfolding after_write encoded
file_record event f =
    if f.mkdir_fails
    then (creating_directory ∷ [], f)
    else if f.open_fails
    then (opening ∷ [], f)
    else (after_write f, encoded event f)

-- `DiscardRecorder.Record`
unfoldable pub discard_record : {S : Type 0} → Recorder S
discard_record event s = ([], s)

-- `NewMultiRecorder` drops the recorders that are nil.
unfoldable pub new_multi_recorder : {S : Type 0} → List (Option (Recorder S)) → List (Recorder S)
new_multi_recorder [] = []
new_multi_recorder (none ∷ rs) = new_multi_recorder rs
new_multi_recorder (some r ∷ rs) = r ∷ new_multi_recorder rs

-- `MultiRecorder.Record`: the loop appends the errors of the recorders that fail.
unfoldable pub multi_record : {S : Type 0} → List (Recorder S) → Recorder S
multi_record [] event s = ([], s)
multi_record (r ∷ rs) event s =
    let (errs, s') = r event s in let (more, s'') = multi_record rs event s' in (errs ++ more, s'')

-- A log file takes an event without an error only by writing it as its last line.
pub file_record-none :
    (event : Event) (f : LogFile)
    → (file_record event f).0 ≡ []
    → (file_record event f).1.lines ≡ f.lines ++ (event ∷ [])
unfolding file_record
file_record-none event f h = ground arith
