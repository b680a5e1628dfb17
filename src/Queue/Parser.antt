-- ===== src/Queue/Parser.antt =====
-- internal/queue/parser.go. `strconv.ParseInt`, `time.Parse` and `json.Unmarshal` are parameters, and so is the clock.
pub mod Totals
pub mod Counts
use opemail.Prelude.{
  ℕ, suc, ◌+◌, ◌-◌, Bool, true, false, not, ◌&&◌, ◌||◌, Option, none, some, List, [], ◌∷◌, ◌++◌,
  length, take, drop, leb, ltb, ◌==◌, if◌then◌else◌,
}
use opemail.Text.{
  Text, codes, eqb, is_empty, trim_space, contains, has_prefix, has_suffix, split, fields, join,
  last_part,
}
use opemail.Text.Parts.{trim_first, trim_last}

pub data QueueStatus : Type 0 where
  active deferred hold bounce corrupt incoming unknown : QueueStatus

-- `Age`, which is computed from the clock when the summary is made, is left out
pub record QueueMessage : Type 0 where
  pub queue_id : Text
  pub size : ℕ
  pub arrival_date : ℕ
  pub sender : Text
  pub recipient : Text
  pub status : QueueStatus
  pub reason : Text

pub record QueueSummary : Type 0 where
  pub active_count : ℕ
  pub deferred_count : ℕ
  pub hold_count : ℕ
  pub bounce_count : ℕ
  pub corrupt_count : ℕ
  pub incoming_count : ℕ
  pub total : ℕ
  pub oldest_message : Option QueueMessage

abbrev pub no_messages : QueueSummary
no_messages = record {
  active_count = 0;
  deferred_count = 0;
  hold_count = 0;
  bounce_count = 0;
  corrupt_count = 0;
  incoming_count = 0;
  total = 0;
  oldest_message = none;
}

abbrev pub count : QueueStatus → QueueSummary → QueueSummary
count active s = record s { active_count = s.active_count + 1 }
count deferred s = record s { deferred_count = s.deferred_count + 1 }
count hold s = record s { hold_count = s.hold_count + 1 }
count bounce s = record s { bounce_count = s.bounce_count + 1 }
count corrupt s = record s { corrupt_count = s.corrupt_count + 1 }
count incoming s = record s { incoming_count = s.incoming_count + 1 }
count unknown s = s

abbrev pub older : QueueMessage → Option QueueMessage → Option QueueMessage
older m none = some m
older m (some o) = if ltb m.arrival_date o.arrival_date then some m else some o

-- one message of the loop
abbrev pub tally : QueueMessage → QueueSummary → QueueSummary
tally m s = record (count m.status s) { oldest_message = older m s.oldest_message }

unfoldable pub tally_all : List QueueMessage → QueueSummary → QueueSummary
tally_all [] s = s
tally_all (m ∷ ms) s = tally_all ms (tally m s)

unfoldable pub populate_summary : List QueueMessage → QueueSummary
unfolding tally_all
populate_summary ms = tally_all ms (record no_messages { total = length ms })

-- what a line of the JSON form holds
pub record RawMessage : Type 0 where
  pub queue_id : Text
  pub queue_name : Text
  pub message_size : ℕ
  pub arrival_time : ℕ
  pub sender : Text
  pub recipients : List (Text × Text)

module _ (parse_int : Text → ℕ) (parse_date : Text → Option ℕ)
    (unmarshal : Text → Option RawMessage) (now : ℕ) where
  -- the status mark behind the id
  abbrev pub status_of : Text → QueueStatus × Text
  status_of id =
      if has_suffix id (codes "*")
      then (active, trim_last b'*' id)
      else if has_suffix id (codes "!")
      then (hold, trim_last b'!' id)
      else (deferred, id)

  abbrev pub or_now : Option ℕ → ℕ
  or_now none = now
  or_now (some t) = t

  -- `fields[2:len(fields)-1]`
  abbrev pub date_fields : List Text → List Text
  date_fields fs = take (length fs - 1 - 2) (drop 2 fs)

  abbrev pub arrival_of : List Text → ℕ
  arrival_of fs =
      if leb 6 (length fs) then or_now (parse_date (join (date_fields fs) (codes " "))) else now

  abbrev pub entry_of : Text → Text → List Text → QueueMessage
  entry_of id size fs = record {
    queue_id = (status_of id).1;
    size = parse_int size;
    arrival_date = arrival_of fs;
    sender = last_part fs;
    recipient = [];
    status = (status_of id).0;
    reason = [];
  }

  -- a line that starts an entry: five fields or more, from the first column on
  abbrev pub starts_entry : Text → Bool
  starts_entry line =
      leb 5 (length (fields line))
      && not (has_prefix line (codes " "))
      && not (has_prefix line (codes "\t"))
      && not (has_prefix line (codes "("))

  abbrev pub new_entry : List Text → Option QueueMessage
  new_entry (id ∷ size ∷ fs) = some (entry_of id size (id ∷ size ∷ fs))
  new_entry _ = none

  abbrev pub skipped : Text → Bool
  skipped line =
      has_prefix line (codes "-Queue ID-")
      || has_prefix (trim_space line) (codes "-- ")
      || is_empty (trim_space line)

  -- a line that belongs to the entry that is being read: the reason of a delay, or a recipient
  abbrev pub annotate : Text → QueueMessage → QueueMessage
  annotate t m =
      if has_prefix t (codes "(") && has_suffix t (codes ")")
      then record m { reason = trim_last b')' (trim_first b'(' t) }
      else if has_prefix t (codes "(")
      then m
      else record m { recipient = t }

  abbrev pub annotated : Text → Option QueueMessage → Option QueueMessage
  annotated t none = none
  annotated t (some m) = some (annotate t m)

  abbrev pub closed : Option QueueMessage → List QueueMessage
  closed none = []
  closed (some m) = m ∷ []

  -- the loop over the lines, with the entry that is being read
  unfoldable pub read_lines : List Text → Option QueueMessage → List QueueMessage
  read_lines [] current = closed current
  read_lines (line ∷ lines) current =
      if skipped line
      then read_lines lines current
      else if starts_entry line
      then closed current ++ read_lines lines (new_entry (fields line))
      else read_lines lines (annotated (trim_space line) current)

  abbrev pub queue_status : Text → QueueStatus
  queue_status name =
      if eqb name (codes "active")
      then active
      else if eqb name (codes "hold")
      then hold
      else if eqb name (codes "incoming")
      then incoming
      else if eqb name (codes "corrupt")
      then corrupt
      else deferred

  abbrev pub first_recipient : List (Text × Text) → Text × Text
  first_recipient [] = ([], [])
  first_recipient (r ∷ rs) = r

  abbrev pub message_of : RawMessage → QueueMessage
  message_of r = record {
    queue_id = r.queue_id;
    size = r.message_size;
    arrival_date = r.arrival_time;
    sender = r.sender;
    recipient = (first_recipient r.recipients).0;
    status = queue_status r.queue_name;
    reason = (first_recipient r.recipients).1;
  }

  abbrev pub and_message : Option RawMessage → List QueueMessage → List QueueMessage
  and_message none ms = ms
  and_message (some r) ms = message_of r ∷ ms

  unfoldable pub parse_json_lines : List Text → List QueueMessage
  parse_json_lines [] = []
  parse_json_lines (line ∷ lines) =
      let rest = parse_json_lines lines in
      let t = trim_space line in
      if is_empty t || not (has_prefix t (codes "{")) then rest else and_message (unmarshal t) rest

  abbrev pub with_summary : List QueueMessage → List QueueMessage × QueueSummary
  with_summary ms = (ms, populate_summary ms)

  abbrev pub json_or_lines : Text → List QueueMessage → List QueueMessage × QueueSummary
  json_or_lines out [] = with_summary (read_lines (split out b'\n') none)
  json_or_lines out (m ∷ ms) = with_summary (m ∷ ms)

  unfoldable pub parse_queue_output : Text → List QueueMessage × QueueSummary
  parse_queue_output output =
      let out = trim_space output in
      if is_empty out || contains out (codes "Mail queue is empty")
      then ([], no_messages)
      else if has_prefix out (codes "{")
      then json_or_lines out (parse_json_lines (split out b'\n'))
      else with_summary (read_lines (split out b'\n') none)
