-- ===== src/Queue/Service.antt =====
-- internal/queue/service.go with the system driver of internal/queue/postfix.go. Running a program is a
-- parameter: it gives its output, or an error with the output, and may change the queue `Q`.
pub mod Guarded
use opemail.Prelude.{
  ℕ, Bool, true, false, not, ◌&&◌, ◌||◌, Option, none, some, List, [], ◌∷◌, all, keep, leb, ◌==◌,
  if◌then◌else◌,
}
use opemail.Text.{Text, codes, eqb, is_empty, contains, trim_space, to_lower, folded}
use opemail.Exec.{Result, ok, err, Exec, pure, fail, when, ◌>>=◌, ◌>>◌}
use opemail.Queue.Parser.{
  QueueMessage, QueueSummary, QueueStatus, active, deferred, hold, bounce, corrupt, incoming,
  unknown, RawMessage, parse_queue_output,
}

pub data QueueError : Type 0 where
  invalid_queue_id command_failed : QueueError

abbrev pub is_id_char : ℕ → Bool
is_id_char c =
    (leb b'A' c && leb c b'Z')
    || (leb b'a' c && leb c b'z')
    || (leb b'0' c && leb c b'9')
    || (c == b'_')
    || (c == b'-')

-- `validateQueueID(id) == nil`
unfoldable pub is_valid_queue_id : Text → Bool
is_valid_queue_id id = not (is_empty (trim_space id)) && all is_id_char (trim_space id)

-- a program and its arguments
abbrev pub Command : Type 0
Command = List Text

abbrev pub status_text : QueueStatus → Text
status_text active = codes "active"
status_text deferred = codes "deferred"
status_text hold = codes "hold"
status_text bounce = codes "bounce"
status_text corrupt = codes "corrupt"
status_text incoming = codes "incoming"
status_text unknown = codes "unknown"

abbrev pub Program : Type 0 → Type 0
Program Q = Command → Q → (Bool × Text) × Q

-- the docker command, where the local one failed
abbrev pub or_in_docker : {Q : Type 0} → Program Q → Command → (Bool × Text) × Q → (Bool × Text) × Q
or_in_docker exec c ((true, out), q) = ((true, out), q)
or_in_docker exec c ((false, out), q) = exec c q

module _ {Q : Type 0} (look_path : Text → Bool) (container : Text) (exec : Program Q) where
  abbrev pub container_name : Text
  container_name = if is_empty container then codes "mailopen_postfix" else container

  -- a program with its arguments, first on this host and then in the container
  unfoldable pub run : Text → List Text → Q → (Bool × Text) × Q
  run program args q =
      let docker = codes "docker" ∷ codes "exec" ∷ container_name ∷ program ∷ args in
      if look_path program
      then or_in_docker exec docker (exec (program ∷ args) q)
      else exec docker q

  -- the output, an error where the command failed
  abbrev pub outcome : Bool × Text → Result QueueError Text
  outcome (true, out) = ok out
  outcome (false, out) = err command_failed

  abbrev pub run_command : Text → List Text → Exec Q QueueError Text
  run_command program args q = (outcome (run program args q).0, (run program args q).1)

  -- an empty queue is no failure
  abbrev pub listing : Bool × Text → Result QueueError Text
  listing (true, out) = ok out
  listing (false, out) =
      if contains out (codes "Mail queue is empty") then ok out else err command_failed

  unfoldable pub list_queue_raw : Exec Q QueueError Text
  list_queue_raw q = let r = run (codes "postqueue") (codes "-p" ∷ []) q in (listing r.0, r.1)

  abbrev pub done : Text → Exec Q QueueError (Unit {0})
  done out q = (ok tt, q)

  -- a command on one message, behind the check of its id
  unfoldable pub on_message : Text → Text → Text → Exec Q QueueError Text
  on_message program flag id = do
    when (not (is_valid_queue_id id)) invalid_queue_id
    run_command program (flag ∷ id ∷ [])

  unfoldable pub inspect : Text → Exec Q QueueError Text
  unfolding on_message
  inspect id = on_message (codes "postcat") (codes "-q") id

  unfoldable pub retry : Text → Exec Q QueueError (Unit {0})
  unfolding on_message
  retry id = on_message (codes "postsuper") (codes "-r") id >>= done

  unfoldable pub delete : Text → Exec Q QueueError (Unit {0})
  unfolding on_message
  delete id = on_message (codes "postsuper") (codes "-d") id >>= done

  unfoldable pub hold_message : Text → Exec Q QueueError (Unit {0})
  unfolding on_message
  hold_message id = on_message (codes "postsuper") (codes "-h") id >>= done

  unfoldable pub release : Text → Exec Q QueueError (Unit {0})
  unfolding on_message
  release id = on_message (codes "postsuper") (codes "-H") id >>= done

  unfoldable pub flush : Exec Q QueueError (Unit {0})
  flush = run_command (codes "postqueue") (codes "-f" ∷ []) >>= done

  module _ (parse_int : Text → ℕ) (parse_date : Text → Option ℕ)
      (unmarshal : Text → Option RawMessage) (now : ℕ) where
    unfoldable pub get_status : Exec Q QueueError QueueSummary
    unfolding list_queue_raw parse_queue_output
    get_status = do
      out ← list_queue_raw
      pure (parse_queue_output parse_int parse_date unmarshal now out).1

    abbrev pub filtered : Text → List QueueMessage → List QueueMessage
    filtered status ms =
        if is_empty status
        then ms
        else keep (λ m. eqb (to_lower (status_text m.status)) (folded status)) ms

    unfoldable pub list : Text → Exec Q QueueError (List QueueMessage)
    unfolding list_queue_raw parse_queue_output
    list status = do
      out ← list_queue_raw
      pure (filtered status (parse_queue_output parse_int parse_date unmarshal now out).0)
