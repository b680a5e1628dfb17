-- ===== src/Queue/Parser/Totals.antt =====
-- The summary agrees with the messages, whatever the commands print.
use opemail.Prelude.{
  ℕ, ◌≢◌, Option, none, some, List, [], ◌∷◌, All, All-append, arith, Bool-cases, inl, inr, ◌||◌,
  ◌&&◌, not,
}
use opemail.Text.{
  Text, codes, is_empty, trim_space, contains, has_prefix, has_suffix, split, fields,
}
use opemail.Queue.Parser.{
  unknown, QueueMessage, RawMessage, status_of, new_entry, annotated, closed, read_lines, skipped,
  starts_entry, queue_status, parse_json_lines, and_message, json_or_lines, tally_all,
  populate_summary, parse_queue_output,
}
use opemail.Queue.Parser.Counts.{IsKnown, Agrees, populate-Agrees}

abbrev Known : Option QueueMessage → Type 0
Known none = Unit
Known (some m) = IsKnown m

module _ (parse_int : Text → ℕ) (parse_date : Text → Option ℕ)
    (unmarshal : Text → Option RawMessage) (now : ℕ) where
  status_of-known : (id : Text) → (status_of parse_int parse_date unmarshal now id).0 ≢ unknown
  status_of-known id h = elim (Bool-cases (has_suffix id (codes "*"))) [
    | inl t ↦ ground arith
    | inr f ↦ elim (Bool-cases (has_suffix id (codes "!"))) [
      | inl t ↦ ground arith
      | inr g ↦ ground arith
    ]
  ]

  new_entry-Known : (fs : List Text) → Known (new_entry parse_int parse_date unmarshal now fs)
  new_entry-Known [] = tt
  new_entry-Known (id ∷ []) = tt
  new_entry-Known (id ∷ size ∷ fs) = status_of-known id

  annotated-Known :
      (t : Text) (o : Option QueueMessage)
      → Known o
      → Known (annotated parse_int parse_date unmarshal now t o)
  annotated-Known t none h = tt
  annotated-Known t (some m) h =
      elim (Bool-cases (has_prefix t (codes "(") && has_suffix t (codes ")"))) [
        | inl a ↦ rw a h
        | inr a ↦ elim (Bool-cases (has_prefix t (codes "("))) [
          | inl b ↦ rw (a, b) h
          | inr b ↦ rw (a, b) h
        ]
      ]

  closed-Known :
      (o : Option QueueMessage)
      → Known o
      → All IsKnown (closed parse_int parse_date unmarshal now o)
  closed-Known none h = tt
  closed-Known (some m) h = (h, tt)

  read_lines-Known :
      (lines : List Text) (o : Option QueueMessage)
      → Known o
      → All IsKnown (read_lines parse_int parse_date unmarshal now lines o)
  unfolding read_lines
  read_lines-Known [] o h = closed-Known o h
  read_lines-Known (line ∷ lines) o h =
      elim (Bool-cases (skipped parse_int parse_date unmarshal now line)) [
        | inl t ↦ rw t (read_lines-Known lines o h)
        | inr f ↦ elim (Bool-cases (starts_entry parse_int parse_date unmarshal now line)) [
          | inl t ↦
              rw (f, t)
                (All-append IsKnown _ _ (closed-Known o h)
                  (read_lines-Known lines _ (new_entry-Known (fields line))))
          | inr g ↦ rw (f, g) (read_lines-Known lines _ (annotated-Known (trim_space line) o h))
        ]
      ]

  queue_status-known : (n : Text) → queue_status parse_int parse_date unmarshal now n ≢ unknown
  queue_status-known n h = ground arith

  json-Known :
      (lines : List Text) → All IsKnown (parse_json_lines parse_int parse_date unmarshal now lines)
  unfolding parse_json_lines
  json-Known [] = tt
  json-Known (line ∷ lines) =
      let rest = json-Known lines in
      elim (Bool-cases
        (is_empty (trim_space line) || not (has_prefix (trim_space line) (codes "{")))) [
          | inl t ↦ rw t rest
          | inr f ↦ rw f (of_raw (unmarshal (trim_space line)) _ rest)
        ]
    where
      of_raw :
          (o : Option RawMessage) (ms : List QueueMessage)
          → All IsKnown ms
          → All IsKnown (and_message parse_int parse_date unmarshal now o ms)
      of_raw none ms h = h
      of_raw (some r) ms h = (queue_status-known r.queue_name, h)

  either_Agrees :
      (out : Text) (ms : List QueueMessage)
      → All IsKnown ms
      → Agrees (json_or_lines parse_int parse_date unmarshal now out ms)
  either_Agrees out [] h = populate-Agrees _ (read_lines-Known (split out b'\n') none tt)
  either_Agrees out (m ∷ ms) h = populate-Agrees (m ∷ ms) h

  -- Whatever text the command prints, the summary that comes with the messages has their number as its total, each of
  -- its six counters is the number of the messages in that state, the six add up to the total, and its oldest message
  -- is one of them and at least as old as each, or none where there is no message.
  pub summary-Agrees :
      (output : Text) → Agrees (parse_queue_output parse_int parse_date unmarshal now output)
  unfolding parse_queue_output populate_summary tally_all
  summary-Agrees output =
      let out = trim_space output in
      elim (Bool-cases (is_empty out || contains out (codes "Mail queue is empty"))) [
        | inl t ↦ rw t (populate-Agrees [] tt)
        | inr f ↦ elim (Bool-cases (has_prefix out (codes "{"))) [
          | inl t ↦ rw (f, t) (either_Agrees out _ (json-Known (split out b'\n')))
          | inr g ↦ rw (f, g) (populate-Agrees _ (read_lines-Known (split out b'\n') none tt))
        ]
      ]
