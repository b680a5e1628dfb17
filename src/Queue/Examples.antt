-- ===== src/Queue/Examples.antt =====
-- A listing with two entries, and a queue that counts the commands.
use opemail.Prelude.{Bool, true, false, none, List, []}
use opemail.Text.{Text, codes}
use opemail.Queue.Parser.{parse_queue_output}
use opemail.Queue.Parser.Totals.{summary-Agrees}
use opemail.Queue.Parser.Counts.{Agrees}
use opemail.Queue.Service.{Command, inspect, retry, delete, hold_message, release}
use opemail.Queue.Service.Guarded.{IsGuarded, recording, guarded}

abbrev listing : Text
listing = codes "A1* 5 Fri Aug 21 x@b.id\n y@c.id\nB2 6 Fri Aug 21 z@b.id\n(timed out)\n w@c.id"

summary-Agrees_example : Agrees (parse_queue_output (λ t. 5) (λ t. none) (λ t. none) 7 listing)
summary-Agrees_example = summary-Agrees (λ t. 5) (λ t. none) (λ t. none) 7 listing

abbrev here : Text → Bool
here p = true

abbrev answer : Command → List Command → Bool × Text
answer c log = (false, [])

guarded_example :
    IsGuarded
      (codes "pf")
      (codes "postcat")
      (codes "-q")
      (codes "A1")
      (inspect here (codes "pf") (recording answer) (codes "A1") []).1
    × IsGuarded
        (codes "pf")
        (codes "postsuper")
        (codes "-r")
        (codes "A1")
        (retry here (codes "pf") (recording answer) (codes "A1") []).1
    × IsGuarded
        (codes "pf")
        (codes "postsuper")
        (codes "-d")
        (codes "A1")
        (delete here (codes "pf") (recording answer) (codes "A1") []).1
    × IsGuarded
        (codes "pf")
        (codes "postsuper")
        (codes "-h")
        (codes "A1")
        (hold_message here (codes "pf") (recording answer) (codes "A1") []).1
    × IsGuarded
        (codes "pf")
        (codes "postsuper")
        (codes "-H")
        (codes "A1")
        (release here (codes "pf") (recording answer) (codes "A1") []).1
unfolding opemail.Text.is_empty
guarded_example = guarded here (codes "pf") answer (codes "A1")
