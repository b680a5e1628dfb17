-- ===== src/Queue/Parser/Counts.antt =====
-- What a summary counts, and what its oldest message is.
use opemail.Prelude.{
  ℕ, ◌+◌, ◌≤◌, suc, sym, ap, ◌⊎◌, Bool, if◌then◌else◌, get_elem?, ◌≡◌, ◌≢◌, refl, ◌∙◌, true, false,
  Option, none, some, List, [], ◌∷◌, All, length, arith, Bool-cases, inl, inr, ltb,
}
use mathlib.Core.Path.{subst}
use opemail.Queue.Parser.{
  QueueStatus, active, deferred, hold, bounce, corrupt, incoming, unknown, QueueMessage,
  QueueSummary, no_messages, count, older, tally, tally_all, populate_summary,
}

-- the counters of the states together
abbrev pub counted : QueueSummary → ℕ
counted s =
    s.active_count + s.deferred_count + s.hold_count + s.bounce_count + s.corrupt_count
    + s.incoming_count

abbrev pub IsKnown : QueueMessage → Type 0
IsKnown m = m.status ≢ unknown

count-counted :
    (q : QueueStatus) (s : QueueSummary) → q ≢ unknown → counted (count q s) ≡ counted s + 1
count-counted active s h = omega arith
count-counted deferred s h = omega arith
count-counted hold s h = omega arith
count-counted bounce s h = omega arith
count-counted corrupt s h = omega arith
count-counted incoming s h = omega arith
count-counted unknown s h = elim (h refl) [ ]

tally_all-counted :
    (ms : List QueueMessage) (s : QueueSummary)
    → All IsKnown ms
    → counted (tally_all ms s) ≡ counted s + length ms
unfolding tally_all
tally_all-counted [] s h = omega arith
tally_all-counted (m ∷ ms) s (k, h) =
    let rest = tally_all-counted ms (tally m s) h in
    let one = count-counted m.status s k in omega (arith, rest, one)

abbrev pub is_status : QueueStatus → QueueStatus → Bool
is_status active active = true
is_status deferred deferred = true
is_status hold hold = true
is_status bounce bounce = true
is_status corrupt corrupt = true
is_status incoming incoming = true
is_status unknown unknown = true
is_status _ _ = false

-- how many messages are in a state
abbrev pub number : QueueStatus → List QueueMessage → ℕ
number q [] = 0
number q (m ∷ ms) = if is_status q m.status then suc (number q ms) else number q ms

-- the counter of a state
abbrev counter : QueueStatus → QueueSummary → ℕ
counter active s = s.active_count
counter deferred s = s.deferred_count
counter hold s = s.hold_count
counter bounce s = s.bounce_count
counter corrupt s = s.corrupt_count
counter incoming s = s.incoming_count
counter unknown s = 0

tally-counter :
    (q : QueueStatus) (m : QueueMessage) (s : QueueSummary)
    → q ≢ unknown
    → counter q (tally m s) ≡ counter q s + number q (m ∷ [])
tally-counter active m s h = ground arith
tally-counter deferred m s h = ground arith
tally-counter hold m s h = ground arith
tally-counter bounce m s h = ground arith
tally-counter corrupt m s h = ground arith
tally-counter incoming m s h = ground arith
tally-counter unknown m s h = elim (h refl) [ ]

number-cons :
    (q : QueueStatus) (m : QueueMessage) (ms : List QueueMessage)
    → number q (m ∷ ms) ≡ number q (m ∷ []) + number q ms
number-cons q m ms = ground arith

tally_all-counter :
    (q : QueueStatus) (ms : List QueueMessage) (s : QueueSummary)
    → q ≢ unknown
    → counter q (tally_all ms s) ≡ counter q s + number q ms
unfolding tally_all
tally_all-counter q [] s h = omega arith
tally_all-counter q (m ∷ ms) s h =
    let rest = tally_all-counter q ms (tally m s) h in
    let one = tally-counter q m s h in
    let split = number-cons q m ms in omega (arith, rest, one, split)

abbrev AtMost : QueueMessage → QueueMessage → Type 0
AtMost o m = o.arrival_date ≤ m.arrival_date

-- one of the messages that is at least as old as each of them, and none where there is none
abbrev pub Oldest : Option QueueMessage → List QueueMessage → Type 0
Oldest none ms = ms ≡ []
Oldest (some o) ms =
    (i : ℕ) × (get_elem? ms i ≡ some o) × All (λ m. o.arrival_date ≤ m.arrival_date) ms

older-AtMost :
    (m o : QueueMessage)
    → (x : QueueMessage) × (older m (some o) ≡ some x)
      × ((x ≡ m) ⊎ (x ≡ o))
      × AtMost x m
      × AtMost x o
older-AtMost m o = elim (Bool-cases (ltb m.arrival_date o.arrival_date)) [
  | inl t ↦ (m, rw t refl, inl refl, omega arith, ground arith)
  | inr f ↦ (o, rw f refl, inr refl, ground arith, omega arith)
]

-- from a summary that has an oldest message on
tally_all-oldest :
    (ms : List QueueMessage) (s : QueueSummary) (o : QueueMessage)
    → s.oldest_message ≡ some o
    → (x : QueueMessage) × ((tally_all ms s).oldest_message ≡ some x)
      × ((x ≡ o) ⊎ ((i : ℕ) × (get_elem? ms i ≡ some x)))
      × AtMost x o
      × All (AtMost x) ms
unfolding tally_all
tally_all-oldest [] s o h = (o, h, inl refl, omega arith, tt)
tally_all-oldest (m ∷ ms) s o h =
    let (y, is, which, y_m, y_o) = older-AtMost m o in
    let next : (tally m s).oldest_message ≡ some y = rw h is in
    let (x, last, where', x_y, all') = tally_all-oldest ms (tally m s) y next in
    (x, last, place x y which where', omega (arith, x_y, y_o), (omega (arith, x_y, y_m), all'))
  where
    place :
        (x y : QueueMessage)
        → (y ≡ m) ⊎ (y ≡ o)
        → (x ≡ y) ⊎ ((i : ℕ) × (get_elem? ms i ≡ some x))
        → (x ≡ o) ⊎ ((i : ℕ) × (get_elem? (m ∷ ms) i ≡ some x))
    place x y w (inr (i, there)) = inr (suc i, there)
    place x y (inl ym) (inl xy) = inr (0, ap some (sym (xy ∙ ym)))
    place x y (inr yo) (inl xy) = inl (xy ∙ yo)

populate-Oldest : (ms : List QueueMessage) → Oldest (populate_summary ms).oldest_message ms
unfolding populate_summary tally_all
populate-Oldest [] = refl
populate-Oldest (m ∷ ms) =
    let (x, is, which, x_m, all') = tally_all-oldest ms _ m refl in
    let (i, there) = index x which in
    subst (λ q. Oldest q (m ∷ ms)) (sym is) (i, there, (x_m, all'))
  where
    index :
        (x : QueueMessage)
        → (x ≡ m) ⊎ ((i : ℕ) × (get_elem? ms i ≡ some x))
        → (i : ℕ) × (get_elem? (m ∷ ms) i ≡ some x)
    index x (inl e) = (0, ap some (sym e))
    index x (inr (i, there)) = (suc i, there)

count-total : (q : QueueStatus) (s : QueueSummary) → (count q s).total ≡ s.total
count-total active s = refl
count-total deferred s = refl
count-total hold s = refl
count-total bounce s = refl
count-total corrupt s = refl
count-total incoming s = refl
count-total unknown s = refl

tally_all-total : (ms : List QueueMessage) (s : QueueSummary) → (tally_all ms s).total ≡ s.total
unfolding tally_all
tally_all-total [] s = refl
tally_all-total (m ∷ ms) s = tally_all-total ms (tally m s) ∙ count-total m.status s

-- the summary counts the messages, each of the six counters those in its state, and its oldest message is one of them
pub record Agrees (r : List QueueMessage × QueueSummary) : Type 0 where
  pub all_counted : r.1.total ≡ length r.0
  pub summed : counted r.1 ≡ length r.0
  pub actives : r.1.active_count ≡ number active r.0
  pub deferreds : r.1.deferred_count ≡ number deferred r.0
  pub holds : r.1.hold_count ≡ number hold r.0
  pub bounces : r.1.bounce_count ≡ number bounce r.0
  pub corrupts : r.1.corrupt_count ≡ number corrupt r.0
  pub incomings : r.1.incoming_count ≡ number incoming r.0
  pub oldest : Oldest r.1.oldest_message r.0

counter-no_messages : (q : QueueStatus) (n : ℕ) → counter q (record no_messages { total = n }) ≡ 0
counter-no_messages active n = refl
counter-no_messages deferred n = refl
counter-no_messages hold n = refl
counter-no_messages bounce n = refl
counter-no_messages corrupt n = refl
counter-no_messages incoming n = refl
counter-no_messages unknown n = refl

populate-counter :
    (q : QueueStatus) (ms : List QueueMessage)
    → q ≢ unknown
    → counter q (populate_summary ms) ≡ number q ms
unfolding populate_summary
populate-counter q ms h =
    let all' = tally_all-counter q ms (record no_messages { total = length ms }) h in
    let none' = counter-no_messages q (length ms) in omega (arith, all', none')

pub populate-Agrees : (ms : List QueueMessage) → All IsKnown ms → Agrees (ms, populate_summary ms)
unfolding populate_summary
populate-Agrees ms h =
    let start : QueueSummary = record no_messages { total = length ms } in
    let c = tally_all-counted ms start h in
    record {
      all_counted = tally_all-total ms _;
      summed = omega (arith, c);
      actives = populate-counter active ms (λ e. ground (arith, e));
      deferreds = populate-counter deferred ms (λ e. ground (arith, e));
      holds = populate-counter hold ms (λ e. ground (arith, e));
      bounces = populate-counter bounce ms (λ e. ground (arith, e));
      corrupts = populate-counter corrupt ms (λ e. ground (arith, e));
      incomings = populate-counter incoming ms (λ e. ground (arith, e));
      oldest = populate-Oldest ms;
    }
