-- ===== src/Queue/Service/Guarded.antt =====
-- Which commands run for one message.
use opemail.Prelude.{
  ◌≡◌, refl, ◌⊎◌, inl, inr, Bool, true, false, not, List, [], ◌∷◌, all, any, All, arith, Bool-cases,
  ◌==◌, ℕ, zero, suc, ◌+◌, ◌++◌, ◌∙◌, sym, leb, ltb, ◌&&◌, ◌||◌,
}
use opemail.Text.{Text, codes, is_empty, trim_space}
use opemail.Exec.{◌>>=◌, when}
use opemail.Exec.Outcomes.{bind-keeps}
use opemail.Queue.Service.{
  Program, Command, is_id_char, is_valid_queue_id, container_name, run, or_in_docker, on_message,
  done, inspect, retry, delete, hold_message, release,
}

-- what no argument of a command may hold: what a shell reads, the separators of paths and options with values
abbrev pub special : Text
special = codes " \t\n\r;&|$`<>(){}[]'\"\\*?!#~/.,:@=+%^"

abbrev pub Harmless : Text → Type 0
Harmless t = (is_empty t ≡ false) × (all (λ c. not (any (λ d. c == d) special)) t ≡ true)

-- the command, on this host or in the container, and its one id
abbrev pub IsMeant : Text → Text → Text → Text → Command → Type 0
IsMeant container program flag id c =
    ((c ≡ program ∷ flag ∷ id ∷ [])
      ⊎ (c ≡ codes "docker" ∷ codes "exec" ∷ container ∷ program ∷ flag ∷ id ∷ []))
    × Harmless (trim_space id)

abbrev pub has_run : List Command → Bool
has_run [] = false
has_run (c ∷ log) = true

-- the characters of an id of a queue
abbrev pub id_chars : Text
id_chars = codes "ABCDEFGHIJKLMNOPQRSTUVWXYZabcdefghijklmnopqrstuvwxyz0123456789_-"

-- some character beside white space around it, and each of them one of these
abbrev pub has_format : Text → Bool
has_format id =
    not (is_empty (trim_space id)) && all (λ c. any (λ d. c == d) id_chars) (trim_space id)

-- the commands are meant, and there is one exactly for an id of the right format
pub record IsGuarded (container program flag id : Text) (log : List Command) : Type 0 where
  pub meant : All (IsMeant container program flag id) log
  pub runs : has_run log ≡ has_format id

-- the `n` numbers from `a` on
abbrev from : ℕ → ℕ → Text
from a zero = []
from a (suc n) = a ∷ from (suc a) n

any-from : (c a n : ℕ) → any (λ d. c == d) (from a n) ≡ leb a c && ltb c (a + n)
any-from c a zero = ground arith
any-from c a (suc n) = let rest = any-from c (suc a) n in ground arith

any-append : (p : ℕ → Bool) (xs ys : Text) → any p (xs ++ ys) ≡ any p xs || any p ys
any-append p [] ys = refl
any-append p (x ∷ xs) ys = let rest = any-append p xs ys in ground arith

any-between : (c a n : ℕ) → any (λ d. c == d) (from a (suc n)) ≡ leb a c && leb c (a + n)
any-between c a n = let all' = any-from c a (suc n) in ground arith

or_assoc : (v w x y z : Bool) → v || (w || (x || (y || (z || false)))) ≡ v || w || x || y || z
or_assoc v w x y z = ground arith

id_chars-is_id_char : (c : ℕ) → any (λ d. c == d) id_chars ≡ is_id_char c
id_chars-is_id_char c =
    let p : ℕ → Bool = λ d. c == d in
    let marks : Text = b'_' ∷ b'-' ∷ [] in
    let lower : Text = from b'a' 26 in
    let digits : Text = from b'0' 10 in
    any-append p (from b'A' 26) (lower ++ digits ++ marks)
    ∙ rw
        (
          any-append p lower (digits ++ marks),
          any-append p digits marks,
          any-between c b'A' 25,
          any-between c b'a' 25,
          any-between c b'0' 9,
        )
        (or_assoc (leb b'A' c && leb c b'Z') (leb b'a' c && leb c b'z') (leb b'0' c && leb c b'9')
          (c == b'_') (c == b'-'))

all-id_chars : (t : Text) → all (λ c. any (λ d. c == d) id_chars) t ≡ all is_id_char t
all-id_chars [] = refl
all-id_chars (c ∷ t) = let rest = all-id_chars t in rw (id_chars-is_id_char c, rest) refl

valid-format : (id : Text) → is_valid_queue_id id ≡ has_format id
unfolding is_valid_queue_id
valid-format id = rw (all-id_chars (trim_space id)) refl

id_char-plain : (c : ℕ) → is_id_char c ≡ true → any (λ d. c == d) special ≡ false
id_char-plain c h = ground (arith, h)

Harmless-id : (t : Text) → is_empty t ≡ false → all is_id_char t ≡ true → Harmless t
unfolding is_empty
Harmless-id [] e h = ground arith
Harmless-id (c ∷ t) e h = (refl, plain (c ∷ t) h)
  where
    plain :
        (t : Text) → all is_id_char t ≡ true → all (λ c. not (any (λ d. c == d) special)) t ≡ true
    plain [] h = refl
    plain (c ∷ t) h =
        let first : is_id_char c ≡ true = ground arith in
        let rest = plain t (ground arith) in rw (id_char-plain c first) rest

valid-Harmless : (id : Text) → is_valid_queue_id id ≡ true → Harmless (trim_space id)
unfolding is_valid_queue_id
valid-Harmless id h = Harmless-id (trim_space id) (ground arith) (ground arith)

-- a program that keeps the list of the commands it was given; what it answers may depend on them
abbrev pub recording : (Command → List Command → Bool × Text) → Program (List Command)
recording answer c log = (answer c log, c ∷ log)

module _ (look_path : Text → Bool) (container : Text)
    (answer : Command → List Command → Bool × Text) where
  abbrev pub name : Text
  name = container_name look_path container (recording answer)

  logged :
      (P : Command → Type 0) (r : Bool × Text) (c d : Command)
      → P c
      → P d
      → All P (or_in_docker (recording answer) d (r, c ∷ [])).1
  logged P (true, out) c d h k = (h, tt)
  logged P (false, out) c d h k = (k, (h, tt))

  run-IsMeant :
      (program flag id : Text)
      → Harmless (trim_space id)
      → All
          (IsMeant name program flag id)
          (run look_path container (recording answer) program (flag ∷ id ∷ []) []).1
  unfolding run
  run-IsMeant program flag id h = elim (Bool-cases (look_path program)) [
    | inr n ↦ rw n ((inr refl, h), tt)
    | inl y ↦ rw y (
        logged (IsMeant name program flag id) (answer (program ∷ flag ∷ id ∷ []) [])
          (program ∷ flag ∷ id ∷ [])
          (codes "docker" ∷ codes "exec" ∷ name ∷ program ∷ flag ∷ id ∷ []) (inl refl, h)
          (inr refl, h))
  ]

  docker-runs :
      (r : Bool × Text) (c d : Command)
      → has_run (or_in_docker (recording answer) d (r, c ∷ [])).1 ≡ true
  docker-runs (true, out) c d = refl
  docker-runs (false, out) c d = refl

  run-runs :
      (program : Text) (args : List Text)
      → has_run (run look_path container (recording answer) program args []).1 ≡ true
  unfolding run
  run-runs program args = elim (Bool-cases (look_path program)) [
    | inr n ↦ rw n refl
    | inl y ↦ rw y (docker-runs (answer (program ∷ args) []) (program ∷ args) _)
  ]

  on_message-IsGuarded :
      (program flag id : Text)
      → IsGuarded name program flag id
          (on_message look_path container (recording answer) program flag id []).1
  unfolding on_message ◌>>=◌ when
  on_message-IsGuarded program flag id = elim (Bool-cases (is_valid_queue_id id)) [
    | inr n ↦ record { meant = rw n tt; runs = rw n (sym n ∙ valid-format id) }
    | inl y ↦ record {
      meant = rw y (run-IsMeant program flag id (valid-Harmless id y));
      runs = rw y (run-runs program (flag ∷ id ∷ [])) ∙ sym y ∙ valid-format id;
    }
  ]

  done-IsGuarded :
      (program flag id : Text)
      → IsGuarded name program flag id
          ((on_message look_path container (recording answer) program flag id
              >>= done look_path container (recording answer))
            []).1
  done-IsGuarded program flag id =
      bind-keeps (IsGuarded name program flag id) _ _ [] (λ a e. record { after = λ log h. h })
        (on_message-IsGuarded program flag id)

  -- Whatever the programs answer and whatever the id is, each operation on one message runs no command but its own, on
  -- this host or in the container, with that id and its own flag. It runs one exactly where the id, up to white space
  -- around it, is a sequence of one or more letters, digits, underscores and hyphens, so that it has none of
  -- the characters that a shell reads or that separate paths.
  pub guarded :
      (id : Text)
      → IsGuarded name
          (codes "postcat")
          (codes "-q")
          id
          (inspect look_path container (recording answer) id []).1
        × IsGuarded name
            (codes "postsuper")
            (codes "-r")
            id
            (retry look_path container (recording answer) id []).1
        × IsGuarded name
            (codes "postsuper")
            (codes "-d")
            id
            (delete look_path container (recording answer) id []).1
        × IsGuarded name
            (codes "postsuper")
            (codes "-h")
            id
            (hold_message look_path container (recording answer) id []).1
        × IsGuarded name
            (codes "postsuper")
            (codes "-H")
            id
            (release look_path container (recording answer) id []).1
  unfolding inspect retry delete hold_message release
  guarded id = (
    on_message-IsGuarded (codes "postcat") (codes "-q") id,
    done-IsGuarded (codes "postsuper") (codes "-r") id,
    done-IsGuarded (codes "postsuper") (codes "-d") id,
    done-IsGuarded (codes "postsuper") (codes "-h") id,
    done-IsGuarded (codes "postsuper") (codes "-H") id,
  )
