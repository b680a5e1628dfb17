-- ===== src/Mailbox/Aliases/Keys.antt =====
-- An alias is kept under its two addresses without regard to case.
use opemail.Prelude.{
  ◌+◌, ◌≡◌, refl, sym, true, false, not, none, some, List, [], ◌∷◌, ◌++◌, any, keep, arith,
  Bool-cases, inl, inr,
}
use opemail.Text.{Text, to_lower, equal_fold}
use opemail.Text.Laws.{eqb_refl, eqb_sound}
use opemail.Exec.{ok, is_ok}
use opemail.Database.{Db}
use opemail.Directory.Tables.{Alias, Tables}
use opemail.Mailbox.Aliases.{is_between, find_alias, lowered, create_alias, get_alias, delete_alias}

find_alias-keep :
    (s d : Text) (rows : List Alias)
    → find_alias s d (keep (λ a. not (is_between s d a)) rows) ≡ none
unfolding find_alias
find_alias-keep s d [] = refl
find_alias-keep s d (a ∷ rows) = let rest = find_alias-keep s d rows in ground arith

find_alias-absent :
    (s d : Text) (rows : List Alias)
    → any (is_between s d) rows ≡ false
    → find_alias s d rows ≡ none
unfolding find_alias
find_alias-absent s d [] h = refl
find_alias-absent s d (a ∷ rows) h =
    let rest = find_alias-absent s d rows (ground arith) in ground arith

is_between_itself : (a : Alias) → is_between a.source a.destination a ≡ true
unfolding is_between
is_between_itself a = rw (eqb_refl a.source, eqb_refl a.destination) refl

find_alias-append_new :
    (a : Alias) (rows : List Alias)
    → find_alias a.source a.destination rows ≡ none
    → find_alias a.source a.destination (rows ++ a ∷ []) ≡ some a
unfolding find_alias
find_alias-append_new a [] h = rw (is_between_itself a) refl
find_alias-append_new a (x ∷ rows) h = elim (Bool-cases (is_between a.source a.destination x)) [
  | inl t ↦ ground arith
  | inr t ↦ let rest = find_alias-append_new a rows (ground arith) in ground arith
]

get_alias-gone :
    (source destination : Text) (s : Db Tables)
    → find_alias (to_lower source) (to_lower destination) s.rows.aliases ≡ none
    → is_ok (get_alias source destination s).0 ≡ false
unfolding get_alias
get_alias-gone source destination s h = elim (Bool-cases (s.down s.statements)) [
  | inl d ↦ rw d refl
  | inr d ↦ rw (d, h) refl
]

delete_alias-find_alias :
    (source destination : Text) (s : Db Tables)
    → s.down s.statements ≡ false
    → find_alias
        (to_lower source)
        (to_lower destination)
        (delete_alias source destination s).1.rows.aliases
      ≡ none
unfolding delete_alias
delete_alias-find_alias source destination s up =
    elim (Bool-cases (any (is_between (to_lower source) (to_lower destination)) s.rows.aliases)) [
      | inl t ↦ rw (up, t) (find_alias-keep (to_lower source) (to_lower destination) s.rows.aliases)
      | inr t ↦
          rw (up, t) (find_alias-absent (to_lower source) (to_lower destination) s.rows.aliases t)
    ]

-- After a deletion whose statement did not fail, whether it found the alias or not, no alias is found under any
-- spelling of its addresses.
delete_alias_final :
    (source destination source' destination' : Text) (s : Db Tables)
    → s.down s.statements ≡ false
    → equal_fold source source' ≡ true
    → equal_fold destination destination' ≡ true
    → is_ok (get_alias source' destination' (delete_alias source destination s).1).0 ≡ false
unfolding equal_fold
delete_alias_final source destination source' destination' s up hs hd =
    let same_source = eqb_sound (to_lower source) (to_lower source') hs in
    let same_destination = eqb_sound (to_lower destination) (to_lower destination') hd in
    get_alias-gone source' destination' (delete_alias source destination s).1
      (rw (sym same_source, sym same_destination) (delete_alias-find_alias source destination s up))

-- An alias that was created where there was none between its addresses is found, in lower case, under every spelling
-- of them, as long as the second statement does not fail.
get-create_alias :
    (a : Alias) (source destination : Text) (s : Db Tables)
    → find_alias (to_lower a.source) (to_lower a.destination) s.rows.aliases ≡ none
    → equal_fold a.source source ≡ true
    → equal_fold a.destination destination ≡ true
    → (create_alias a s).0 ≡ ok tt
    → s.down (s.statements + 1) ≡ false
    → (get_alias source destination (create_alias a s).1).0 ≡ ok (lowered a)
unfolding create_alias get_alias equal_fold
get-create_alias a source destination s new hs hd done up =
    let same_source = eqb_sound (to_lower a.source) (to_lower source) hs in
    let same_destination = eqb_sound (to_lower a.destination) (to_lower destination) hd in
    let there = find_alias-append_new (lowered a) s.rows.aliases new in
    rw (sym same_source, sym same_destination) (ground arith)
