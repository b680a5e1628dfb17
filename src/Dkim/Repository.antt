-- ===== src/Dkim/Repository.antt =====
-- internal/dkim/postgres.go. A join with `domains` keeps the rows whose domain exists and fills in its name.
use opemail.Prelude.{
  ℕ, Bool, true, false, not, ◌&&◌, ◌||◌, Option, none, some, List, [], ◌∷◌, ◌++◌, map, any, keep,
  leb, ltb, ◌==◌, if◌then◌else◌,
}
use opemail.Text.{Text, eqb, to_lower}
use opemail.Exec.{Result, ok, err, Exec}
use opemail.Database.{DbError, unavailable, duplicate, no_rows, Db, statement}
use opemail.Directory.Tables.{find_domain}
use opemail.Dkim.Model.{
  DkimError, key_not_found, key_exists, policy_not_found, failed, DkimStatus, pending, active,
  revoked, Key, Policy, World, recoded,
}

-- the primary key, and the constraint domain_dkim_selector_unique
unfoldable pub key_taken : Key → List Key → Bool
unfolding eqb
key_taken k [] = false
key_taken k (x ∷ ks) =
    (x.id == k.id) || ((x.domain_id == k.domain_id) && eqb x.selector k.selector) || key_taken k ks

unfoldable pub domain_exists : ℕ → World → Bool
domain_exists i w = elim (find_domain i w.directory.domains) [ none ↦ false | some d ↦ true ]

abbrev pub of_create : DbError → DkimError
of_create unavailable = failed
of_create duplicate = key_exists
of_create no_rows = failed

-- the row of a key with the selector in lower case
abbrev pub row_of : Key → Key
row_of key = record key { selector = to_lower key.selector }

unfoldable pub create_dkim_key : Key → Exec (Db World) DkimError (Unit {0})
unfolding key_taken
create_dkim_key key = recoded of_create (
    statement (λ w.
      if key_taken (row_of key) w.keys
      then err duplicate
      else if domain_exists key.domain_id w
      then ok (tt, record w { keys = w.keys ++ row_of key ∷ [] })
      else err unavailable))

-- the row as the join gives it
abbrev pub joined : World → Key → Option Key
joined w k = elim (find_domain k.domain_id w.directory.domains) [
  | none ↦ none
  | some d ↦ some (record k { domain = d.name })
]

-- the first row that the test passes
unfoldable pub first_key : (Key → Bool) → World → List Key → Option Key
first_key p w [] = none
first_key p w (k ∷ ks) =
    let rest = first_key p w ks in
    if p k then elim (joined w k) [ none ↦ rest | some j ↦ some j ] else rest

abbrev pub found_key : World → Option Key → Result DbError (Key × World)
found_key w none = err no_rows
found_key w (some k) = ok (k, w)

abbrev pub of_get : DbError → DkimError
of_get unavailable = failed
of_get duplicate = failed
of_get no_rows = key_not_found

unfoldable pub get_dkim_key_by_id : ℕ → Exec (Db World) DkimError Key
unfolding first_key
get_dkim_key_by_id id =
    recoded of_get (statement (λ w. found_key w (first_key (λ k. k.id == id) w w.keys)))

abbrev pub has_selector : ℕ → Text → Key → Bool
has_selector domain_id selector k =
    (k.domain_id == domain_id) && eqb (to_lower k.selector) (to_lower selector)

unfoldable pub get_dkim_key_by_selector : ℕ → Text → Exec (Db World) DkimError Key
unfolding first_key
get_dkim_key_by_selector domain_id selector =
    recoded of_get
      (statement (λ w. found_key w (first_key (has_selector domain_id selector) w w.keys)))

abbrev pub is_active : DkimStatus → Bool
is_active pending = false
is_active active = true
is_active revoked = false

-- NULLS LAST: a key without the time comes after all others
abbrev pub activated_before : Option ℕ → Option ℕ → Bool
activated_before none none = false
activated_before none (some u) = true
activated_before (some t) none = false
activated_before (some t) (some u) = ltb t u

abbrev pub latest : Option Key → Option Key → Option Key
latest none b = b
latest (some a) none = some a
latest (some a) (some b) = if activated_before a.activated_at b.activated_at then some b else some a

-- `ORDER BY activated_at DESC NULLS LAST LIMIT 1`; of equal times the first row
unfoldable pub latest_key : (Key → Bool) → World → List Key → Option Key
latest_key p w [] = none
latest_key p w (k ∷ ks) =
    let rest = latest_key p w ks in if p k then latest (joined w k) rest else rest

unfoldable pub get_active_dkim_key : ℕ → Exec (Db World) DkimError Key
unfolding latest_key
get_active_dkim_key domain_id = recoded of_get (
    statement (λ w.
      found_key w (latest_key (λ k. (k.domain_id == domain_id) && is_active k.status) w w.keys)))

-- in front of the first key that is not younger
unfoldable pub insert_key : Key → List Key → List Key
insert_key k [] = k ∷ []
insert_key k (x ∷ ks) =
    let rest = insert_key k ks in if leb x.created_at k.created_at then k ∷ x ∷ ks else x ∷ rest

-- `ORDER BY created_at DESC`
unfoldable pub keys_of : ℕ → World → List Key → List Key
unfolding insert_key
keys_of domain_id w [] = []
keys_of domain_id w (k ∷ ks) =
    let rest = keys_of domain_id w ks in
    if k.domain_id == domain_id
    then elim (joined w k) [ none ↦ rest | some j ↦ insert_key j rest ]
    else rest

unfoldable pub list_dkim_keys_by_domain : ℕ → Exec (Db World) DkimError (List Key)
unfolding keys_of
list_dkim_keys_by_domain domain_id =
    recoded (λ e. failed) (statement (λ w. ok (keys_of domain_id w w.keys, w)))

-- an update of the rows with the id, which is an error where there is none
abbrev pub update_rows : ℕ → (Key → Key) → World → Result DbError (Unit {0} × World)
update_rows id f w =
    if any (λ k. k.id == id) w.keys
    then ok (tt, record w { keys = map (λ k. if k.id == id then f k else k) w.keys })
    else err no_rows

unfoldable pub activate_dkim_key : ℕ → ℕ → Exec (Db World) DkimError (Unit {0})
activate_dkim_key now id =
    recoded of_get
      (statement (update_rows id (λ k. record k { status = active; activated_at = some now })))

unfoldable pub revoke_dkim_key : ℕ → ℕ → Exec (Db World) DkimError (Unit {0})
revoke_dkim_key now id =
    recoded of_get
      (statement (update_rows id (λ k. record k { status = revoked; revoked_at = some now })))

unfoldable pub find_policy : ℕ → List Policy → Option Policy
find_policy i [] = none
find_policy i (p ∷ ps) = if p.domain_id == i then some p else find_policy i ps

-- the policy of the domain, with the domain's name
unfoldable pub joined_policy : World → ℕ → Option Policy
joined_policy w i = elim (find_policy i w.policies) [
  | none ↦ none
  | some p ↦ elim (find_domain i w.directory.domains) [
    | none ↦ none
    | some d ↦ some (record p { domain = d.name })
  ]
]

abbrev pub found_policy : World → Option Policy → Result DbError (Policy × World)
found_policy w none = err no_rows
found_policy w (some p) = ok (p, w)

abbrev pub of_policy : DbError → DkimError
of_policy unavailable = failed
of_policy duplicate = failed
of_policy no_rows = policy_not_found

unfoldable pub get_policy_row : ℕ → Exec (Db World) DkimError Policy
get_policy_row domain_id =
    recoded of_policy (statement (λ w. found_policy w (joined_policy w domain_id)))

-- the row after the upsert: the time of its creation stays
abbrev pub upserted : ℕ → Policy → Option Policy → Policy
upserted now p none = record p { created_at = now; updated_at = now }
upserted now p (some q) = record p { created_at = q.created_at; updated_at = now }

unfoldable pub put_policy : ℕ → Policy → List Policy → List Policy
unfolding find_policy
put_policy now p ps =
    upserted now p (find_policy p.domain_id ps) ∷ keep (λ q. not (q.domain_id == p.domain_id)) ps

unfoldable pub upsert_policy : ℕ → Policy → Exec (Db World) DkimError (Unit {0})
unfolding put_policy
upsert_policy now policy =
    recoded (λ e. failed)
      (statement (λ w.
        if domain_exists policy.domain_id w
        then ok (tt, record w { policies = put_policy now policy w.policies })
        else err unavailable))
