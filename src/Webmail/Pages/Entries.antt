-- ===== src/Webmail/Pages/Entries.antt =====
-- The entries of the page that a request asks for.
use opemail.Prelude.{
  ℕ, zero, suc, ◌+◌, ◌-◌, ◌*◌, ◌^◌, ◌≤◌, ◌<◌, ◌≡◌, ◌⊎◌, inl, inr, refl, sym, ap, ◌∙◌, Bool, true,
  false, ◌&&◌, ◌||◌, none, List, [], ◌∷◌, length, take, drop, get_elem?, leb, ltb, arith,
  Bool-cases, if◌then◌else◌,
}
use opemail.Directory.Tables.{ℤ, pos, negsuc}
use opemail.Webmail.Pages.{Paged, paged, paginate, page_or_first, limit_or_default}
use opemail.Webmail.Pages.Windows.{page_window}

abbrev pub is_positive : ℤ → Bool
is_positive (pos k) = leb 1 k
is_positive (negsuc k) = false

abbrev pub at_most : ℕ → ℤ → Bool
at_most n (pos k) = leb k n
at_most n (negsuc k) = true

-- the number that was given where it is good, and the default elsewhere
abbrev pub Chosen : Bool → ℕ → ℤ → ℕ → Type 0
Chosen good default given k = ((good ≡ true) × (given ≡ pos k)) ⊎ ((good ≡ false) × (k ≡ default))

limit-Chosen : (l : ℤ) → Chosen (is_positive l && at_most 100 l) 25 l (limit_or_default l)
limit-Chosen (pos n) = elim (Bool-cases (ltb n 1 || ltb 100 n)) [
  | inl t ↦ inr (ground arith, rw t refl)
  | inr f ↦ inl (ground arith, rw f refl)
]
limit-Chosen (negsuc n) = inr (refl, refl)

limit-bounds : (l : ℤ) → (1 ≤ limit_or_default l) × (limit_or_default l ≤ 100)
limit-bounds (pos n) = elim (Bool-cases (ltb n 1 || ltb 100 n)) [
  | inl t ↦ rw t (omega arith, omega arith)
  | inr f ↦ rw f (ground arith, ground arith)
]
limit-bounds (negsuc n) = (omega arith, omega arith)

page-Chosen : (p : ℤ) → Chosen (is_positive p) 1 p (page_or_first p)
page-Chosen (pos zero) = inr (refl, refl)
page-Chosen (pos (suc k)) = inl (ground arith, refl)
page-Chosen (negsuc k) = inr (refl, refl)

mul-le : (a c b : ℕ) → a ≤ c → a * b ≤ c * b
mul-le a c zero h = omega arith
mul-le a c (suc b) h =
    let rest = mul-le a c b h in
    let left : a * suc b ≡ a * b + a = ground arith in
    let right : c * suc b ≡ c * b + c = ground arith in omega (arith, rest, left, right, h)

start-fits : (p limit : ℕ) → p ≤ 2 ^ 56 → limit ≤ 100 → (p - 1) * limit < 2 ^ 63
start-fits p limit h k =
    let below : (p - 1) * limit ≤ 2 ^ 56 * limit =
      mul-le (p - 1) (2 ^ 56) limit (omega (arith, h)) in
    omega (arith, below, k)

module _ {ℓ} {A : Type ℓ} where
  get_elem?-take :
      (n : ℕ) (xs : List A) (k : ℕ)
      → get_elem? (take n xs) k ≡ (if ltb k n then get_elem? xs k else none)
  get_elem?-take zero xs k = ground arith
  get_elem?-take (suc n) [] k = ground arith
  get_elem?-take (suc n) (x ∷ xs) zero = ground arith
  get_elem?-take (suc n) (x ∷ xs) (suc k) = let rest = get_elem?-take n xs k in ground arith

  get_elem?-drop : (n : ℕ) (xs : List A) (k : ℕ) → get_elem? (drop n xs) k ≡ get_elem? xs (n + k)
  get_elem?-drop zero xs k = let e : 0 + k ≡ k = omega arith in ap (λ i. get_elem? xs i) (sym e)
  get_elem?-drop (suc n) [] k =
      let e : suc n + k ≡ suc (n + k) = omega arith in ap (λ i. get_elem? [] i) (sym e)
  get_elem?-drop (suc n) (x ∷ xs) k =
      let e : suc n + k ≡ suc (n + k) = omega arith in
      get_elem?-drop n xs k ∙ ap (λ i. get_elem? (x ∷ xs) i) (sym e)

  -- a page with the length of the whole list beside it; the entry `k` of the page is the entry `start + k` of the list
  pub record IsPage (xs : List A) (start limit : ℕ) (r : Paged A) : Type ℓ where
    pub entries : List A
    pub shows : r ≡ paged entries (length xs)
    pub entry :
        (k : ℕ) → get_elem? entries k ≡ (if ltb k limit then get_elem? xs (start + k) else none)

  -- For any page and limit of a request, where the page is at most 2 ^ 56: a limit from 1 to 100 is taken as it is, and
  -- any other is 25; a page from 1 on is taken as it is, and any other is the first one. The call does not panic, and
  -- the page shows, with the length of the whole list, exactly its `limit` entries from `(page - 1) * limit` on.
  pub IsPage-entries :
      (xs : List A) (p l : ℤ)
      → page_or_first p ≤ 2 ^ 56
      → Chosen (is_positive p) 1 p (page_or_first p)
        × Chosen (is_positive l && at_most 100 l) 25 l (limit_or_default l)
        × IsPage xs
            ((page_or_first p - 1) * limit_or_default l)
            (limit_or_default l)
            (paginate xs (page_or_first p) (limit_or_default l))
  IsPage-entries xs p l h =
      let page = page_or_first p in
      let limit = limit_or_default l in
      let start = (page - 1) * limit in
      (
        page-Chosen p,
        limit-Chosen l,
        record {
          entries = take limit (drop start xs);
          shows = page_window xs page limit (start-fits page limit h (limit-bounds l).1);
          entry = λ k.
              get_elem?-take limit (drop start xs) k
              ∙ ap (λ o. if ltb k limit then o else none) (get_elem?-drop start xs k);
        },
      )
