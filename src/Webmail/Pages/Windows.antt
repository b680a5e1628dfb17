-- ===== src/Webmail/Pages/Windows.antt =====
-- What the pages show of the list.
use opemail.Prelude.{
  ℕ, zero, suc, ◌+◌, ◌-◌, ◌*◌, ◌%◌, ◌^◌, ◌≤◌, ◌<◌, ◌≡◌, refl, sym, ap, true, false, List, [], ◌++◌,
  length, take, drop, take-add, take-nil, take-rest, drop-all, leb, ltb, arith, Bool-cases, inl,
  inr,
}
use mathlib.Core.Path.{subst}
use opemail.Webmail.Pages.{Paged, paged, panics, slice, paginate}

small : (k : ℕ) → k < 2 ^ 64 → k % 2 ^ 64 ≡ k
small k h = omega (arith, h)

not_negative : (k : ℕ) → k < 2 ^ 63 → leb (2 ^ 63) k ≡ false
not_negative k h = ground (arith, h)

negative : (k : ℕ) → 2 ^ 63 ≤ k → leb (2 ^ 63) k ≡ true
negative k h = ground (arith, h)

module _ {ℓ} {A : Type ℓ} where
  abbrev pub shown : Paged A → List A
  shown (paged xs n) = xs
  shown panics = []

  -- the first `n` pages, one after the other
  unfoldable pub first_pages : List A → ℕ → ℕ → List A
  first_pages xs limit zero = []
  first_pages xs limit (suc n) = first_pages xs limit n ++ shown (paginate xs (suc n) limit)

  slice_exact : (xs : List A) (start limit : ℕ) → slice xs start limit ≡ take limit (drop start xs)
  slice_exact xs start limit = elim (Bool-cases (ltb (length xs) (start + limit))) [
    | inl t ↦ rw t (take-rest start limit xs (ground arith))
    | inr f ↦ rw f refl
  ]

  -- Where the product of the page's index and the limit fits an `int`, a page is the part of the list that begins
  -- there, with the length of the whole list beside it.
  pub page_window :
      (xs : List A) (page limit : ℕ)
      → (page - 1) * limit < 2 ^ 63
      → paginate xs page limit ≡ paged (take limit (drop ((page - 1) * limit) xs)) (length xs)
  unfolding paginate
  page_window xs page limit h =
      let start = (page - 1) * limit in
      rw (small start (omega (arith, h)), not_negative start h)
        (elim (Bool-cases (ltb (length xs) start)) [
          | inl t ↦
              let past = drop-all start xs (ground arith) in
              rw (t, past) (ap (λ r. paged r (length xs)) (sym (take-nil limit)))
          | inr f ↦ rw f (ap (λ r. paged r (length xs)) (slice_exact xs start limit))
        ])

  -- Where the product of the page's index and the limit is a number of 64 bits that does not fit an `int`, the call
  -- panics, whatever the list is.
  page_panics :
      (xs : List A) (page limit : ℕ)
      → 2 ^ 63 ≤ (page - 1) * limit
      → (page - 1) * limit < 2 ^ 64
      → paginate xs page limit ≡ panics
  unfolding paginate
  page_panics xs page limit low high =
      let start = (page - 1) * limit in rw (small start high, negative start low) refl

  -- The first `n` pages in their order are the first `n * limit` entries of the list, each of them once, where the end
  -- of the last page fits an `int`.
  pub pages_cover :
      (xs : List A) (limit n : ℕ)
      → n * limit < 2 ^ 63
      → first_pages xs limit n ≡ take (n * limit) xs
  unfolding first_pages
  pages_cover xs limit zero h =
      let none_yet : 0 * limit ≡ 0 = omega arith in ap (λ k. take k xs) (sym none_yet)
  pages_cover xs limit (suc n) h =
      let one_more : suc n * limit ≡ n * limit + limit = ground arith in
      let index : suc n - 1 ≡ n = omega arith in
      let before : n * limit < 2 ^ 63 = omega (arith, one_more, h) in
      let page =
        page_window xs (suc n) limit (subst (λ k. k * limit < 2 ^ 63) (sym index) before) in
      rw (pages_cover xs limit n before, page, one_more, index)
        (sym (take-add (n * limit) limit xs))
