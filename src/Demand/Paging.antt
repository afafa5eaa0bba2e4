-- ===== src/Demand/Paging.antt =====
-- A loop over the pages of a list takes the whole list.
use warmrunners.Base.{
  ℕ, zero, suc, ◌+◌, ◌*◌, ◌<◌, ◌≡◌, refl, sym, ap, ◌∙◌, subst, inl, inr, false, some, List, [], ◌∷◌,
  ◌++◌, arith, Result, ok, ltb, ltb→lt, length, take, Bool-cases,
}
use warmrunners.Demand.Counting.{paged, per_page}

module _ {A : Type 0} where
  abbrev pub drop : ℕ → List A → List A
  drop zero xs = xs
  drop (suc n) [] = []
  drop (suc n) (x ∷ xs) = drop n xs

  take-append-drop : (n : ℕ) (xs : List A) → (take n xs ++ drop n xs) ≡ xs
  take-append-drop zero xs = refl
  take-append-drop (suc n) [] = refl
  take-append-drop (suc n) (x ∷ xs) = ap (◌∷◌ x) (take-append-drop n xs)

  -- A page that is not full is the rest of the list.
  take_short : (n : ℕ) (xs : List A) → length (take n xs) < n → take n xs ≡ xs
  take_short zero xs h = absurd (omega (arith, h))
  take_short (suc n) [] h = refl
  take_short (suc n) (x ∷ xs) h = ap (◌∷◌ x) (take_short n xs (omega (arith, h)))

  length-drop :
      (n : ℕ) (xs : List A)
      → ltb (length (take n xs)) n ≡ false
      → length (drop n xs) + n ≡ length xs
  length-drop zero xs h = omega arith
  length-drop (suc n) [] h = absurd (ground (arith, h))
  length-drop (suc n) (x ∷ xs) h = ground (arith, h, length-drop n xs)

  -- The page of a list with this index, counted from 0.
  abbrev pub page_of : ℕ → List A → List A
  page_of zero xs = take per_page xs
  page_of (suc i) xs = page_of i (drop per_page xs)

  -- The pages from `page` on are those of the list.
  abbrev pub ServesFrom : ℕ → (ℕ → Result (List A)) → List A → Type 0
  ServesFrom page fetch xs = (i : ℕ) → fetch (page + i) ≡ ok (page_of i xs)

  pub paged-all :
      {S : Type 0} (step : S → List A → S)
      → ((s : S) (xs ys : List A) → step s (xs ++ ys) ≡ step (step s xs) ys)
      → (fetch : ℕ → Result (List A)) (fuel page : ℕ) (xs : List A) (s : S)
      → ServesFrom page fetch xs
      → length xs < fuel * per_page
      → paged step fetch fuel page s ≡ some (ok (step s xs))
  unfolding paged
  paged-all step splits fetch zero page xs s serves enough = absurd (omega (arith, enough))
  paged-all step splits fetch (suc fuel) page xs s serves enough =
      let here : fetch page ≡ ok (take per_page xs) =
        subst (λ p. fetch p ≡ ok (take per_page xs)) {x = page + 0} (omega arith) (serves 0) in
      elim (Bool-cases (ltb (length (take per_page xs)) per_page)) [
        | inl short ↦
            rw (here, short, paged)
              (ap (λ ys. some (ok (step s ys)))
                (take_short per_page xs (ltb→lt (length (take per_page xs)) per_page short)))
        | inr full ↦
            rw (here, full, paged)
              (paged-all step splits fetch fuel (suc page) (drop per_page xs)
                  (step s (take per_page xs))
                  (λ i.
                    subst (λ p. fetch p ≡ ok (page_of (suc i) xs)) {x = page + suc i} (omega arith)
                      (serves (suc i)))
                  (omega (arith, enough, length-drop per_page xs full))
                ∙ ap (λ t. some (ok t))
                    (sym (splits s (take per_page xs) (drop per_page xs))
                      ∙ ap (step s) (take-append-drop per_page xs)))
      ]
