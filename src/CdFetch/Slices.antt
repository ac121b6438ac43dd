-- ===== src/CdFetch/Slices.antt =====
-- Slices of an archive, for src/downloader/cd_fetch.c.
use burst.Base.{
  ℕ, zero, suc, ◌+◌, ◌-◌, ◌≤◌, ◌≡◌, refl, sym, ap, ◌∙◌, List, [], ◌∷◌, ◌++◌, arith, length, take,
  drop, length-take, length-drop,
}

-- The `n` bytes from an offset on.
abbrev pub slice : ℕ → ℕ → List ℕ → List ℕ
slice offset n xs = take n (drop offset xs)

drop_none : (n : ℕ) → drop {A = ℕ} n [] ≡ []
drop_none zero = refl
drop_none (suc n) = refl

take_none : (n : ℕ) → take {A = ℕ} n [] ≡ []
take_none zero = refl
take_none (suc n) = refl

drop_twice : (a n : ℕ) (xs : List ℕ) → drop n (drop a xs) ≡ drop (n + a) xs
drop_twice zero n xs = ap (λ k. drop k xs) (omega arith)
drop_twice (suc a) n [] = drop_none n ∙ sym (drop_none (n + suc a))
drop_twice (suc a) n (x ∷ xs) =
    let step : suc (n + a) ≡ n + suc a = omega arith in
    drop_twice a n xs ∙ ap (λ k. drop k (x ∷ xs)) step

pub drop-drop : (a n : ℕ) (xs : List ℕ) → drop n (drop a xs) ≡ drop (a + n) xs
drop-drop a n xs = drop_twice a n xs ∙ ap (λ k. drop k xs) (omega arith)

take-take : (n m : ℕ) (xs : List ℕ) → n ≤ m → take n (take m xs) ≡ take n xs
take-take zero m xs h = refl
take-take (suc n) zero xs h = absurd (omega arith)
take-take (suc n) (suc m) [] h = refl
take-take (suc n) (suc m) (x ∷ xs) h = ap (λ l. x ∷ l) (take-take n m xs (omega arith))

drop-take : (i m : ℕ) (xs : List ℕ) → drop i (take (m + i) xs) ≡ take m (drop i xs)
drop-take zero m xs = ap (λ k. take k xs) (omega arith)
drop-take (suc i) m [] =
    ap (drop (suc i)) (take_none (m + suc i))
    ∙ drop_none (suc i)
    ∙ sym (take_none m)
    ∙ ap (take m) (sym (drop_none (suc i)))
drop-take (suc i) m (x ∷ xs) =
    let step : m + suc i ≡ suc (m + i) = omega arith in
    ap (λ k. drop (suc i) (take k (x ∷ xs))) step ∙ drop-take i m xs

take_more : (n m : ℕ) (xs : List ℕ) → take n xs ++ take m (drop n xs) ≡ take (m + n) xs
take_more zero m xs = ap (λ k. take k xs) (omega arith)
take_more (suc n) m [] = take_none m ∙ sym (take_none (m + suc n))
take_more (suc n) m (x ∷ xs) =
    let step : suc (m + n) ≡ m + suc n = omega arith in
    ap (λ l. x ∷ l) (take_more n m xs) ∙ ap (λ k. take k (x ∷ xs)) step

pub length-slice : (a n : ℕ) (xs : List ℕ) → a + n ≤ length xs → length (slice a n xs) ≡ n
length-slice a n xs h = omega (arith, length-take n (drop a xs), length-drop a xs)

pub slice-append :
    (a n m : ℕ) (xs : List ℕ) → slice a n xs ++ slice (a + n) m xs ≡ slice a (n + m) xs
slice-append a n m xs =
    ap (λ ys. slice a n xs ++ take m ys) (sym (drop-drop a n xs))
    ∙ take_more n m (drop a xs)
    ∙ ap (λ k. take k (drop a xs)) (omega arith)

pub slice-slice :
    (a m i n : ℕ) (xs : List ℕ) → i + n ≤ m → slice i n (slice a m xs) ≡ slice (a + i) n xs
slice-slice a m i n xs h =
    let split : m ≡ m - i + i = omega arith in
    ap (λ k. take n (drop i (take k (drop a xs)))) split
    ∙ ap (take n) (drop-take i (m - i) (drop a xs))
    ∙ take-take n (m - i) (drop i (drop a xs)) (omega arith)
    ∙ ap (take n) (drop-drop a i xs)
