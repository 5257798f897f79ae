-- ===== src/Common/Slices.antt =====
-- Cutting and joining lists, and the copy of bytes into a region of memory.
use Prim.Native.Nat.add
use Prim.Native.Nat.{ℕ, zero, suc, ◌+◌, ◌-◌, ◌<◌, ◌≤◌}
use mathlib.Core.Path.{◌≡◌, refl, sym, ap, ◌∙◌}
use mathlib.Core.List.{List, [], ◌∷◌, ◌++◌}
use native.Mathlib.Omega.{arith}
use mathlib.Core.Option.{some}
use unworkable.Common.Lists.{get_elem?, set, length, take, drop}

module _ {ℓ} {A : Type ℓ} where
  abbrev pub flatten : List (List A) → List A
  flatten [] = []
  flatten (x ∷ xs) = x ++ flatten xs

  abbrev pub overlay : List A → List A → List A
  overlay [] xs = xs
  overlay (s ∷ src) [] = []
  overlay (s ∷ src) (x ∷ xs) = s ∷ overlay src xs

  -- `memcpy(region + at, src, …)`, for a copy that stays inside the region.
  abbrev pub put : ℕ → List A → List A → List A
  put zero src xs = overlay src xs
  put (suc at) src [] = []
  put (suc at) src (x ∷ xs) = x ∷ put at src xs

  pub take_zero : (xs : List A) → take 0 xs ≡ []
  take_zero xs = refl

  pub take-nil : (n : ℕ) → take {A = A} n [] ≡ []
  take-nil zero = refl
  take-nil (suc n) = refl

  pub drop-nil : (n : ℕ) → drop {A = A} n [] ≡ []
  drop-nil zero = refl
  drop-nil (suc n) = refl

  pub take-append :
      (n : ℕ) (xs ys : List A) → take n (xs ++ ys) ≡ take n xs ++ take (n - length xs) ys
  take-append n [] ys = ground (arith, take-nil n)
  take-append zero (x ∷ xs) ys = ground arith
  take-append (suc n) (x ∷ xs) ys = ground (arith, take-append n xs ys)

  pub drop-append :
      (n : ℕ) (xs ys : List A) → drop n (xs ++ ys) ≡ drop n xs ++ drop (n - length xs) ys
  drop-append n [] ys = ground (arith, drop-nil n)
  drop-append zero (x ∷ xs) ys = ground arith
  drop-append (suc n) (x ∷ xs) ys = ground (arith, drop-append n xs ys)

  pub take_all : (n : ℕ) (xs : List A) → length xs ≤ n → take n xs ≡ xs
  take_all zero [] h = refl
  take_all (suc n) [] h = refl
  take_all zero (x ∷ xs) h = absurd (omega arith)
  take_all (suc n) (x ∷ xs) h = ap (λ l. x ∷ l) (take_all n xs (omega arith))

  pub drop_all : (n : ℕ) (xs : List A) → length xs ≤ n → drop n xs ≡ []
  drop_all zero [] h = refl
  drop_all (suc n) [] h = refl
  drop_all zero (x ∷ xs) h = absurd (omega arith)
  drop_all (suc n) (x ∷ xs) h = drop_all n xs (omega arith)

  pub drop-drop : (m n : ℕ) (xs : List A) → drop m (drop n xs) ≡ drop (n + m) xs
  drop-drop m zero xs = ap (λ k. drop k xs) (omega arith)
  drop-drop m (suc n) [] = drop-nil m ∙ sym (drop-nil (suc n + m))
  drop-drop m (suc n) (x ∷ xs) = rw (add.suc n m) (drop-drop m n xs)

  -- A piece of a list, cut in two.
  pub take-add : (m n : ℕ) (xs : List A) → take (m + n) xs ≡ take m xs ++ take n (drop m xs)
  take-add zero n xs = ap (λ k. take k xs) (omega arith)
  take-add (suc m) n [] = take-nil (suc m + n) ∙ sym (take-nil n)
  take-add (suc m) n (x ∷ xs) = rw (add.suc m n) (ap (λ l. x ∷ l) (take-add m n xs))

  pub length-overlay : (src xs : List A) → length (overlay src xs) ≡ length xs
  length-overlay [] xs = refl
  length-overlay (s ∷ src) [] = refl
  length-overlay (s ∷ src) (x ∷ xs) = ap suc (length-overlay src xs)

  pub length-put : (at : ℕ) (src xs : List A) → length (put at src xs) ≡ length xs
  length-put zero src xs = length-overlay src xs
  length-put (suc at) src [] = refl
  length-put (suc at) src (x ∷ xs) = ap suc (length-put at src xs)

  overlay-append :
      (src xs ys : List A)
      → overlay src (xs ++ ys) ≡ overlay src xs ++ overlay (drop (length xs) src) ys
  overlay-append [] xs ys = rw drop-nil
  overlay-append (s ∷ src) [] ys = refl
  overlay-append (s ∷ src) (x ∷ xs) ys = ap (λ l. s ∷ l) (overlay-append src xs ys)

  -- A copy that begins in the first of two regions goes on in the second.
  pub put-append :
      (at : ℕ) (src xs ys : List A)
      → put at src (xs ++ ys) ≡ put at src xs ++ put (at - length xs) (drop (length xs - at) src) ys
  put-append zero src xs ys = ground (arith, overlay-append src xs ys)
  put-append (suc at) src [] ys = ground arith
  put-append (suc at) src (x ∷ xs) ys = ground (arith, put-append at src xs ys)

  overlay-take :
      (k : ℕ) (src xs : List A) → length xs ≤ k → overlay (take k src) xs ≡ overlay src xs
  overlay-take k [] xs h = rw take-nil
  overlay-take zero (s ∷ src) [] h = refl
  overlay-take (suc k) (s ∷ src) [] h = refl
  overlay-take zero (s ∷ src) (x ∷ xs) h = absurd (omega arith)
  overlay-take (suc k) (s ∷ src) (x ∷ xs) h = ap (λ l. s ∷ l) (overlay-take k src xs (omega arith))

  -- Only what fits into the region is copied.
  pub put-take :
      (at k : ℕ) (src xs : List A) → length xs ≤ at + k → put at (take k src) xs ≡ put at src xs
  put-take zero k src xs h = overlay-take k src xs (omega arith)
  put-take (suc at) k src [] h = refl
  put-take (suc at) k src (x ∷ xs) h = ap (λ l. x ∷ l) (put-take at k src xs (omega arith))

  pub put-nil : (at : ℕ) (xs : List A) → put at [] xs ≡ xs
  put-nil zero xs = refl
  put-nil (suc at) [] = refl
  put-nil (suc at) (x ∷ xs) = ap (λ l. x ∷ l) (put-nil at xs)

  take-overlay :
      (src xs : List A) → length src ≤ length xs → take (length src) (overlay src xs) ≡ src
  take-overlay [] xs h = refl
  take-overlay (s ∷ src) [] h = absurd (omega arith)
  take-overlay (s ∷ src) (x ∷ xs) h = ap (λ l. s ∷ l) (take-overlay src xs (omega arith))

  -- What was copied is found again.
  pub take-drop-put :
      (at : ℕ) (src xs : List A)
      → at + length src ≤ length xs
      → take (length src) (drop at (put at src xs)) ≡ src
  take-drop-put zero src xs h = take-overlay src xs (omega arith)
  take-drop-put (suc at) src [] h = absurd (omega arith)
  take-drop-put (suc at) src (x ∷ xs) h = take-drop-put at src xs (omega arith)

  -- From an index in range on, a list is the element there and the rest.
  pub drop_step :
      (xs : List A) (i : ℕ) {x : A} → get_elem? xs i ≡ some x → drop i xs ≡ x ∷ drop (i + 1) xs
  drop_step [] i e = absurd (cc)
  drop_step (x ∷ xs) zero e = ground arith
  drop_step (x ∷ xs) (suc i) e = rw (drop_step xs i e, add.suc i 1)

  pub drop-set : (xs : List A) (i : ℕ) (v : A) → drop (i + 1) (set xs i v) ≡ drop (i + 1) xs
  drop-set [] i v = refl
  drop-set (x ∷ xs) zero v = ground arith
  drop-set (x ∷ xs) (suc i) v = rw (add.suc i 1) (drop-set xs i v)

  -- One element more of a prefix, after a write there and without one.
  pub take-set :
      (xs : List A) (i : ℕ) (v : A) (ys : List A)
      → i < length xs
      → take (i + 1) (set xs i v) ++ ys ≡ take i xs ++ (v ∷ ys)
  take-set [] i v ys h = elim h [ ]
  take-set (x ∷ xs) zero v ys h = ground arith
  take-set (x ∷ xs) (suc i) v ys h =
      rw (add.suc i 1) (ap (λ l. x ∷ l) (take-set xs i v ys (omega arith)))

  pub take_step :
      (xs : List A) (i : ℕ) {x : A} (ys : List A)
      → get_elem? xs i ≡ some x
      → take (i + 1) xs ++ ys ≡ take i xs ++ (x ∷ ys)
  take_step [] i ys e = absurd (cc)
  take_step (x ∷ xs) zero ys e = ground arith
  take_step (x ∷ xs) (suc i) ys e = rw (add.suc i 1) (ap (λ l. x ∷ l) (take_step xs i ys e))

  -- A copy that fills the region.
  pub put_whole : (src xs : List A) → length src ≡ length xs → put 0 src xs ≡ src
  put_whole [] [] h = refl
  put_whole [] (x ∷ xs) h = absurd (omega arith)
  put_whole (s ∷ src) [] h = absurd (omega arith)
  put_whole (s ∷ src) (x ∷ xs) h = ap (λ l. s ∷ l) (put_whole src xs (omega arith))

  -- The two parts of a list that was joined.
  pub take-append_self : (n : ℕ) (xs ys : List A) → length xs ≡ n → take n (xs ++ ys) ≡ xs
  take-append_self zero [] ys h = refl
  take-append_self zero (x ∷ xs) ys h = absurd (omega arith)
  take-append_self (suc n) [] ys h = absurd (omega arith)
  take-append_self (suc n) (x ∷ xs) ys h = ap (λ l. x ∷ l) (take-append_self n xs ys (omega arith))

  pub drop-append_self : (n : ℕ) (xs ys : List A) → length xs ≡ n → drop n (xs ++ ys) ≡ ys
  drop-append_self zero [] ys h = refl
  drop-append_self zero (x ∷ xs) ys h = absurd (omega arith)
  drop-append_self (suc n) [] ys h = absurd (omega arith)
  drop-append_self (suc n) (x ∷ xs) ys h = drop-append_self n xs ys (omega arith)
