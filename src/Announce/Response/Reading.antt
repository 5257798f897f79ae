-- ===== src/Announce/Response/Reading.antt =====
-- All that the tracker has sent is read, inside the buffer.
use unworkable.Common.{
  ℕ, zero, suc, ◌+◌, ◌^◌, ◌≤◌, ◌<◌, ◌≡◌, refl, ap, ◌∙◌, true, false, List, [], ◌∷◌, ◌++◌, ok, ◌==◌,
  ltb, leb, length, take, drop, arith, Bool-cases, inl, inr, length-append, le→ltb, length-take,
  length-drop,
}
use mathlib.Core.List.{append_assoc}
use unworkable.Announce.{HttpResponse}
use unworkable.Announce.Response.{room_of, handle_announce_response, read_all, again}

take-drop : (n : ℕ) (xs : List ℕ) → take n xs ++ drop n xs ≡ xs
take-drop zero xs = refl
take-drop (suc n) [] = refl
take-drop (suc n) (x ∷ xs) = ap (λ l. x ∷ l) (take-drop n xs)

-- What is read fits into the buffer, and the numbers into 32 bits.
abbrev pub Fits : List ℕ → HttpResponse → Type 0
Fits input r =
    (length r.rxmsg ≤ r.rxmsglen)
    × (r.rxmsglen < 2 ^ 32)
    × (length r.rxmsg + length input + 2048 < 2 ^ 32)

room_lem :
    (input : List ℕ) (r : HttpResponse)
    → Fits input r
    → (length r.rxmsg + 256 ≤ room_of r) × (room_of r < 2 ^ 32)
room_lem input r h = elim (Bool-cases (leb r.rxmsglen (length r.rxmsg + 256))) [
  | inl e ↦ ground arith
  | inr e ↦ ground arith
]

-- One round reads 256 bytes, or what there is, and keeps the bounds.
read_lem :
    (input : List ℕ) (r : HttpResponse)
    → Fits input r
    → (r' : HttpResponse) × (handle_announce_response input r ≡ ok (r', drop 256 input))
      × (r'.rxmsg ≡ r.rxmsg ++ take 256 input)
      × Fits (drop 256 input) r'
unfolding handle_announce_response
read_lem input r h =
    let room = room_lem input r h in
    let total = length-append r.rxmsg (take 256 input) in
    let taken = length-take 256 input in
    let left = length-drop 256 input in
    let inside : ltb (room_of r) (length r.rxmsg + length (take 256 input)) ≡ false =
      le→ltb (room_of r) (length r.rxmsg + length (take 256 input))
        (omega (arith, room.0, taken)) in
    (
      record { rxmsg = r.rxmsg ++ take 256 input; rxmsglen = room_of r },
      rw inside refl,
      refl,
      (omega (arith, room.0, total, taken), room.1, omega (arith, h.2, total, taken, left)),
    )

read_all_lem :
    (fuel : ℕ) (input : List ℕ) (r : HttpResponse)
    → length input < fuel
    → Fits input r
    → (r' : HttpResponse) × (read_all fuel input r ≡ ok r')
      × (r'.rxmsg ≡ r.rxmsg ++ input)
      × (length r'.rxmsg ≤ r'.rxmsglen)
unfolding read_all
read_all_lem zero input r f h = absurd (omega arith)
read_all_lem (suc fuel) [] r f h =
    let (r₁, run, text, fits) = read_lem [] r h in
    let total = length-append r.rxmsg [] in
    let last : (length r₁.rxmsg == length r.rxmsg) ≡ true = rw text (ground (arith, total)) in
    (r₁, rw (run, again) (rw last refl), text, fits.0)
read_all_lem (suc fuel) (x ∷ input) r f h =
    let (r₁, run, text, fits) = read_lem (x ∷ input) r h in
    let total = length-append r.rxmsg (take 256 (x ∷ input)) in
    let taken = length-take 256 (x ∷ input) in
    let more : (length r₁.rxmsg == length r.rxmsg) ≡ false =
      rw text (ground (arith, total, taken)) in
    let (r', loop, whole, inside) =
      read_all_lem fuel (drop 256 (x ∷ input)) r₁ (omega (arith, length-drop 256 (x ∷ input)))
        fits in
    (
      r',
      rw (run, again) (rw more loop),
      whole
          ∙ ap (λ m. m ++ drop 256 (x ∷ input)) text
          ∙ append_assoc r.rxmsg (take 256 (x ∷ input)) (drop 256 (x ∷ input))
          ∙ ap (λ l. r.rxmsg ++ l) (take-drop 256 (x ∷ input)),
      inside,
    )

-- From a response that keeps its bounds, the loop over what the tracker has sent ends: all of it stands behind what had
-- been read before, and inside the buffer, which has grown where it had to.
pub read_all-append :
    (input : List ℕ) (r : HttpResponse)
    → Fits input r
    → (r' : HttpResponse) × (read_all (length input + 1) input r ≡ ok r')
      × (r'.rxmsg ≡ r.rxmsg ++ input)
      × (length r'.rxmsg ≤ r'.rxmsglen)
read_all-append input r h = read_all_lem (length input + 1) input r (omega arith) h
