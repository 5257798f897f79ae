-- ===== src/Announce/Response/Head.antt =====
-- The head of an answer over HTTP.
use unworkable.Common.{
  ℕ, ◌≡◌, refl, ap, ◌∙◌, Bool, true, false, List, [], ◌∷◌, ◌++◌, some, ok, ◌==◌, All,
}
use mathlib.Core.List.{append_assoc}
use unworkable.Common.Text.{codes}
use unworkable.Torrent.Parse.{strstr}
use unworkable.Announce.Response.{strncmp_eq, http_content}

-- A line of a head has neither a NUL nor a carriage return in it.
abbrev pub Line : List ℕ → Type 0
Line s = All (λ c. ((c == 0) ≡ false) × ((13 == c) ≡ false)) s

-- Lines that are not empty, each with its end, and an empty line behind them.
abbrev pub headers_text : List (ℕ × List ℕ) → List ℕ
headers_text [] = 13 ∷ 10 ∷ []
headers_text ((c, s) ∷ lines) = (c ∷ s) ++ (13 ∷ 10 ∷ headers_text lines)

abbrev pub Lines : List (ℕ × List ℕ) → Type 0
Lines lines = All (λ l. Line (l.0 ∷ l.1)) lines

-- The place of the empty line is not in a line.
strstr_skip :
    (s rest : List ℕ)
    → Line s
    → strstr (s ++ rest) (codes "\r\n\r\n") ≡ strstr rest (codes "\r\n\r\n")
unfolding strstr
strstr_skip [] rest h = refl
strstr_skip (c ∷ s) rest h = rw (h.0.1, h.0.0) (strstr_skip s rest h.1)

-- Nor is it at the end of a line behind which there is another one.
strstr-next :
    (c : ℕ) (l rest : List ℕ)
    → (13 == c) ≡ false
    → strstr (13 ∷ 10 ∷ ((c ∷ l) ++ rest)) (codes "\r\n\r\n")
      ≡ strstr ((c ∷ l) ++ rest) (codes "\r\n\r\n")
unfolding strstr
strstr-next c l rest h = rw h refl

strstr-headers :
    (s : List ℕ) (lines : List (ℕ × List ℕ)) (content : List ℕ)
    → Line s
    → Lines lines
    → strstr (s ++ (13 ∷ 10 ∷ (headers_text lines ++ content))) (codes "\r\n\r\n")
      ≡ ok (some (13 ∷ 10 ∷ 13 ∷ 10 ∷ content))
unfolding strstr
strstr-headers s [] content h hs = strstr_skip s (13 ∷ 10 ∷ 13 ∷ 10 ∷ content) h
strstr-headers s ((c, l) ∷ lines) content h hs =
    strstr_skip s (13 ∷ 10 ∷ (headers_text ((c, l) ∷ lines) ++ content)) h
    ∙ ap (λ t. strstr (13 ∷ 10 ∷ c ∷ t) (codes "\r\n\r\n"))
        (append_assoc l (13 ∷ 10 ∷ headers_text lines) content)
    ∙ strstr-next c l (13 ∷ 10 ∷ (headers_text lines ++ content)) hs.0.0.1
    ∙ strstr-headers (c ∷ l) lines content hs.0 hs.1

-- The minor number of the version, and the rest of the first line.
abbrev pub version_text : Bool → List ℕ
version_text true = codes "HTTP/1.1 "
version_text false = codes "HTTP/1.0 "

abbrev pub answer_text : Bool → List ℕ → List (ℕ × List ℕ) → List ℕ → List ℕ
answer_text is_1_1 reason lines content =
    version_text is_1_1 ++ (codes "200" ++ (reason ++ (13 ∷ 10 ∷ (headers_text lines ++ content))))

-- The content of an answer of either version with the code 200, any text behind the code and any header lines, none of
-- them empty or with a NUL or a carriage return in it, is what stands behind the first empty line.
pub http_content-answer_text :
    (is_1_1 : Bool) (reason : List ℕ) (lines : List (ℕ × List ℕ)) (content : List ℕ)
    → Line reason
    → Lines lines
    → http_content (answer_text is_1_1 reason lines content) ≡ ok (some content)
unfolding http_content strncmp_eq
http_content-answer_text true reason lines content h hs =
    rw
      (strstr-headers (codes "200" ++ reason) lines content
        ((refl, refl), ((refl, refl), ((refl, refl), h))) hs)
      refl
http_content-answer_text false reason lines content h hs =
    rw
      (strstr-headers (codes "200" ++ reason) lines content
        ((refl, refl), ((refl, refl), ((refl, refl), h))) hs)
      refl
