-- ===== src/Announce/Response/Answers.antt =====
-- An answer that says that all is well is handled by its content.
use unworkable.Common.{
  ℕ, ◌≡◌, refl, ◌∙◌, Bool, true, false, List, ◌++◌, Option, some, ok, arith, ◌==◌, length, ◌>>=◌,
}
use unworkable.Common.Int.{ℤ}
use unworkable.Index.{RbTree}
use unworkable.Session.{Session}
use unworkable.Announce.{HttpResponse, Client}
use unworkable.Announce.Response.{handle_content, finish, handle_announce_error}
use unworkable.Announce.Response.Reading.{Fits, read_all-append}
use unworkable.Announce.Response.Head.{Line, Lines, answer_text, http_content-answer_text}

length-answer_text :
    (is_1_1 : Bool) (reason : List ℕ) (lines : List (ℕ × List ℕ)) (content : List ℕ)
    → (length (answer_text is_1_1 reason lines content) == 0) ≡ false
length-answer_text true reason lines content = ground arith
length-answer_text false reason lines content = ground arith

-- Where an answer is awaited, and what has been read of it with what there is left to be read is an answer of either
-- version of HTTP with the code 200 and headers with no empty line, no NUL and no carriage return in them, the end of
-- the connection does what the content of the answer asks for, and then forgets the answer.
pub handle_announce_error-answer_text :
    (listen : List ℕ → Option ℕ) {rb : RbTree} (connect : Session rb → ℕ → Option ℕ)
    (decimal : ℤ → List ℕ) (getaddrinfo : List ℕ → List ℕ → Option (List ℕ × List ℕ))
    (strtonum : List ℕ → Option ℤ) (fresh : ℕ → List ℕ) (input : List ℕ) (r : HttpResponse)
    (c : Client rb) (is_1_1 : Bool) (reason : List ℕ) (lines : List (ℕ × List ℕ)) (content : List ℕ)
    → c.tracker.res ≡ some r
    → Fits input r
    → r.rxmsg ++ input ≡ answer_text is_1_1 reason lines content
    → Line reason
    → Lines lines
    → handle_announce_error listen connect decimal getaddrinfo strtonum fresh false input c ≡ (
        handle_content listen connect decimal getaddrinfo strtonum fresh (some content) c >>= λ c'.
        ok (finish c'))
unfolding handle_announce_error
handle_announce_error-answer_text listen connect decimal getaddrinfo strtonum fresh input r c is_1_1
      reason lines content awaited fits text of_reason of_lines =
    let (r', loop, whole, inside) = read_all-append input r fits in
    let is_answer = whole ∙ text in
    rw awaited (
      rw (loop, ◌>>=◌)
        (rw (is_answer, length-answer_text is_1_1 reason lines content)
          (rw (http_content-answer_text is_1_1 reason lines content of_reason of_lines) refl)))
