-- ===== src/Tests/Announces.antt =====
-- A URL, and answers of a tracker.
use unworkable.Common.{
  ℕ, ◌≡◌, refl, [], ◌∷◌, Option, none, some, ok, arith, false, true, replicate, ◌>>=◌,
}
use unworkable.Common.Int.{pos}
use unworkable.Common.Text.{codes}
use unworkable.Index.Sorted.{sorted_tree}
use unworkable.Session.{Session}
use unworkable.Download.{zero_peer}
use unworkable.Bencode.Tokens.{clean}
use unworkable.Bencode.Fields.{parser}
use unworkable.Buf.{Buf}
use unworkable.Announce.{HttpResponse, Tracker, Client, split_url}
use unworkable.Announce.Url.{url_text, split_url-url_text}
use unworkable.Announce.Response.{
  handle_announce_error, handle_announce_response, read_all, http_content, strncmp_eq,
  handle_content, finish,
}
use unworkable.Announce.Response.Answers.{handle_announce_error-answer_text}
use unworkable.Announce.Response.Ends.{IsOver, handle_announce_error-IsOver}
use unworkable.Tests.Data.{quiet}

-- http://t:81/ab/
split_url-url_text_example :
    split_url 256 1024 (url_text (codes "t") (some (codes "81")) (codes "a") (b'b') true)
    ≡ ok (codes "t", codes "81", codes "/ab")
split_url-url_text_example =
    split_url-url_text 256 1024 (codes "t") (some (codes "81")) (codes "a") (b'b') true (refl, tt)
      (omega arith) ((refl, (refl, tt)), omega arith) (refl, (refl, tt)) refl (omega arith)

abbrev begun : HttpResponse
begun = record { rxmsg = codes "HTTP/"; rxmsglen = 1024 }

abbrev tracker : Tracker
tracker = record {
  connfd = 5;
  servfd = 0;
  key = none;
  ip = none;
  numwant = none;
  port = some (codes "6668");
  trackerid = none;
  res = some begun;
  url = [];
  uploaded = pos 0;
  interval = 0;
  complete = 0;
  incomplete = 0;
  out = [];
  announce_timer = none;
  scheduler_timer = none;
}

abbrev nowhere : Buf
nowhere = record { autoext = false; bytes = []; cur = 0; len = 0; pos = 0 }

abbrev client : Client sorted_tree
client = record {
  session = record (quiet zero_peer) { announce_underway = true };
  tracker = tracker;
  parser = parser (clean nowhere 0) [];
}

abbrev unconnected : Session sorted_tree → ℕ → Option ℕ
unconnected s p = none

handle_announce_error-answer_text_example :
    handle_announce_error
      (λ port. some 6)
      unconnected
      (λ n. codes "0")
      (λ host port. none)
      (λ s. some (pos 8))
      (λ n. replicate n 0)
      false
      (codes "1.1 200 OK\r\nA: b\r\n\r\nd8:completei8ee")
      client
    ≡ (handle_content
          (λ port. some 6)
          unconnected
          (λ n. codes "0")
          (λ host port. none)
          (λ s. some (pos 8))
          (λ n. replicate n 0)
          (some (codes "d8:completei8ee"))
          client
        >>= λ c'. ok (finish c'))
handle_announce_error-answer_text_example =
    handle_announce_error-answer_text (λ port. some 6) unconnected (λ n. codes "0")
      (λ host port. none) (λ s. some (pos 8)) (λ n. replicate n 0)
      (codes "1.1 200 OK\r\nA: b\r\n\r\nd8:completei8ee") begun client true (codes " OK")
      ((b'A', codes ": b") ∷ []) (codes "d8:completei8ee") refl
      (omega arith, omega arith, omega arith) refl
      ((refl, refl), ((refl, refl), ((refl, refl), tt)))
      (((refl, refl), ((refl, refl), ((refl, refl), ((refl, refl), tt)))), tt)

handle_announce_error-IsOver_example : IsOver (finish client)
unfolding handle_announce_error read_all handle_announce_response http_content strncmp_eq
handle_announce_error-IsOver_example =
    handle_announce_error-IsOver (λ port. some 6) unconnected (λ n. codes "0") (λ host port. none)
      (λ s. some (pos 8)) (λ n. replicate n 0) false (codes "1.0 404 no\r\n") client (finish client)
      refl
