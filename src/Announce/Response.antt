-- ===== src/Announce/Response.antt =====
-- The handlers of the connection to the tracker: what it sends is gathered until it closes the connection, and
-- is then read as HTTP and as bencode.

pub mod Reading
pub mod Head
pub mod Answers
pub mod Ends
use unworkable.Common.{
  ℕ, zero, suc, ◌+◌, Bool, true, false, List, [], ◌∷◌, ◌++◌, Option, none, some, Outcome, ok, die,
  fault, ◌>>=◌, ◌==◌, ltb, leb, if◌then◌else◌, length, drop, take, u32,
}
use unworkable.Common.Int.{ℤ, to_word}
use unworkable.Common.Text.{codes}
use unworkable.Index.{RbTree}
use unworkable.Session.{Session}
use unworkable.Buf.{buf_alloc, buf_set}
use unworkable.Bencode.{Node, node_find, root_create}
use unworkable.Bencode.Parser.{benc_parse_buf}
use unworkable.Torrent.Parse.{strstr, as_int, parsed_root}
use unworkable.PeerList.{peerlist_update}
use unworkable.Announce.{HttpResponse, Tracker, Client}

-- The buffer, with room for 256 bytes more.
abbrev pub room_of : HttpResponse → ℕ
room_of r =
    if leb r.rxmsglen (u32 (length r.rxmsg + 256)) then u32 (r.rxmsglen + 1024) else r.rxmsglen

-- What there is to be read, 256 bytes of it at most, goes behind what has been read.
unfoldable pub handle_announce_response : List ℕ → HttpResponse → Outcome (HttpResponse × List ℕ)
handle_announce_response input r =
    if ltb (room_of r) (length r.rxmsg + length (take 256 input))
    then fault
    else ok (record { rxmsg = r.rxmsg ++ take 256 input; rxmsglen = room_of r }, drop 256 input)

-- The loop that reads what is left. A round that reads nothing is the last one.
abbrev pub again :
    ℕ
    → Outcome (HttpResponse × List ℕ)
    → (List ℕ → HttpResponse → Outcome HttpResponse)
    → Outcome HttpResponse
again l (ok (r, rest)) loop = if length r.rxmsg == l then ok r else loop rest r
again l die loop = die
again l fault loop = fault

unfoldable pub read_all : ℕ → List ℕ → HttpResponse → Outcome HttpResponse
read_all zero input r = fault
read_all (suc fuel) input r =
    again (length r.rxmsg) (handle_announce_response input r) (read_all fuel)

-- `strncmp(s, text, strlen(text)) == 0`; what has not been read of the answer is not looked at.
unfoldable pub strncmp_eq : List ℕ → List ℕ → Outcome Bool
strncmp_eq [] s = ok true
strncmp_eq (c ∷ text) [] = fault
strncmp_eq (c ∷ text) (d ∷ s) = if c == d then strncmp_eq text s else ok false

-- What stands behind the head of an answer, or `none` for a jump to `err`.
abbrev pub content_of : Option (List ℕ) → Option (List ℕ)
content_of none = none
content_of (some at) = some (drop 4 at)

unfoldable pub http_content : List ℕ → Outcome (Option (List ℕ))
http_content rxmsg = do
  is_1_0 ← strncmp_eq (codes "HTTP/1.0") rxmsg
  is_1_1 ← if is_1_0 then ok true else strncmp_eq (codes "HTTP/1.1") rxmsg
  if is_1_1
      then (do
        is_ok ← strncmp_eq (codes "200") (drop 9 rxmsg)
        if is_ok
            then (strstr (drop 9 rxmsg) (codes "\r\n\r\n") >>= λ at. ok (content_of at))
            else ok none)
      else ok none

-- The intervals and the counts, which are `u_int32_t`; one that is not there keeps a value.
abbrev pub number_or : ℕ → Option Node → Outcome ℕ
number_or other none = ok other
number_or other (some n) = as_int n >>= λ number. ok (to_word 32 number)

unfoldable pub tracker_fields : Node → Tracker → Outcome Tracker
tracker_fields troot t = do
  interval ← number_or 1800 (node_find troot (codes "interval"))
  complete ← number_or t.complete (node_find troot (codes "complete"))
  incomplete ← number_or t.incomplete (node_find troot (codes "incomplete"))
  ok (record t { interval = interval; complete = complete; incomplete = incomplete })

module _ {rb : RbTree} where
  abbrev pub not_underway : Client rb → Client rb
  not_underway c = record c { session = record (c.session) { announce_underway = false } }

  -- From `err` on.
  abbrev pub finish : Client rb → Client rb
  finish c = not_underway (record c { tracker = record (c.tracker) { res = none } })

module _ (listen : List ℕ → Option ℕ) where
  -- network_listen, and an err where it fails.
  abbrev pub served : Option (List ℕ) → Tracker → Outcome Tracker
  served none t = ok t
  served (some port) t = elim (listen port) [ none ↦ die | some fd ↦ ok (record t { servfd = fd }) ]

  -- The timer, and for the first answer the server's socket and the scheduler.
  abbrev pub start_timers : Tracker → Outcome Tracker
  start_timers t =
      let t₁ = record t { announce_timer = some t.interval } in
      if t.servfd == 0
      then (do t₂ ← served t.port t₁; ok (record t₂ { scheduler_timer = some 1 }))
      else ok t₁

  module _ {rb : RbTree} (connect : Session rb → ℕ → Option ℕ) (decimal : ℤ → List ℕ)
      (getaddrinfo : List ℕ → List ℕ → Option (List ℕ × List ℕ)) where
    abbrev pub with_peers : Option Node → Client rb → Outcome (Client rb)
    with_peers none c = ok c
    with_peers (some peers) c = do
      (done, s) ← peerlist_update connect decimal getaddrinfo peers c.session
      t ← start_timers c.tracker
      ok (record c { session = s; tracker = t })

    unfoldable pub handle_tree : Node → Client rb → Outcome (Client rb)
    handle_tree troot c = elim (node_find troot (codes "failure reason")) [
      | some reason ↦ ok c
      | none ↦ do
        t ← tracker_fields troot c.tracker
        with_peers (node_find troot (codes "peers")) (record c { tracker = t })
    ]

    module _ (strtonum : List ℕ → Option ℤ) (fresh : ℕ → List ℕ) where
      abbrev pub handle_content : Option (List ℕ) → Client rb → Outcome (Client rb)
      handle_content none c = ok c
      handle_content (some content) c = do
        (n, buf) ← buf_set fresh (buf_alloc 128 true) content 0
        (troot, parser) ← parsed_root (benc_parse_buf strtonum buf root_create c.parser)
        handle_tree troot (record c { parser = parser })

      abbrev pub handle_answer : Bool → HttpResponse → Client rb → Outcome (Client rb)
      handle_answer is_timeout r c =
          if length r.rxmsg == 0
          then ok (not_underway (record c { tracker = record (c.tracker) { res = some r } }))
          else if is_timeout
          then die
          else (do content ← http_content r.rxmsg; c' ← handle_content content c; ok (finish c'))

      abbrev pub gathered : Bool → List ℕ → Option HttpResponse → Client rb → Outcome (Client rb)
      gathered is_timeout input none c = ok (not_underway c)
      gathered is_timeout input (some r) c = do
        r' ← read_all (length input + 1) input r
        handle_answer is_timeout r' c

      -- Of the events only TIMEOUT is told from the others.
      unfoldable pub handle_announce_error : Bool → List ℕ → Client rb → Outcome (Client rb)
      handle_announce_error is_timeout input c = gathered is_timeout input c.tracker.res c
