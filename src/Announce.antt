-- ===== src/Announce.antt =====
-- announce.c: the request to the tracker, and the tracker's answer.
pub mod Url
pub mod Response
use unworkable.Common.{
  ℕ, zero, suc, ◌+◌, ◌-◌, ◌/◌, ◌*◌, ◌%◌, Bool, true, false, not, List, [], ◌∷◌, ◌++◌, Option, none,
  some, Outcome, ok, die, fault, check, must, ◌>>=◌, ◌>>◌, ◌==◌, ltb, leb, if◌then◌else◌, length,
  drop,
}
use unworkable.Common.Int.{ℤ, pos}
use unworkable.Common.Text.{codes}
use unworkable.Index.{RbTree}
use unworkable.Session.{Session}
use unworkable.Session.Store.{has}
use unworkable.Torrent.Parse.{strstr, found}
use unworkable.PeerList.{bytes_at}
use unworkable.Bencode.Parser.{Parser}

-- `struct http_response`: `rxmsg` is what has been read, `rxread` bytes of it.
pub record HttpResponse : Type 0 where
  pub rxmsg : List ℕ
  pub rxmsglen : ℕ

-- What announce.c uses of `struct session` and `struct torrent` beside what `Session` has. `url` is the memory
-- from `announce` on, `out` what is written to the tracker, and a timer is its time, if it is set.
pub record Tracker : Type 0 where
  pub connfd : ℕ
  pub servfd : ℕ
  pub key : Option (List ℕ)
  pub ip : Option (List ℕ)
  pub numwant : Option (List ℕ)
  pub port : Option (List ℕ)
  pub trackerid : Option (List ℕ)
  pub res : Option HttpResponse
  pub url : List ℕ
  pub uploaded : ℤ
  pub interval : ℕ
  pub complete : ℕ
  pub incomplete : ℕ
  pub out : List ℕ
  pub announce_timer : Option ℕ
  pub scheduler_timer : Option ℕ

-- With the parser of bencode, whose stack is static.
pub record Client (rb : RbTree) : Type 0 where
  pub session : Session rb
  pub tracker : Tracker
  pub parser : Parser

abbrev hex_digit : ℕ → ℕ
hex_digit d = if ltb d 10 then b'0' + d else 87 + d

-- The format "%%%02x" for a byte.
abbrev percent : ℕ → List ℕ
percent b = b'%' ∷ hex_digit (b / 16) ∷ hex_digit (b % 16) ∷ []

abbrev pub hash_text : List ℕ → List ℕ
hash_text [] = []
hash_text (b ∷ bs) = percent b ++ hash_text bs

-- A `char` with its high bit set is printed with eight digits, and a NUL behind them; the next one is printed
-- over all but the first two.
abbrev pub id_text : ℕ → List ℕ → Outcome (List ℕ)
id_text i [] = ok []
id_text i (b ∷ bs) = do
  rest ← id_text (i + 1) bs
  if ltb b 128
      then ok (percent b ++ rest)
      else if ltb 61 (3 * i + 10)
      then fault
      else ok (percent 255 ++ rest)

-- `strcspn(s, reject)`, as what stands ahead of the place and what begins there.
unfoldable pub strcspn : List ℕ → List ℕ → Outcome (List ℕ × List ℕ)
strcspn reject [] = fault
strcspn reject (c ∷ s) =
    if has c (0 ∷ reject)
    then ok ([], c ∷ s)
    else do (ahead, rest) ← strcspn reject s; ok (c ∷ ahead, rest)

-- A port of six characters is let through, and its NUL is written behind the array.
abbrev pub port_of : List ℕ → Outcome (List ℕ × List ℕ)
port_of [] = fault
port_of (c ∷ s) =
    if c == b':'
    then (do
      (port, rest) ← strcspn (b'/' ∷ []) s
      if ltb 6 (length port) then die else if length port == 6 then fault else ok (port, rest))
    else ok (codes "80", c ∷ s)

-- The slash at the end is looked for at `path[strlen(path) - 1]`, which is outside for an empty path.
unfoldable pub strip_slash : List ℕ → Outcome (List ℕ)
strip_slash [] = fault
strip_slash (c ∷ []) = ok (if c == b'/' then [] else c ∷ [])
strip_slash (c ∷ d ∷ s) = do rest ← strip_slash (d ∷ s); ok (c ∷ rest)

-- The host, the port and the path; `max_host` and `max_path` are MAXHOSTNAMELEN and MAXPATHLEN.
unfoldable pub split_url : ℕ → ℕ → List ℕ → Outcome (List ℕ × List ℕ × List ℕ)
split_url max_host max_path url = do
  at ← strstr url (codes "http://")
  c ← found at
  (host, rest) ← strcspn (b':' ∷ b'/' ∷ []) (drop 7 c)
  check (ltb (length host) max_host)
  (port, rest') ← port_of rest
  (path, nul) ← strcspn [] rest'
  check (ltb (length path) max_path)
  stripped ← strip_slash path
  ok (host, port, stripped)

-- `snprintf` into GETSTRINGLEN bytes, or `none` for a jump to `trunc`.
abbrev pub Text : Type 0
Text = Outcome (Option (List ℕ))

abbrev pub snprintf : List ℕ → Text
snprintf text = if leb 2048 (length text) then ok none else ok (some text)

abbrev pub unless_cut : Text → (List ℕ → Text) → Text
unless_cut (ok (some text)) f = f text
unless_cut (ok none) f = ok none
unless_cut die f = die
unless_cut fault f = fault

-- A parameter that is there, printed behind a copy of those before it.
abbrev pub with_param : List ℕ → Option (List ℕ) → List ℕ → Text
with_param key none params = ok (some params)
with_param key (some value) params = snprintf (params ++ (key ++ value))

-- The same where the text is printed over itself, which C leaves undefined.
abbrev pub in_place : Option (List ℕ) → List ℕ → Text
in_place none params = ok (some params)
in_place (some value) params = fault

module _ (decimal : ℤ → List ℕ) where
  abbrev pub first_params : Tracker → List ℕ → List ℕ → List ℕ → ℕ → ℕ → List ℕ
  first_params t hash id port downloaded left =
      codes "?info_hash="
      ++ (hash
          ++ (codes "&peer_id="
              ++ (id
                  ++ (codes "&port="
                      ++ (port
                          ++ (codes "&uploaded="
                              ++ (decimal t.uploaded
                                  ++ (codes "&downloaded="
                                      ++ (decimal (pos downloaded)
                                          ++ (codes "&left="
                                              ++ (decimal (pos left)
                                                  ++ codes "&compact=1")))))))))))

  abbrev pub params_text : Tracker → Option (List ℕ) → List ℕ → Text
  params_text t event first = unless_cut (snprintf first) λ params.
      unless_cut (with_param (codes "&event=") event params) λ params₁.
        unless_cut (with_param (codes "&ip=") t.ip params₁) λ params₂.
          unless_cut (in_place t.numwant params₂)
            λ params₃. unless_cut (in_place t.key params₃) λ params₄. in_place t.trackerid params₄

  abbrev pub request_text : List ℕ → List ℕ → List ℕ → List ℕ
  request_text host path params =
      codes "GET "
      ++ (path
          ++ (params
              ++ (codes " HTTP/1.0\r\nHost: "
                  ++ (host ++ codes "\r\nUser-agent: Unworkable/0.5\r\n\r\n"))))

module _ {rb : RbTree} (connect_tracker : List ℕ → List ℕ → Option ℕ) where
  abbrev pub requested : List ℕ → Option ℕ → Client rb → Outcome (Bool × Client rb)
  requested request none c = die
  requested request (some fd) c = ok (
    true,
    record c {
      session = record (c.session) { announce_underway = true };
      tracker = record (c.tracker) {
        connfd = fd;
        res = some (record { rxmsg = []; rxmsglen = 1024 });
        out = c.tracker.out ++ (request ++ 0 ∷ []);
      };
    },
  )

  abbrev pub send_request :
      List ℕ → List ℕ → Option (List ℕ) → Client rb → Outcome (Bool × Client rb)
  send_request host port none c = ok (false, c)
  send_request host port (some request) c = requested request (connect_tracker host port) c

  -- The result is `true` for a return of 0, `false` for -1.
  unfoldable pub announce :
      (ℤ → List ℕ) → ℕ → ℕ → Option (List ℕ) → Client rb → Outcome (Bool × Client rb)
  announce decimal max_host max_path event c = do
    let s = c.session
    let t = c.tracker
    hash ← bytes_at 20 0 s.tp.info_hash
    peerid ← bytes_at 20 0 s.peerid
    id ← id_text 0 peerid
    (host, port, path) ← split_url max_host max_path t.url
    own_port ← must t.port
    let first = first_params decimal t (hash_text hash) id own_port s.tp.downloaded s.tp.left
    request ←
        unless_cut (params_text decimal t event first)
          λ params. snprintf (request_text decimal host path params)
    send_request host port request (record c { session = record s { last_announce = s.now } })

  -- announce_update, the timer of the announcements.
  unfoldable pub announce_update : (ℤ → List ℕ) → ℕ → ℕ → Client rb → Outcome (Client rb)
  announce_update decimal max_host max_path c = do
    c' ←
        if c.session.announce_underway
        then ok c
        else (do (sent, c₁) ← announce decimal max_host max_path none c; ok c₁)
    ok (record c' { tracker = record (c'.tracker) { announce_timer = some c'.tracker.interval } })
