-- ===== src/Announce/Url.antt =====
-- The parts of an announce URL.
use unworkable.Common.{
  ℕ, ◌+◌, ◌≤◌, ◌<◌, ◌≡◌, refl, ap, sym, ◌∙◌, Bool, true, false, List, [], ◌∷◌, ◌++◌, some, none,
  Option, ok, ◌==◌, ltb, length, All, arith, length-append, lt→ltb,
}
use mathlib.Core.List.{append_assoc}
use unworkable.Common.Text.{codes}
use unworkable.Session.Store.{has}
use unworkable.Torrent.Parse.{strstr}
use unworkable.Announce.{strcspn, port_of, strip_slash, split_url}

-- Neither a NUL nor one of some characters.
abbrev pub NoneOf : List ℕ → List ℕ → Type 0
NoneOf reject s = All (λ c. has c (0 ∷ reject) ≡ false) s

strcspn_lem :
    (reject ahead : List ℕ) (c : ℕ) (rest : List ℕ)
    → NoneOf reject ahead
    → has c (0 ∷ reject) ≡ true
    → strcspn reject (ahead ++ c ∷ rest) ≡ ok (ahead, c ∷ rest)
unfolding strcspn
strcspn_lem reject [] c rest h e = rw e refl
strcspn_lem reject (x ∷ ahead) c rest h e = rw (h.0, strcspn_lem reject ahead c rest h.1 e) refl

-- A path that ends with a character that is no slash, and the slash that may follow.
abbrev pub closed : Bool → List ℕ
closed true = b'/' ∷ []
closed false = []

strip_slash_lem :
    (closing : Bool) (s : List ℕ) (c : ℕ)
    → (c == b'/') ≡ false
    → strip_slash (s ++ c ∷ closed closing) ≡ ok (s ++ c ∷ [])
unfolding strip_slash
strip_slash_lem true [] c e = refl
strip_slash_lem false [] c e = rw e refl
strip_slash_lem closing (x ∷ []) c e = rw (strip_slash_lem closing [] c e) refl
strip_slash_lem closing (x ∷ y ∷ s) c e = rw (strip_slash_lem closing (y ∷ s) c e) refl

NoneOf-closed :
    (closing : Bool) (s : List ℕ) (c : ℕ)
    → NoneOf [] (s ++ c ∷ [])
    → NoneOf [] (s ++ c ∷ closed closing)
NoneOf-closed true [] c h = (h.0, (refl, tt))
NoneOf-closed false [] c h = h
NoneOf-closed closing (x ∷ s) c h = (h.0, NoneOf-closed closing s c h.1)

length-closed : (closing : Bool) → length (closed closing) ≤ 1
length-closed true = omega arith
length-closed false = omega arith

-- A port with its colon, or none.
abbrev pub port_text : Option (List ℕ) → List ℕ
port_text none = []
port_text (some port) = b':' ∷ port

abbrev pub port_meant : Option (List ℕ) → List ℕ
port_meant none = codes "80"
port_meant (some port) = port

abbrev pub IsPort : Option (List ℕ) → Type 0
IsPort none = Unit
IsPort (some port) = NoneOf (b'/' ∷ []) port × (length port < 6)

host_lem :
    (host : List ℕ) (port : Option (List ℕ)) (tail : List ℕ)
    → NoneOf (b':' ∷ b'/' ∷ []) host
    → strcspn (b':' ∷ b'/' ∷ []) (host ++ (port_text port ++ b'/' ∷ tail))
      ≡ ok (host, port_text port ++ b'/' ∷ tail)
host_lem host none tail h = strcspn_lem (b':' ∷ b'/' ∷ []) host (b'/') tail h refl
host_lem host (some port) tail h =
    strcspn_lem (b':' ∷ b'/' ∷ []) host (b':') (port ++ b'/' ∷ tail) h refl

port_lem :
    (port : Option (List ℕ)) (tail : List ℕ)
    → IsPort port
    → port_of (port_text port ++ b'/' ∷ tail) ≡ ok (port_meant port, b'/' ∷ tail)
port_lem none tail h = refl
port_lem (some port) tail h =
    let over : ltb 6 (length port) ≡ false = ground (arith, h.1) in
    let full : (length port == 6) ≡ false = ground (arith, h.1) in
    rw (strcspn_lem (b'/' ∷ []) port (b'/') tail h.0 refl, over, full) refl

path_lem :
    (closing : Bool) (dirs : List ℕ) (c : ℕ)
    → NoneOf [] (dirs ++ c ∷ [])
    → strcspn [] (b'/' ∷ (dirs ++ c ∷ (closed closing ++ 0 ∷ [])))
      ≡ ok (b'/' ∷ (dirs ++ c ∷ closed closing), 0 ∷ [])
path_lem closing dirs c h =
    ap (λ s. strcspn [] (b'/' ∷ s)) (sym (append_assoc dirs (c ∷ closed closing) (0 ∷ [])))
    ∙ strcspn_lem [] (b'/' ∷ (dirs ++ c ∷ closed closing)) 0 []
        (refl, NoneOf-closed closing dirs c h) refl

-- A URL in memory, with its NUL.
abbrev pub url_text : List ℕ → Option (List ℕ) → List ℕ → ℕ → Bool → List ℕ
url_text host port dirs c closing =
    codes "http://" ++ (host ++ (port_text port ++ b'/' ∷ (dirs ++ c ∷ (closed closing ++ 0 ∷ []))))

-- A URL of a host, of a port of five characters at most or none, and of a path that does not end with a slash, with one
-- slash behind it or none, is taken apart into the host, the port, which is 80 where there is none, and the path
-- without the slash behind it, if the host and the path fit into their arrays and no NUL or separator stands in a part
-- that it would end.
pub split_url-url_text :
    (max_host max_path : ℕ) (host : List ℕ) (port : Option (List ℕ)) (dirs : List ℕ) (c : ℕ)
    (closing : Bool)
    → NoneOf (b':' ∷ b'/' ∷ []) host
    → length host < max_host
    → IsPort port
    → NoneOf [] (dirs ++ c ∷ [])
    → (c == b'/') ≡ false
    → length dirs + 3 < max_path
    → split_url max_host max_path (url_text host port dirs c closing)
      ≡ ok (host, port_meant port, b'/' ∷ (dirs ++ c ∷ []))
unfolding split_url strstr
split_url-url_text max_host max_path host port dirs c closing of_host host_fits is_port of_path e
      fits =
    let tail = dirs ++ c ∷ (closed closing ++ 0 ∷ []) in
    let room : ltb (length (b'/' ∷ (dirs ++ c ∷ closed closing))) max_path ≡ true =
      lt→ltb (length (b'/' ∷ (dirs ++ c ∷ closed closing))) max_path
        (omega (arith, length-append dirs (c ∷ closed closing), length-closed closing)) in
    rw (host_lem host port tail of_host) (
      rw (lt→ltb (length host) max_host host_fits, port_lem port tail is_port)
        (rw (path_lem closing dirs c of_path)
          (rw (room, strip_slash_lem closing (b'/' ∷ dirs) c e) refl)))
