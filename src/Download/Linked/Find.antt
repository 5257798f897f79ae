-- ===== src/Download/Linked/Find.antt =====
-- network_piece_dl_find of network.c: what it finds in linked queues.
use unworkable.Common.{
  ℕ, ◌≡◌, refl, ◌∙◌, List, [], ◌∷◌, Bool, true, false, ◌&&◌, Option, none, some, arith, ◌==◌,
  if◌then◌else◌, ok, Bool-cases, inl, inr,
}
use unworkable.Index.{RbTree}
use unworkable.Session.{PieceDl, Peer, Session}
use unworkable.Session.Store.{has, >>=-ok, get_dl, get_peer}
use unworkable.Download.{find_own, find_block, piece_dl_find, first_of_block, own_queue, or_block}
use unworkable.Download.Linked.{queue, Linked}

-- A search that finds nothing, or a download of the block.
pub Found : {rb : RbTree} → Session rb → ℕ → ℕ → Option ℕ → Type 0
Found s idx off none = Unit
Found s idx off (some d) = has d (queue s idx off) ≡ true

pub Found-some :
    {rb : RbTree} (s : Session rb) (idx off d : ℕ)
    → Found s idx off (some d)
    → has d (queue s idx off) ≡ true
unfolding Found
Found-some s idx off d h = h

module _ {rb : RbTree} (s : Session rb) (idx off : ℕ) where
  pub find_own_step :
      (d : ℕ) (ds : List ℕ) {v : PieceDl} {r : Option ℕ}
      → s.dl d ≡ some v
      → find_own ds idx off s ≡ ok (r, s)
      → find_own (d ∷ ds) idx off s ≡ ok (if v.off == off && v.idx == idx then some d else r, s)
  unfolding find_own
  find_own_step d ds {v} e run = elim (Bool-cases (v.off == off && v.idx == idx)) [
    | inl here ↦ >>=-ok (get_dl d) _ s {a = v} {s' = s} (ground arith) ∙ rw here refl
    | inr other ↦ >>=-ok (get_dl d) _ s {a = v} {s' = s} (ground arith) ∙ rw other run
  ]

  Found-choice :
      (b : Bool) (d : ℕ) {v : PieceDl} (r : Option ℕ)
      → (b ≡ (v.off == off && v.idx == idx))
      → s.dl d ≡ some v
      → Linked s
      → Found s idx off r
      → Found s idx off (if b then some d else r)
  unfolding Found
  Found-choice true d {v} r h e linked found = ground (arith, linked.live d v e)
  Found-choice false d r h e linked found = found

  find_own_lem :
      (ds : List ℕ)
      → Linked s
      → ((d : ℕ) → has d ds ≡ true → (v : PieceDl) × (s.dl d ≡ some v))
      → (r : Option ℕ) × (find_own ds idx off s ≡ ok (r, s)) × Found s idx off r
  unfolding find_own Found
  find_own_lem [] linked all = (none, refl, tt)
  find_own_lem (d ∷ ds) linked all =
      let (v, e) = all d (ground arith) in
      let (r, run, found) = find_own_lem ds linked (λ a h. all a (ground arith)) in
      (
        if v.off == off && v.idx == idx then some d else r,
        find_own_step d ds e run,
        Found-choice (v.off == off && v.idx == idx) d r refl e linked found,
      )

  -- The first of the block's queue, if it has one.
  block_lem :
      (o : Option (List ℕ))
      → o ≡ rb.find s.index idx off
      → Found s idx off (first_of_block o) × (first_of_block o ≡ none → queue s idx off ≡ [])
  unfolding Found
  block_lem none h = (tt, λ n. ground arith)
  block_lem (some []) h = (tt, λ n. ground arith)
  block_lem (some (d ∷ l)) h = (ground arith, λ n. absurd (ground arith))

  abbrev Answer : Option ℕ → Option ℕ → Type 0
  Answer p r =
      (piece_dl_find p idx off s ≡ ok (r, s))
      × Found s idx off r
      × (r ≡ none → queue s idx off ≡ [])

  answer :
      (p : Option ℕ) (own : Option ℕ)
      → (piece_dl_find p idx off s ≡ or_block own idx off s)
      → Found s idx off own
      → (r : Option ℕ) × Answer p r
  unfolding find_block
  answer p none run found =
      let (f, n) = block_lem (rb.find s.index idx off) refl in
      (first_of_block (rb.find s.index idx off), (run, f, n))
  answer p (some d) run found = (some d, (run, found, λ n. absurd (ground arith)))

  find_in :
      (ds : List ℕ) (p : Option ℕ)
      → Linked s
      → own_queue p s ≡ ok (ds, s)
      → ((d : ℕ) → has d ds ≡ true → (v : PieceDl) × (s.dl d ≡ some v))
      → (r : Option ℕ) × Answer p r
  unfolding piece_dl_find
  find_in ds p linked list all =
      let (o, run, found) = find_own_lem ds linked all in
      answer p o (>>=-ok (own_queue p) _ s list ∙ >>=-ok (find_own ds idx off) _ s run) found

-- The search without a peer gives the first of the block's queue.
pub piece_dl_find-none :
    {rb : RbTree} (s : Session rb) (idx off : ℕ)
    → piece_dl_find none idx off s ≡ ok (first_of_block (rb.find s.index idx off), s)
unfolding piece_dl_find find_own find_block
piece_dl_find-none s idx off = refl

-- The queue that is searched first.
own_queue_lem :
    {rb : RbTree} (s : Session rb) (p : Option ℕ)
    → Linked s
    → ((q : ℕ) → p ≡ some q → (w : Peer) × (s.peer q ≡ some w))
    → (ds : List ℕ) × (own_queue p s ≡ ok (ds, s))
      × ((d : ℕ) → has d ds ≡ true → (v : PieceDl) × (s.dl d ≡ some v))
own_queue_lem s none linked there = ([], refl, λ d h. absurd (cc))
own_queue_lem s (some q) linked there =
    let (w, e) = there q refl in
    (
      w.piece_dls,
      >>=-ok (get_peer q) _ s {a = w} {s' = s} (ground arith),
      λ d h. let (v, at, _) = linked.owned q d (ground arith) in (v, at),
    )

-- On linked queues the search for a block, by a peer that is there or by none, is defined and changes nothing. What it finds is a download of
-- the block, which need not be the peer's, and it finds nothing only where the block has none.
pub piece_dl_find-queue :
    {rb : RbTree} (s : Session rb) (p : Option ℕ) (idx off : ℕ)
    → Linked s
    → ((q : ℕ) → p ≡ some q → (w : Peer) × (s.peer q ≡ some w))
    → (r : Option ℕ) × (piece_dl_find p idx off s ≡ ok (r, s))
      × Found s idx off r
      × (r ≡ none → queue s idx off ≡ [])
piece_dl_find-queue s p idx off linked there =
    let (ds, list, all) = own_queue_lem s p linked there in
    let (r, (run, found, empty)) = find_in s idx off ds p linked list all in (r, run, found, empty)
