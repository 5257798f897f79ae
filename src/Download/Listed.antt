-- ===== src/Download/Listed.antt =====
-- Freeing a peer or a download leaves the session's list of peers, and their number, alone.
use unworkable.Common.{ℕ, ◌≡◌, List, [], ◌∷◌, Option, none, some, not, ◌==◌, must}
use mathlib.Core.Path.{subst}
use unworkable.Index.{RbTree}
use unworkable.Session.{PieceDl, Peer, Session}
use unworkable.Session.Store.{unlink, put_dl, put_peer, put_index}
use unworkable.Session.Keeps.{
  Keeps, ended, From-Reads, From-read, From-get, From-lift, From->>, From->>=, From-if, pure-Reads,
  get_dl-Reads, get_peer-Reads,
}
use unworkable.Download.{
  free_dl, unlink_dl, unlink_block, unlink_owner, drop_empty, piece_dl_free, orphan_or_free,
  orphan_or_free_all, peer_free,
}

-- The list of the peers and their number.
abbrev pub HasPeers : {rb : RbTree} → List ℕ → ℕ → Session rb → Type 0
HasPeers ps n s = (s.peers ≡ ps) × (s.num_peers ≡ n)

module _ {rb : RbTree} (ps : List ℕ) (n : ℕ) where
  put_dl-HasPeers : (d : ℕ) (v : PieceDl) → Keeps {rb = rb} (HasPeers ps n) (put_dl d v)
  put_dl-HasPeers d v = record { ends = λ s i h a s' run. subst (HasPeers ps n) (ended run) i }

  put_peer-HasPeers : (p : ℕ) (v : Peer) → Keeps {rb = rb} (HasPeers ps n) (put_peer p v)
  put_peer-HasPeers p v = record { ends = λ s i h a s' run. subst (HasPeers ps n) (ended run) i }

  put_index-HasPeers : (t : rb.Tree) → Keeps {rb = rb} (HasPeers ps n) (put_index t)
  put_index-HasPeers t = record { ends = λ s i h a s' run. subst (HasPeers ps n) (ended run) i }

  free_dl-HasPeers : (d : ℕ) → Keeps {rb = rb} (HasPeers ps n) (free_dl d)
  free_dl-HasPeers d = record { ends = λ s i h a s' run. subst (HasPeers ps n) (ended run) i }

  unlink_dl-HasPeers : (p d : ℕ) → Keeps {rb = rb} (HasPeers ps n) (unlink_dl p d)
  unlink_dl-HasPeers p d = From-read get_peer-Reads (λ v.
      From-lift (must (unlink d v.piece_dls))
        (λ ds. put_peer-HasPeers p (record v { piece_dls = ds })))

  unlink_block-HasPeers :
      (v : PieceDl) (d : ℕ) (o : Option (List ℕ))
      → Keeps {rb = rb} (HasPeers ps n) (unlink_block v d o)
  unlink_block-HasPeers v d none = From-Reads pure-Reads
  unlink_block-HasPeers v d (some l) = From-lift (must (unlink d l)) (λ l'.
      From-get (λ s.
        From->> (put_index-HasPeers (rb.store s.index v.idx v.off l')) (From-Reads pure-Reads)))

  unlink_owner-HasPeers :
      (o : Option ℕ) (d : ℕ) → Keeps {rb = rb} (HasPeers ps n) (unlink_owner o d)
  unlink_owner-HasPeers none d = From-Reads pure-Reads
  unlink_owner-HasPeers (some p) d = unlink_dl-HasPeers p d

  drop_empty-HasPeers :
      (v : PieceDl) (o : Option (List ℕ)) → Keeps {rb = rb} (HasPeers ps n) (drop_empty v o)
  drop_empty-HasPeers v none = From-Reads pure-Reads
  drop_empty-HasPeers v (some (d ∷ l)) = From-Reads pure-Reads
  drop_empty-HasPeers v (some []) =
      From-get (λ s. put_index-HasPeers (rb.remove s.index v.idx v.off))

  piece_dl_free-HasPeers : (d : ℕ) → Keeps {rb = rb} (HasPeers ps n) (piece_dl_free d)
  unfolding piece_dl_free
  piece_dl_free-HasPeers d = From-read get_dl-Reads (λ v. From-get (λ s.
      From->>= (unlink_block-HasPeers v d (rb.find s.index v.idx v.off)) (λ res.
        From->> (unlink_owner-HasPeers v.pc d)
          (From->> (drop_empty-HasPeers v res) (free_dl-HasPeers d)))))

  orphan_or_free-HasPeers : (p d : ℕ) → Keeps {rb = rb} (HasPeers ps n) (orphan_or_free p d)
  unfolding orphan_or_free
  orphan_or_free-HasPeers p d = From-read get_dl-Reads (λ v.
      From->> (put_dl-HasPeers d (record v { pc = none })) (
        From->> (unlink_dl-HasPeers p d)
          (From-if (not (v.len == v.bytes)) (piece_dl_free-HasPeers d) (From-Reads pure-Reads))))

  orphan_or_free_all-HasPeers :
      (p : ℕ) (ds : List ℕ) → Keeps {rb = rb} (HasPeers ps n) (orphan_or_free_all p ds)
  unfolding orphan_or_free_all
  orphan_or_free_all-HasPeers p [] = From-Reads pure-Reads
  orphan_or_free_all-HasPeers p (d ∷ ds) =
      From->> (orphan_or_free-HasPeers p d) (orphan_or_free_all-HasPeers p ds)

  pub peer_free-HasPeers : (p : ℕ) → Keeps {rb = rb} (HasPeers ps n) (peer_free p)
  unfolding peer_free
  peer_free-HasPeers p = From-read get_peer-Reads (λ v.
      From->> (orphan_or_free_all-HasPeers p v.piece_dls)
        (record { ends = λ s i h a s' run. subst (HasPeers ps n) (ended run) i }))
