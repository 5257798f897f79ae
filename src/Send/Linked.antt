-- ===== src/Send/Linked.antt =====
-- The procedures of network.c that write a message leave the queues of piece downloads linked.
use unworkable.Common.{ℕ, ◌++◌, refl, List, [], ◌∷◌}
use mathlib.Core.Path.{subst}
use unworkable.Index.{RbTree}
use unworkable.Torrent.{Piece}
use unworkable.Torrent.Block.{Block, direct, copied, null}
use unworkable.Torrent.Resume.{bitfield_get}
use unworkable.Session.{Proc}
use unworkable.Session.Keeps.{
  Keeps, ended, From-Reads, From-if, From->>, From-get_peer, From-get, From-lift, blocks,
  pure-Reads,
}
use unworkable.Download.Linked.{Linked}
use unworkable.Download.Linked.Keeps.{others-Linked, put_peer-Keeps, put_torrent-Keeps}
use unworkable.Send.{
  peer_write, peer_write_have, peer_request_block, peer_reject_block, peer_write_interested,
  peer_write_unchoke, peer_write_choke, peer_write_havenone, peer_write_haveall,
  peer_write_bitfield, ensure_mapped, write_bytes, write_block, peer_write_piece,
}

module _ {rb : RbTree} where
  abbrev pub KeepsLinked : {A : Type 0} → Proc rb A → Type 0
  KeepsLinked m = Keeps (λ s. Linked s) m

  pub peer_write-Linked : (p : ℕ) (msg : List ℕ) → KeepsLinked (peer_write p msg)
  unfolding peer_write
  peer_write-Linked p msg = From-get_peer (λ v. From-get (λ s.
      From->> (put_peer-Keeps _ refl) (record {
        ends = λ t i h a t' run.
            subst (λ x. Linked x) (ended run)
              (others-Linked t t.tp t.peers t.num_peers (t.sent ++ ((p, msg) ∷ [])) t.rarity_array
                t.last_rarity t.draws t.resume i);
      })))

  pub peer_write_have-Linked : (p idx : ℕ) → KeepsLinked (peer_write_have p idx)
  unfolding peer_write_have
  peer_write_have-Linked p idx = peer_write-Linked p _

  pub peer_request_block-Linked :
      (p idx off len : ℕ) → KeepsLinked (peer_request_block p idx off len)
  unfolding peer_request_block
  peer_request_block-Linked p idx off len = peer_write-Linked p _

  pub peer_reject_block-Linked : (p idx off len : ℕ) → KeepsLinked (peer_reject_block p idx off len)
  unfolding peer_reject_block
  peer_reject_block-Linked p idx off len = peer_write-Linked p _

  pub peer_write_interested-Linked : (p : ℕ) → KeepsLinked (peer_write_interested p)
  unfolding peer_write_interested
  peer_write_interested-Linked p =
      From-get_peer (λ v. From->> (put_peer-Keeps _ refl) (peer_write-Linked p _))

  pub peer_write_unchoke-Linked : (p : ℕ) → KeepsLinked (peer_write_unchoke p)
  unfolding peer_write_unchoke
  peer_write_unchoke-Linked p =
      From-get_peer (λ v. From->> (put_peer-Keeps _ refl) (peer_write-Linked p _))

  pub peer_write_choke-Linked : (p : ℕ) → KeepsLinked (peer_write_choke p)
  unfolding peer_write_choke
  peer_write_choke-Linked p =
      From-get_peer (λ v. From->> (put_peer-Keeps _ refl) (peer_write-Linked p _))

  pub peer_write_havenone-Linked : (p : ℕ) → KeepsLinked (peer_write_havenone p)
  unfolding peer_write_havenone
  peer_write_havenone-Linked p = peer_write-Linked p _

  pub peer_write_haveall-Linked : (p : ℕ) → KeepsLinked (peer_write_haveall p)
  unfolding peer_write_haveall
  peer_write_haveall-Linked p = peer_write-Linked p _

  pub peer_write_bitfield-Linked : (p : ℕ) → KeepsLinked (peer_write_bitfield p)
  unfolding peer_write_bitfield
  peer_write_bitfield-Linked p =
      From-get (λ s. From-lift (bitfield_get s.tp) (λ bitfield. peer_write-Linked p _))

  pub ensure_mapped-Linked : (idx : ℕ) (tpp : Piece) → KeepsLinked (ensure_mapped idx tpp)
  ensure_mapped-Linked idx tpp =
      From-if tpp.mapped (From-Reads pure-Reads)
        (From-get (λ s. From-lift _ (λ tp. put_torrent-Keeps)))

  write_bytes-Linked :
      (p idx offset len : ℕ) (block : List ℕ) → KeepsLinked (write_bytes p idx offset len block)
  write_bytes-Linked p idx offset len block =
      From-lift _
        (λ d. From->> (peer_write-Linked p _) (From-get_peer (λ v. put_peer-Keeps _ refl)))

  write_block-Linked :
      (p idx offset len : ℕ) (block : Block) → KeepsLinked (write_block p idx offset len block)
  write_block-Linked p idx offset len null = From-Reads pure-Reads
  write_block-Linked p idx offset len (direct block) = write_bytes-Linked p idx offset len block
  write_block-Linked p idx offset len (copied block) = write_bytes-Linked p idx offset len block

  pub peer_write_piece-Linked :
      (p idx offset len : ℕ) → KeepsLinked (peer_write_piece p idx offset len)
  unfolding peer_write_piece
  peer_write_piece-Linked p idx offset len =
      search (blocks, ensure_mapped-Linked, write_block-Linked) depth 12
