-- ===== src/Process/Bitfields.antt =====
-- network_peer_process_message of network.c: the messages that say which pieces a peer has.
use unworkable.Common.{
  ℕ, List, true, not, ◌&&◌, Option, none, some, ◌==◌, if◌then◌else◌, take, drop, replicate, sub32,
}
use unworkable.Index.{RbTree}
use unworkable.Platform.{Platform}
use unworkable.Torrent.Resume.{bitfield_len}
use unworkable.Util.{setbit}
use unworkable.Session.{killed, Peer, Proc}
use unworkable.Session.Store.{◌>>=◌, ◌>>◌, pure, lift, get, get_peer, put_peer}
use unworkable.Send.{peer_write_interested}
use unworkable.Scheduler.Gimme.{piece_gimme}
use unworkable.Process.{put_state, get_rxmsg, with_index, with_bitfield}

-- The bitfield that a HAVE message changes: one without a bit where the peer has none.
abbrev pub or_zeros : Option (List ℕ) → ℕ → List ℕ
or_zeros none n = replicate n 0
or_zeros (some bitfield) n = bitfield

-- Only a peer without a bitfield changes its state.
abbrev pub known : Peer → ℕ → Peer
known v n = elim v.bitfield [ none ↦ with_bitfield v (replicate n 0) | some b ↦ v ]

module _ {rb : RbTree} (platform : Platform) where
  -- Is there something that we want of the peer?
  unfoldable pub show_interest : ℕ → Proc rb (Unit {0})
  show_interest p = do
    (pd, res) ← piece_gimme platform p true
    v ← get_peer p
    if res && not v.state.aminterested then peer_write_interested p else pure tt

  abbrev pub on_have_index : ℕ → ℕ → Proc rb (Unit {0})
  on_have_index p idx = do
    v ← get_peer p
    s ← get
    bitfield ← lift (setbit (or_zeros v.bitfield (bitfield_len s.tp)) idx)
    put_peer p (record (known v (bitfield_len s.tp)) { bitfield = some bitfield })
    show_interest p

  unfoldable pub on_have : ℕ → Proc rb (Unit {0})
  on_have p = get_rxmsg p >>= λ rxmsg. with_index rxmsg (λ idx. on_have_index p idx)

  -- A bitfield that is expected is taken on.
  abbrev pub take_bitfield : ℕ → List ℕ → Proc rb (Unit {0})
  take_bitfield p bitfield = do
    v ← get_peer p
    put_peer p (with_bitfield v bitfield)
    show_interest p

  -- BITFIELD; one of the wrong size drops the peer.
  unfoldable pub on_bitfield : ℕ → Proc rb (Unit {0})
  on_bitfield p = do
    v ← get_peer p
    s ← get
    let bitfieldlen = sub32 v.rxmsglen 1
    if not v.state.bitfield
        then pure tt
        else if not (bitfieldlen == bitfield_len s.tp)
        then put_state p killed
        else (get_rxmsg p >>= λ rxmsg. take_bitfield p (take bitfieldlen (drop 1 rxmsg)))

  -- HAVENONE and HAVEALL, with the byte that fills the bitfield.
  unfoldable pub on_have_same : ℕ → ℕ → Proc rb (Unit {0})
  on_have_same byte p = do
    v ← get_peer p
    s ← get
    if v.state.bitfield then take_bitfield p (replicate (bitfield_len s.tp) byte) else pure tt
