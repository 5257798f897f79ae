-- ===== src/Wire/Roundtrip.antt =====
-- The messages that network.c writes, read back as it reads those of a peer.
use unworkable.Common.{
  ℕ, ◌+◌, ◌^◌, ◌<◌, ◌≡◌, refl, ap, ◌∙◌, List, [], ◌∷◌, ok, some, arith, length, get_elem?, drop,
  take, word-bytes, u32, sub32, length-append,
}
use unworkable.Wire.MsgId
use unworkable.Common.Slices.{take_all, take-append_self, drop-append_self}
use unworkable.Wire.{
  protocol, piece_message, request_message, cancel_message, reject_message, handshake_message,
  read_u32,
}

-- A message after its length field.
abbrev pub body : List ℕ → List ℕ
body msg = drop 4 msg

-- The length field is the length of what follows it.
abbrev pub Framed : List ℕ → Type 0
Framed msg = read_u32 msg 0 ≡ ok (length (body msg))

-- A message with an index, an offset and a length is framed, and is read back field by field.
abbrev pub Carries : List ℕ → ℕ → ℕ → ℕ → ℕ → Type 0
Carries msg id idx off len =
    Framed msg
    × (get_elem? (body msg) 0 ≡ some id)
    × (read_u32 (body msg) 1 ≡ ok idx)
    × (read_u32 (body msg) 5 ≡ ok off)
    × (read_u32 (body msg) 9 ≡ ok len)

module _ (idx off len : ℕ) (hi : idx < 2 ^ 32) (ho : off < 2 ^ 32) (hl : len < 2 ^ 32) where
  pub request_message-Carries : Carries (request_message idx off len) MsgId.request idx off len
  unfolding request_message read_u32
  request_message-Carries = (
    refl,
    refl,
    ap (λ n. ok n) (word-bytes idx hi),
    ap (λ n. ok n) (word-bytes off ho),
    ap (λ n. ok n) (word-bytes len hl),
  )

  pub cancel_message-Carries : Carries (cancel_message idx off len) MsgId.cancel idx off len
  unfolding cancel_message read_u32
  cancel_message-Carries = (
    refl,
    refl,
    ap (λ n. ok n) (word-bytes idx hi),
    ap (λ n. ok n) (word-bytes off ho),
    ap (λ n. ok n) (word-bytes len hl),
  )

  pub reject_message-Carries : Carries (reject_message idx off len) MsgId.reject idx off len
  unfolding reject_message read_u32
  reject_message-Carries = (
    refl,
    refl,
    ap (λ n. ok n) (word-bytes idx hi),
    ap (λ n. ok n) (word-bytes off ho),
    ap (λ n. ok n) (word-bytes len hl),
  )

  -- For fields of 32 bits, a REQUEST, a CANCEL and a REJECT that we write are framed, and a peer that reads them as we do finds
  -- the identifier, the index, the offset and the length.
  pub block_messages-Carries :
      Carries (request_message idx off len) MsgId.request idx off len
      × Carries (cancel_message idx off len) MsgId.cancel idx off len
      × Carries (reject_message idx off len) MsgId.reject idx off len
  block_messages-Carries = (request_message-Carries, cancel_message-Carries, reject_message-Carries)

-- For an index and an offset of 32 bits and a block that leaves room for the header, a PIECE is framed with the length of its block, and is read back as index, offset and block.
pub piece_message_lem :
    (idx off : ℕ) (block : List ℕ)
    → idx < 2 ^ 32
    → off < 2 ^ 32
    → length block + 13 < 2 ^ 32
    → let msg = piece_message idx off (length block) block in
      Framed msg
      × (get_elem? (body msg) 0 ≡ some MsgId.piece)
      × (read_u32 (body msg) 1 ≡ ok idx)
      × (read_u32 (body msg) 5 ≡ ok off)
      × (drop 9 (body msg) ≡ block)
unfolding piece_message read_u32
piece_message_lem idx off block hi ho hb =
    let size : sub32 (u32 (4 + 1 + 4 + 4 + length block)) 4 ≡ 9 + length block = omega arith in
    (
      ap (λ k. ok k) (word-bytes _ (omega arith) ∙ size ∙ omega arith),
      refl,
      ap (λ k. ok k) (word-bytes idx hi),
      ap (λ k. ok k) (word-bytes off ho),
      refl,
    )

-- For a hash and an identifier of 20 bytes, a handshake is as long as the protocol says, and has the bit of the fast extension in its last reserved
-- byte, then the hash and the identifier.
pub handshake_message_lem :
    (info_hash peerid : List ℕ)
    → length info_hash ≡ 20
    → length peerid ≡ 20
    → let msg = handshake_message info_hash peerid in
      (length msg ≡ 68)
      × (take 20 msg ≡ 19 ∷ protocol)
      × (take 8 (drop 20 msg) ≡ 0 ∷ 0 ∷ 0 ∷ 0 ∷ 0 ∷ 0 ∷ 0 ∷ 0x04 ∷ [])
      × (take 20 (drop 28 msg) ≡ info_hash)
      × (drop 48 msg ≡ peerid)
unfolding handshake_message
handshake_message_lem info_hash peerid h k =
    rw (take_all 20 info_hash (omega arith), take_all 20 peerid (omega arith))
      (
        omega (arith, length-append info_hash peerid),
        refl,
        refl,
        take-append_self 20 info_hash peerid h,
        drop-append_self 20 info_hash peerid h,
      )
