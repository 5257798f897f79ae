-- ===== src/Wire/MsgId.antt =====
-- The identifiers of messages, PEER_MSG_ID_… of includes.h, with those of the fast extension.
use unworkable.Common.{ℕ}

abbrev pub choke : ℕ
choke = 0

abbrev pub unchoke : ℕ
unchoke = 1

abbrev pub interested : ℕ
interested = 2

abbrev pub notinterested : ℕ
notinterested = 3

abbrev pub have : ℕ
have = 4

abbrev pub bitfield : ℕ
bitfield = 5

abbrev pub request : ℕ
request = 6

abbrev pub piece : ℕ
piece = 7

abbrev pub cancel : ℕ
cancel = 8

abbrev pub suggest : ℕ
suggest = 0x0D

abbrev pub haveall : ℕ
haveall = 0x0E

abbrev pub havenone : ℕ
havenone = 0x0F

abbrev pub reject : ℕ
reject = 0x10

abbrev pub allowedfast : ℕ
allowedfast = 0x11
