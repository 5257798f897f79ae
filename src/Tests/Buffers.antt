-- ===== src/Tests/Buffers.antt =====
-- The theorems on the model of buf.c at concrete arguments.
use unworkable.Common.{◌≡◌, false, [], ◌∷◌, ok, arith}
use unworkable.Buf.{Buf, buf_load}
use unworkable.Buf.Contents.{read_out, read_out-buf_load}

-- A file of three bytes, read in two parts.
read_out-buf_load_example :
    (b : Buf) × (buf_load 3 ((7 ∷ 8 ∷ []) ∷ (9 ∷ []) ∷ []) false ≡ ok b)
    × (read_out 4 b ≡ ok (7 ∷ 8 ∷ 9 ∷ []))
read_out-buf_load_example =
    read_out-buf_load ((7 ∷ 8 ∷ []) ∷ (9 ∷ []) ∷ []) false (omega arith, (omega arith, tt))
      (omega arith)
