-- ===== src/Platform.antt =====
-- What the scheduler and the processing of messages call of the C library and of libcrypto: SHA-1, the
-- random numbers, `qsort`, and the size of a page.
use unworkable.Common.{ℕ, List}
use unworkable.Index.{Sign}

-- `random` is what the calls of `random` return, one after the other, and `qsort` sorts an array by a
-- comparison that returns an `int`. No theorem relies on more of them than that they are functions.
pub record Platform : Type 1 where
  pub sha1 : List ℕ → List ℕ
  pub random : ℕ → ℕ
  pub page_size : ℕ
  pub qsort : {A : Type 0} → (A → A → Sign) → List A → List A
