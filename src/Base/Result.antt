-- ===== src/Base/Result.antt =====
-- A promise that has settled: its value, or the message of the error that it was rejected with.
use cocodb.Base.Text.{Text}

pub data Result {ℓ} (A : Type ℓ) : Type ℓ where
  ok : A → Result A
  err : Text → Result A
