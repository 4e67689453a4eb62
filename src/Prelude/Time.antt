-- ===== src/Prelude/Time.antt =====
-- Python's datetimes and timedeltas. An instant is a number of microseconds since 0001-01-01 UTC,
-- and a length of time a number of microseconds. A datetime is kept by the attributes that the
-- code reads.
use Prim.Native.Nat.{ℕ, ◌*◌}

abbrev pub second : ℕ
second = 1000000

-- 1970-01-01 UTC
abbrev pub unix_epoch : ℕ
unix_epoch = 62135596800000000

abbrev pub minutes : ℕ → ℕ
minutes n = n * 60000000

abbrev pub days : ℕ → ℕ
days n = n * 86400000000

pub record DateTime : Type 0 where
  pub instant : ℕ
  pub year : ℕ
  pub month : ℕ
