-- ===== src/Base/Postgres.antt =====
-- PostgreSQL, as far as the code relies on it and does not say itself: the text form of UUIDs and
-- the order of texts. Both are parameters.
use queue_ti.Base.{ℕ, Bool, Option}
use queue_ti.Base.Text.{Text}

-- uuid_in gives `none` for a text that is no UUID; `collate a b` says that `a` does not sort after
-- `b`.
pub record Postgres : Type 0 where
  pub uuid_in : Text → Option ℕ
  pub uuid_out : ℕ → Text
  pub collate : Text → Text → Bool
