-- ===== src/Contracts.antt =====
-- The contracts that several utilities read. A read is a call of the node, which may be rejected.
use index.Base.{Result}
use index.Base.Int.{ℤ}
use index.Base.Text.{Text}

pub record SetToken : Type 0 where
  pub address : Text
  pub total_supply : Result ℤ
