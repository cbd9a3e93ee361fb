-- ===== src/Poll.antt =====
-- `core::task::Poll`, as the futures and streams of the crate answer it.
pub data Poll {ℓ} (A : Type ℓ) : Type ℓ where
  pending : Poll A
  ready : A → Poll A
