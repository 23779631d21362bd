-- ===== src/Base/Store.antt =====
-- Memory as a function from addresses, and a write to one cell.
use Prim.Native.Nat.{ℕ}
use matte_os.Base.Tests.{◌==◌, if◌then◌else◌}

module _ {ℓ} {A : Type ℓ} where
  abbrev pub update : (ℕ → A) → ℕ → A → ℕ → A
  update f p v q = if p == q then v else f q
