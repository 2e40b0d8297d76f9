-- ===== src/Base/Powers.antt =====
-- Powers of two.
use native.Mathlib.Nat.{one-le-pow, pow-suc}
use Prim.Native.Nat.{ℕ, suc, ◌*◌, ◌^◌, ◌≤◌}
use mathlib.Core.Path.{◌≡◌, ap}
use native.Mathlib.Omega.{arith}

pub le-mul-pow : (d k : ℕ) → d ≤ d * 2 ^ k
le-mul-pow d k = let p : 1 ≤ 2 ^ k = one-le-pow k 2 (omega arith) in grind arith

pub mul-pow-suc : (d k : ℕ) → d * 2 ^ suc k ≡ d * 2 * 2 ^ k
mul-pow-suc d k = omega (arith, ap (λ (t : ℕ). d * t) (pow-suc 2 k))
