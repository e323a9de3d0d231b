-- ===== src/Ring/Fifo.antt =====
-- What a client sees of the send queue: a bounded first-in first-out list, oldest entry first.
use steamlink_arduino.Prelude.{
  ℕ, Bool, true, false, Option, none, some, List, [], ◌∷◌, ◌++◌, ltb, if◌then◌else◌, length,
}

module _ {ℓ} {A : Type ℓ} where
  unfoldable pub push : ℕ → List A → A → List A × Bool
  push cap q x = if ltb (length q) cap then (q ++ (x ∷ []), true) else (q, false)

  unfoldable pub pop : List A → List A × Option A
  pop [] = ([], none)
  pop (x ∷ q) = (q, some x)
