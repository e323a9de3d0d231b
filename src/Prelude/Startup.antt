-- ===== src/Prelude/Startup.antt =====
-- Code that may stop in an endless loop: it gets ready, hangs, or still waits when the fuel is out.
use mathlib.Core.Bool.{Bool, true, false}

pub data Startup {ℓ} (A : Type ℓ) : Type ℓ where
  ready : A → Startup A
  hangs waits : Startup A

infixl 5 ◌>>=◌
abbrev pub ◌>>=◌ {ℓ κ} : {A : Type ℓ} {B : Type κ} → Startup A → (A → Startup B) → Startup B
ready a >>= f = f a
hangs >>= f = hangs
waits >>= f = waits

-- what it gets ready, or `default`
abbrev pub ready_or {ℓ} : {A : Type ℓ} → A → Startup A → A
ready_or default (ready a) = a
ready_or default hangs = default
ready_or default waits = default

abbrev pub is_ready {ℓ} : {A : Type ℓ} → Startup A → Bool
is_ready (ready a) = true
is_ready hangs = false
is_ready waits = false
