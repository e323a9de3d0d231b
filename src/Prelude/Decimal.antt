-- ===== src/Prelude/Decimal.antt =====
-- Numbers written in decimal, and read back.
use Prim.Native.Nat.{ℕ, zero, suc, ◌+◌, ◌*◌, ◌/◌, ◌%◌, ◌^◌, ◌≤◌, ◌<◌}
use mathlib.Core.Path.{◌≡◌, refl, ap, ◌∙◌}
use mathlib.Core.Logic.{inl, inr}
use mathlib.Core.Bool.{false}
use mathlib.Core.List.{List, ◌∷◌, ◌++◌}
use native.Mathlib.Omega.{arith}
use native.Mathlib.Nat.{pow-suc}
use steamlink_arduino.Prelude.Tests.{ltb, ltb→lt, Bool-cases}
use steamlink_arduino.Prelude.Lists.{length}
use steamlink_arduino.Prelude.Text.{digit, digits, read_decimal}

pub length-digits : (k n : ℕ) (out : List ℕ) → length (digits k 10 n out) ≤ k + length out
unfolding digits
length-digits zero n out = omega arith
length-digits (suc k) n out = ground (arith, length-digits k (n / 10) (digit (n % 10) ∷ out))

pub read_digit :
    (m d : ℕ) (out : List ℕ)
    → d < 10
    → read_decimal m (digit d ∷ out) ≡ read_decimal (m * 10 + d) out
read_digit m d out l =
    let e : digit d ≡ 48 + d = ground arith in
    let below : ltb (48 + d) 48 ≡ false = ground arith in
    let above : ltb 57 (48 + d) ≡ false = ground arith in
    ap (λ c. read_decimal m (c ∷ out)) e
    ∙ rw (below, above) (ap (λ v. read_decimal v out) (omega arith))

-- A number's digits, read in front of `out`.
pub read-digits :
    (k n : ℕ) (out : List ℕ) → n < 10 ^ k → read_decimal 0 (digits k 10 n out) ≡ read_decimal n out
unfolding digits
read-digits zero n out l = ap (λ m. read_decimal m out) (omega arith)
read-digits (suc k) n out l = elim (Bool-cases (ltb n 10)) [
  | inl e ↦
      let l' : n < 10 = ltb→lt n 10 e in
      rw e (read_digit 0 (n % 10) out (omega arith) ∙ ap (λ m. read_decimal m out) (omega arith))
  | inr e ↦ rw e (
      read-digits k (n / 10) (digit (n % 10) ∷ out) (omega (arith, l, pow-suc 10 k))
      ∙ read_digit (n / 10) (n % 10) out (omega arith)
      ∙ ap (λ m. read_decimal m out) (omega arith))
]

pub digits-append :
    (k n : ℕ) (out rest : List ℕ) → digits k 10 n (out ++ rest) ≡ digits k 10 n out ++ rest
unfolding digits
digits-append zero n out rest = refl
digits-append (suc k) n out rest =
    rw (digits-append k (n / 10) (digit (n % 10) ∷ out) rest)
      (elim (Bool-cases (ltb n 10)) [ inl e ↦ rw e refl | inr e ↦ rw e refl ])

-- A number starts with a digit.
pub digits-first :
    (k n : ℕ) (out : List ℕ)
    → (d : ℕ) × (more : List ℕ) × (d < 10) × (digits (suc k) 10 n out ≡ digit d ∷ more)
unfolding digits
digits-first zero n out = (n % 10, out, omega arith, ground arith)
digits-first (suc k) n out = elim (Bool-cases (ltb n 10)) [
  | inl e ↦ (n % 10, out, omega arith, rw e refl)
  | inr e ↦
      let (d, more, l, q) = digits-first k (n / 10) (digit (n % 10) ∷ out) in (d, more, l, rw e q)
]
