-- ===== src/Prelude/Text.antt =====
-- Text as the list of its characters' codes, and numbers as the C library's `printf` writes them.
use Prim.Native.Nat.{ℕ, zero, suc, ◌+◌, ◌-◌, ◌*◌, ◌/◌, ◌%◌}
use Prim.Native.Char.{code}
use Prim.Native.String.{String}
use mathlib.Core.Path.{◌≡◌, refl}
use mathlib.Core.List.{List, [], ◌∷◌}
use steamlink_arduino.Prelude.Tests.{ltb, ◌==◌, if◌then◌else◌}

abbrev pub codes : String → List ℕ
codes String.[] = []
codes (String.◌∷◌ c s) = code c ∷ codes s

-- a digit, with small letters above 9
abbrev pub digit : ℕ → ℕ
digit d = if ltb d 10 then 48 + d else 87 + d

-- The digits of a number in a base, put before `out`; the first argument bounds their number.
unfoldable pub digits : ℕ → ℕ → ℕ → List ℕ → List ℕ
digits zero base n out = out
digits (suc k) base n out =
    let more = digits k base (n / base) (digit (n % base) ∷ out) in
    if ltb n base then digit (n % base) ∷ out else more

-- `%u` of a 32-bit number
unfoldable pub decimal : ℕ → List ℕ
decimal n = digits 10 10 n []

-- the number that decimal digits name, up to the first other character
abbrev pub read_decimal : ℕ → List ℕ → ℕ
read_decimal n [] = n
read_decimal n (c ∷ cs) =
    let rest = read_decimal (n * 10 + (c - 48)) cs in
    if ltb c 48 then n else if ltb 57 c then n else rest

-- the text that stands in a buffer before its first NUL
abbrev pub c_string : List ℕ → List ℕ
c_string [] = []
c_string (c ∷ cs) = let rest = c_string cs in if c == 0 then [] else c ∷ rest

decimal_runs : decimal 4294967295 ≡ codes "4294967295"
unfolding decimal digits
decimal_runs = refl
