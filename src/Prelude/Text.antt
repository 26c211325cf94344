-- ===== src/Prelude/Text.antt =====
-- Text as the bytes of a char array.
use Prim.Native.Nat.{ℕ, zero, suc, ◌+◌, ◌/◌, ◌%◌, ◌≤◌}
use mathlib.Core.Path.{◌≡◌, refl}
use mathlib.Core.List.{List, [], ◌∷◌}
use native.Mathlib.Omega.{arith}
use wespe.Prelude.Tests.{◌==◌, ltb, if◌then◌else◌}
use wespe.Prelude.Lists.{length, All}

-- A char array as text: what stands before its first NUL. strlen, strcmp and strncpy see only that.
unfoldable pub c_string : List ℕ → List ℕ
c_string [] = []
c_string (b ∷ bs) = let rest = c_string bs in if b == 0 then [] else b ∷ rest

pub c_string-length : (s : List ℕ) → length (c_string s) ≤ length s
unfolding c_string
c_string-length [] = omega arith
c_string-length (b ∷ bs) = ground (arith, c_string-length bs)

-- A text with no NUL in it is read whole.
pub c_string_whole : (s : List ℕ) → All (λ b. 1 ≤ b) s → c_string s ≡ s
unfolding c_string
c_string_whole [] h = refl
c_string_whole (b ∷ bs) (h, hs) = ground (arith, c_string_whole bs hs)

-- `%u`: the decimal digits, before `acc`. A uint32_t has at most ten of them.
unfoldable pub decimal_onto : ℕ → ℕ → List ℕ → List ℕ
decimal_onto zero n acc = acc
decimal_onto (suc fuel) n acc =
    let acc' = (48 + n % 10) ∷ acc in
    let rest = decimal_onto fuel (n / 10) acc' in if ltb n 10 then acc' else rest

unfoldable pub decimal : ℕ → List ℕ
unfolding decimal_onto
decimal n = decimal_onto 10 n []
