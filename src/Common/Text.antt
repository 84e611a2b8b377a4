-- ===== src/Common/Text.antt =====
-- Byte strings: the contents of a C string or of a std::string, as a list of byte values.
use Prim.Native.Nat.{ℕ, zero, suc}
use mathlib.Core.Path.{◌≡◌, refl}
use mathlib.Core.Logic.{◌↔◌, ◌≢◌}
use mathlib.Core.Bool.{Bool, true, false, ◌&&◌}
use mathlib.Core.List.{List, [], ◌∷◌, ◌++◌}
use mathlib.Core.Option.{Option, none, some}
use mathlib.Core.Option
use native.Mathlib.Omega.{arith}
use Prim.Native.Char.{code}
use Prim.Native.String.{String}
use dns_server.Common.Tests.{◌==◌, ==_iff}
use dns_server.Common.Lists.{All}

abbrev pub Bytes : Type 0
Bytes = List ℕ

-- The bytes of an ASCII literal.
abbrev pub codes : String → Bytes
codes String.[] = []
codes (String.◌∷◌ c s) = code c ∷ codes s

-- `operator==` of std::string, `strcmp(…) == 0` of C strings.
unfoldable pub text_eq : Bytes → Bytes → Bool
text_eq [] [] = true
text_eq [] (y ∷ ys) = false
text_eq (x ∷ xs) [] = false
text_eq (x ∷ xs) (y ∷ ys) = (x == y) && text_eq xs ys

pub text_eq_iff : (xs ys : Bytes) → (text_eq xs ys ≡ true) ↔ (xs ≡ ys)
unfolding text_eq
text_eq_iff [] [] = (λ _. refl, λ _. refl)
text_eq_iff [] (y ∷ ys) = (λ h. cc, λ h. cc)
text_eq_iff (x ∷ xs) [] = (λ h. cc, λ h. cc)
text_eq_iff (x ∷ xs) (y ∷ ys) =
    (λ h. ground (arith, ==_iff x y, text_eq_iff xs ys), λ h. ground (arith, text_eq_iff xs ys))

pub text_eq_refl : (xs : Bytes) → text_eq xs xs ≡ true
text_eq_refl xs = (text_eq_iff xs xs).1 refl

-- No byte of the string is NUL: what lies before the terminator of a C string.
abbrev pub NoNul : Bytes → Type 0
NoNul = All (λ b. b ≢ 0)

-- The C string in a block of memory; `none` if no NUL ends it.
unfoldable pub c_string : Bytes → Option Bytes
c_string [] = none
c_string (zero ∷ rest) = some []
c_string (suc b ∷ rest) = Option.map (λ s. suc b ∷ s) (c_string rest)

-- A block is the string in front of its first NUL.
pub c_string-append : (s rest : Bytes) → NoNul s → c_string (s ++ (0 ∷ rest)) ≡ some s
unfolding c_string
c_string-append [] rest n = refl
c_string-append (zero ∷ s) rest n = absurd (n.0 refl)
c_string-append (suc b ∷ s) rest n = rw (c_string-append s rest n.1)
