-- ===== src/Base/Text.antt =====
-- Go strings: the bytes of a text, and decimal printing.
use Prim.Native.Nat.{ℕ, zero, suc, ◌+◌, ◌/◌, ◌%◌}
use Prim.Native.Char.{code}
use Prim.Native.String.{String, ◌++◌ as text_append}
use mathlib.Core.Path.{◌≡◌, refl}
use mathlib.Core.List.{List, [], ◌∷◌, ◌++◌}
use load_balancer.Base.Tests.{ltb, if◌then◌else◌}

-- The UTF-8 bytes of a code point.
abbrev pub utf8 : ℕ → List ℕ
utf8 c =
    if ltb c 0x80
    then c ∷ []
    else if ltb c 0x800
    then (0xc0 + c / 64) ∷ (0x80 + c % 64) ∷ []
    else if ltb c 0x10000
    then (0xe0 + c / 4096) ∷ (0x80 + c / 64 % 64) ∷ (0x80 + c % 64) ∷ []
    else (0xf0 + c / 262144) ∷ (0x80 + c / 4096 % 64) ∷ (0x80 + c / 64 % 64) ∷ (0x80 + c % 64) ∷ []

-- `[]byte(s)`.
abbrev pub bytes : String → List ℕ
bytes String.[] = []
bytes (String.◌∷◌ c s) = utf8 (code c) ++ bytes s

-- `%d`: the decimal digits, the last one first; the fuel is the number itself, which has at most
-- as many digits as its value plus one.
digits_rev : ℕ → ℕ → List ℕ
digits_rev zero n = (48 + n % 10) ∷ []
digits_rev (suc f) n =
    let rest = digits_rev f (n / 10) in if ltb n 10 then (48 + n) ∷ [] else (48 + n % 10) ∷ rest

unfoldable pub decimal : ℕ → List ℕ
unfolding digits_rev
decimal n = mathlib.Core.List.reverse (digits_rev n n)

decimal_120 : decimal 120 ≡ bytes "120"
unfolding decimal
decimal_120 = refl

-- One decimal digit as text.
abbrev pub digit : ℕ → String
digit zero = "0"
digit (suc zero) = "1"
digit (suc (suc zero)) = "2"
digit (suc (suc (suc zero))) = "3"
digit (suc (suc (suc (suc zero)))) = "4"
digit (suc (suc (suc (suc (suc zero))))) = "5"
digit (suc (suc (suc (suc (suc (suc zero)))))) = "6"
digit (suc (suc (suc (suc (suc (suc (suc zero))))))) = "7"
digit (suc (suc (suc (suc (suc (suc (suc (suc zero)))))))) = "8"
digit _ = "9"

show_from : ℕ → ℕ → String
show_from zero n = digit (n % 10)
show_from (suc f) n =
    let more = show_from f (n / 10) in
    if ltb n 10 then digit n else text_append more (digit (n % 10))

-- `fmt.Sprintf("%d", n)` for n not negative, as text.
unfoldable pub show_nat : ℕ → String
unfolding show_from
show_nat n = show_from n n

show_502 : show_nat 502 ≡ "502"
unfolding show_nat
show_502 = refl
