-- ===== src/Tracing/Hex.antt =====
-- encoding/hex, which internal/tracing calls: two characters of "0123456789abcdef" for a byte. A
-- text is the list of its bytes.
use load_balancer.Base.{
  ℕ, ◌+◌, ◌*◌, ◌/◌, ◌%◌, ◌<◌, ◌≡◌, refl, List, [], ◌∷◌, arith, ltb, if◌then◌else◌, length,
}

abbrev pub hex_char : ℕ → ℕ
hex_char d = if ltb d 10 then 48 + d else 87 + d

-- hex.EncodeToString.
unfoldable pub encode : List ℕ → List ℕ
encode [] = []
encode (b ∷ bs) = hex_char (b / 16) ∷ hex_char (b % 16) ∷ encode bs

abbrev pub IsByte : ℕ → Type 0
IsByte b = b < 256

pub length-encode : (bs : List ℕ) → length (encode bs) ≡ 2 * length bs
unfolding encode
length-encode [] = refl
length-encode (b ∷ bs) = let rest = length-encode bs in omega arith
