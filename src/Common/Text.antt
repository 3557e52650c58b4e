-- ===== src/Common/Text.antt =====
-- Texts as lists of code points, and the patterns of the field declarations.
use Prim.Native.Nat.{ℕ}
use Prim.Native.Char.{code}
use Prim.Native.String.{String}
use mathlib.Core.Bool.{Bool, true, false, not, ◌&&◌, ◌||◌}
use mathlib.Core.List.{List, [], ◌∷◌}
use Prim.Native.Nat.{zero, suc, ◌+◌, ◌-◌, ◌*◌, ◌/◌, ◌%◌}
use Prim.Native.String.{◌++◌ as str_append}
use mathlib.Core.Option.{Option, none, some}
use recallops.Common.Tests.{leb, ltb, nat_beq, if◌then◌else◌}
use recallops.Common.Lists.{length}

abbrev pub codes : String → List ℕ
codes String.[] = []
codes (String.◌∷◌ c s) = code c ∷ codes s

abbrev pub all_codes : (ℕ → Bool) → List ℕ → Bool
all_codes p [] = true
all_codes p (c ∷ cs) = p c && all_codes p cs

-- one character of `[a-f0-9]`
abbrev pub is_lower_hex : ℕ → Bool
is_lower_hex c = (leb b'a' c && leb c b'f') || (leb b'0' c && leb c b'9')

-- `^[a-f0-9]{64}$`
unfoldable pub is_digest : String → Bool
is_digest s = nat_beq (length (codes s)) 64 && all_codes is_lower_hex (codes s)

-- `min_length`, `max_length` of a text, in characters
unfoldable pub has_length : ℕ → ℕ → String → Bool
has_length lo hi s = leb lo (length (codes s)) && leb (length (codes s)) hi

-- An f-string or `"".join(parts)`.
abbrev pub concat : List String → String
concat [] = ""
concat (s ∷ ss) = str_append s (concat ss)

abbrev digit : ℕ → String
digit zero = "0"
digit (suc zero) = "1"
digit (suc (suc zero)) = "2"
digit (suc (suc (suc zero))) = "3"
digit (suc (suc (suc (suc zero)))) = "4"
digit (suc (suc (suc (suc (suc zero))))) = "5"
digit (suc (suc (suc (suc (suc (suc zero)))))) = "6"
digit (suc (suc (suc (suc (suc (suc (suc zero))))))) = "7"
digit (suc (suc (suc (suc (suc (suc (suc (suc zero)))))))) = "8"
digit _ = "9"

digits : ℕ → ℕ → String
digits zero n = ""
digits (suc f) n =
    let rest = digits f (n / 10) in if ltb n 10 then digit n else str_append rest (digit (n % 10))

-- `str(n)`; each round divides by ten, so `n + 1` rounds are enough.
unfoldable pub decimal : ℕ → String
unfolding digits
decimal n = digits (suc n) n

-- Python's `s or default` on an optional text: an empty text counts as absent.
abbrev pub or_text : Option String → String → String
or_text none default = default
or_text (some String.[]) default = default
or_text (some s) default = s

abbrev is_space : ℕ → Bool
is_space c = nat_beq c 32 || (leb 9 c && leb c 13)

-- The value of a hexadecimal digit.
abbrev hex_value : ℕ → Option ℕ
hex_value c =
    if leb b'0' c && leb c b'9'
    then some (c - b'0')
    else if leb b'a' c && leb c b'f'
    then some (c - b'a' + 10)
    else if leb b'A' c && leb c b'F'
    then some (c - b'A' + 10)
    else none

abbrev hex_pair : Option ℕ → Option ℕ → Option (List ℕ) → Option (List ℕ)
hex_pair (some a) (some b) (some rest) = some ((a * 16 + b) ∷ rest)
hex_pair _ _ _ = none

-- `bytes.fromhex`: pairs of digits, with spaces allowed between the pairs.
unfoldable pub from_hex : List ℕ → Option (List ℕ)
from_hex [] = some []
from_hex (a ∷ []) = if is_space a then some [] else none
from_hex (a ∷ b ∷ cs) = elim (is_space a) [
  | true ↦ from_hex (b ∷ cs)
  | false ↦ hex_pair (hex_value a) (hex_value b) (from_hex cs)
]

-- `s == s.lower()`, for a text of ASCII characters
unfoldable pub is_lower_case : List ℕ → Bool
is_lower_case = all_codes (λ c. not (leb b'A' c && leb c b'Z'))

-- `text[:n]`
abbrev pub text_take : ℕ → String → String
text_take zero s = String.[]
text_take (suc n) String.[] = String.[]
text_take (suc n) (String.◌∷◌ c s) = String.◌∷◌ c (text_take n s)

-- `s.split(sep, 1)[0]`, for one character
abbrev pub before_code : ℕ → String → String
before_code sep String.[] = String.[]
before_code sep (String.◌∷◌ c s) =
    let rest = before_code sep s in if nat_beq (code c) sep then String.[] else (String.◌∷◌ c rest)
