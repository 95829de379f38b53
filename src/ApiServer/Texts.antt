-- ===== src/ApiServer/Texts.antt =====
-- The parts of Go's standard library that the options use on texts: strings.Split at one character,
-- strconv.Atoi and the decimal print of fmt.
pub mod Laws
use Prim.Native.Nat.{◌+◌, ◌-◌, ◌*◌, ◌/◌, ◌%◌, ◌^◌}
use Prim.Native.Char.{Char, code}
use Prim.Native.String.{String, ◌++◌}
use Prim.Native.String
use hohapiserver.Base.{
  ℕ, zero, suc, if◌then◌else◌, Bool, true, false, not, ◌&&◌, ltb, leb, Option, none, some, List, [],
  ◌∷◌,
}
use hohapiserver.ApiServer.Ints.{ℤ, pos, negsuc}

-- The character with the number n.
abbrev pub is_char : ℕ → Char → Bool
is_char n c = leb n (code c) && leb (code c) n

abbrev pub onto_first : Char → List String → List String
onto_first c [] = String.◌∷◌ c "" ∷ []
onto_first c (token ∷ tokens) = String.◌∷◌ c token ∷ tokens

-- strings.Split
unfoldable pub split : ℕ → String → List String
split sep String.[] = "" ∷ []
split sep (String.◌∷◌ c s) =
    let tokens = split sep s in if is_char sep c then "" ∷ tokens else onto_first c tokens

-- The text holds no such character.
unfoldable pub lacks : ℕ → String → Bool
lacks sep String.[] = true
lacks sep (String.◌∷◌ c s) = not (is_char sep c) && lacks sep s

-- The number that digits spell behind n, or `none` at another character.
unfoldable pub read : ℕ → String → Option ℕ
read n String.[] = some n
read n (String.◌∷◌ c s) =
    if leb 48 (code c) && leb (code c) 57 then read (n * 10 + (code c - 48)) s else none

unfoldable pub unsigned : String → Option ℕ
unsigned String.[] = none
unsigned (String.◌∷◌ c s) = read 0 (String.◌∷◌ c s)

abbrev at_most : ℕ → (ℕ → ℤ) → Option ℕ → Option ℤ
at_most bound f none = none
at_most bound f (some n) = if leb n bound then some (f n) else none

abbrev negative : ℕ → ℤ
negative zero = pos 0
negative (suc n) = negsuc n

-- strconv.Atoi with 64 bits, an error as `none`.
unfoldable pub atoi : String → Option ℤ
atoi String.[] = none
atoi (String.◌∷◌ c s) =
    if is_char 45 c
    then at_most (2 ^ 63) negative (unsigned s)
    else if is_char 43 c
    then at_most (2 ^ 63 - 1) pos (unsigned s)
    else at_most (2 ^ 63 - 1) pos (unsigned (String.◌∷◌ c s))

unfoldable pub digit : ℕ → Char
digit zero = "0"
digit (suc zero) = "1"
digit (suc (suc zero)) = "2"
digit (suc (suc (suc zero))) = "3"
digit (suc (suc (suc (suc zero)))) = "4"
digit (suc (suc (suc (suc (suc zero))))) = "5"
digit (suc (suc (suc (suc (suc (suc zero)))))) = "6"
digit (suc (suc (suc (suc (suc (suc (suc zero))))))) = "7"
digit (suc (suc (suc (suc (suc (suc (suc (suc zero)))))))) = "8"
digit (suc (suc (suc (suc (suc (suc (suc (suc (suc n))))))))) = "9"

-- The digits of n in front of a text. The fuel is a number above n: each round divides n by ten.
unfoldable pub digits : ℕ → ℕ → String → String
digits zero n out = out
digits (suc fuel) n out =
    let rest = digits fuel (n / 10) (String.◌∷◌ (digit (n % 10)) out) in
    if ltb n 10 then String.◌∷◌ (digit (n % 10)) out else rest

-- %d
unfoldable pub decimal : ℕ → String
decimal n = digits (suc n) n ""
