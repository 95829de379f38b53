-- ===== src/ApiServer/Texts/Laws.antt =====
-- A number is read back from its decimal print, and a split finds the parts around one separator.
use Prim.Native.Nat.{◌+◌, ◌-◌, ◌*◌, ◌/◌, ◌%◌, ◌^◌, ◌≤◌, ◌<◌}
use Prim.Native.Char.{Char, code}
use Prim.Native.String.{String, ◌++◌}
use text.Mathlib.TextLemmas.{nil-append, cons-append}
use hohapiserver.Base.{
  ℕ, zero, suc, All, ltb, Bool-cases, inl, inr, ◌≡◌, refl, arith, true, false, some, List, [], ◌∷◌,
}
use hohapiserver.ApiServer.Ints.{pos}
use hohapiserver.ApiServer.Texts.{
  is_char, onto_first, split, lacks, read, unsigned, atoi, digit, digits, decimal,
}

code-digit : (d : ℕ) → d < 10 → code (digit d) ≡ 48 + d
unfolding digit
code-digit zero h = refl
code-digit (suc zero) h = refl
code-digit (suc (suc zero)) h = refl
code-digit (suc (suc (suc zero))) h = refl
code-digit (suc (suc (suc (suc zero)))) h = refl
code-digit (suc (suc (suc (suc (suc zero))))) h = refl
code-digit (suc (suc (suc (suc (suc (suc zero)))))) h = refl
code-digit (suc (suc (suc (suc (suc (suc (suc zero))))))) h = refl
code-digit (suc (suc (suc (suc (suc (suc (suc (suc zero)))))))) h = refl
code-digit (suc (suc (suc (suc (suc (suc (suc (suc (suc zero))))))))) h = refl
code-digit (suc (suc (suc (suc (suc (suc (suc (suc (suc (suc n)))))))))) h =
    absurd (omega (arith, h))

read-digit :
    (n d : ℕ) (out : String) → d < 10 → read n (String.◌∷◌ (digit d) out) ≡ read (n * 10 + d) out
unfolding read
read-digit n d out h = ground (arith, code-digit d h)

read-digits : (fuel n : ℕ) (out : String) → n < fuel → read 0 (digits fuel n out) ≡ read n out
unfolding digits
read-digits zero n out h = absurd (omega (arith, h))
read-digits (suc fuel) n out h = ground (
  arith,
  read-digits fuel (n / 10) (String.◌∷◌ (digit (n % 10)) out),
  read-digit (n / 10) (n % 10) out,
  read-digit 0 (n % 10) out,
)

-- The digits begin with one.
digits-first :
    (fuel n : ℕ) (out : String)
    → n < fuel
    → (c : Char) × (s : String) × (digits fuel n out ≡ String.◌∷◌ c s)
      × (48 ≤ code c)
      × (code c ≤ 57)
unfolding digits
digits-first zero n out h = absurd (omega (arith, h))
digits-first (suc fuel) n out h = elim (Bool-cases (ltb n 10)) [
  | inl small ↦ (
    digit (n % 10),
    out,
    rw small refl,
    omega (arith, code-digit (n % 10)),
    omega (arith, code-digit (n % 10)),
  )
  | inr large ↦
      let (c, s, e, low, high) =
        digits-first fuel (n / 10) (String.◌∷◌ (digit (n % 10)) out) (ground (arith, large, h)) in
      (c, s, rw large e, low, high)
]

atoi_of_digits :
    (c : Char) (s : String) (n : ℕ)
    → 48 ≤ code c
    → code c ≤ 57
    → read 0 (String.◌∷◌ c s) ≡ some n
    → n ≤ 2 ^ 63 - 1
    → atoi (String.◌∷◌ c s) ≡ some (pos n)
unfolding atoi unsigned
atoi_of_digits c s n low high h fits = ground (arith, h, low, high, fits)

read-nil : (n : ℕ) → read n "" ≡ some n
unfolding read
read-nil n = refl

-- Every int that is not negative is read back from its decimal print.
pub atoi-decimal : (n : ℕ) → n ≤ 2 ^ 63 - 1 → atoi (decimal n) ≡ some (pos n)
unfolding decimal
atoi-decimal n h =
    let (c, s, e, low, high) = digits-first (suc n) n "" (omega arith) in
    rw e
      (atoi_of_digits c s n low high (cc (e, read-digits (suc n) n "" (omega arith), read-nil n)) h)

lacks-digits :
    (fuel n : ℕ) (out : String)
    → n < fuel
    → lacks 35 out ≡ true
    → lacks 35 (digits fuel n out) ≡ true
unfolding digits lacks
lacks-digits zero n out h l = absurd (omega (arith, h))
lacks-digits (suc fuel) n out h l =
    ground (
      arith,
      code-digit (n % 10),
      lacks-digits fuel (n / 10) (String.◌∷◌ (digit (n % 10)) out),
      l,
      h,
    )

pub lacks-decimal : (n : ℕ) → lacks 35 (decimal n) ≡ true
unfolding decimal lacks
lacks-decimal n = lacks-digits (suc n) n "" (omega arith) refl

split-lacks : (sep : ℕ) (t : String) → lacks sep t ≡ true → split sep t ≡ t ∷ []
unfolding split lacks
split-lacks sep String.[] h = refl
split-lacks sep (String.◌∷◌ c s) h = ground (arith, split-lacks sep s, h)

-- Two parts around a separator that neither of them holds.
pub split-two :
    (sep : ℕ) (c : Char) (t u : String)
    → is_char sep c ≡ true
    → lacks sep t ≡ true
    → lacks sep u ≡ true
    → split sep (t ++ (String.◌∷◌ c u)) ≡ t ∷ u ∷ []
unfolding split lacks
split-two sep c String.[] u h ht hu =
    rw (nil-append (String.◌∷◌ c u)) (ground (arith, h, split-lacks sep u hu))
split-two sep c (String.◌∷◌ d t) u h ht hu =
    rw (cons-append d t (String.◌∷◌ c u)) (ground (arith, ht, split-two sep c t u h))

-- An int of 64 bits.
pub atoi-le : (s : String) (n : ℕ) → atoi s ≡ some (pos n) → n ≤ 2 ^ 63 - 1
unfolding atoi
atoi-le String.[] n h = cc
atoi-le (String.◌∷◌ c s) n h = ground (arith, h)

onto_first-All :
    (sep : ℕ) (c : Char) (tokens : List String)
    → is_char sep c ≡ false
    → All (λ token. lacks sep token ≡ true) tokens
    → All (λ token. lacks sep token ≡ true) (onto_first c tokens)
unfolding lacks
onto_first-All sep c [] off h = (ground (arith, off), tt)
onto_first-All sep c (token ∷ tokens) off (h, hs) = (ground (arith, off, h), hs)

-- No part of a split holds the separator.
pub split-All : (sep : ℕ) (s : String) → All (λ token. lacks sep token ≡ true) (split sep s)
unfolding split lacks
split-All sep String.[] = (refl, tt)
split-All sep (String.◌∷◌ c s) = elim (Bool-cases (is_char sep c)) [
  | inl here ↦ rw here (refl, split-All sep s)
  | inr off ↦ rw off (onto_first-All sep c (split sep s) off (split-All sep s))
]
