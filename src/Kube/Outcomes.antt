-- ===== src/Kube/Outcomes.antt =====
-- Results that need no server: `if err != nil { return err }` in a function that only computes.
use hohapiserver.Base.{◌≡◌, refl}
use hohapiserver.Kube.Effects.{Outcome, ok, fail, panic}

infixl 5 ◌>>=◌
abbrev pub ◌>>=◌ {ℓ κ} : {A : Type ℓ} {B : Type κ} → Outcome A → (A → Outcome B) → Outcome B
ok value >>= next = next value
fail error >>= next = fail error
panic >>= next = panic

-- What a chain that succeeds has gone through.
pub >>=-ok {ℓ κ} :
    {A : Type ℓ} {B : Type κ} (first : Outcome A) (later : A → Outcome B) {result : B}
    → (first >>= later) ≡ ok result
    → (between : A) × (later between ≡ ok result) × (first ≡ ok between)
>>=-ok (ok a) later chain = (a, chain, refl)
>>=-ok (fail e) later chain = cc
>>=-ok panic later chain = cc
