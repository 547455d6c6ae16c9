-- ===== src/Py/Result.antt =====
-- Exceptions as values: what a Python expression gives, a value or the exception that it raises.
use mathlib.Core.Path.{◌≡◌, refl}

pub data Exc : Type 0 where
  type_error value_error key_error attribute_error overflow_error runtime_error : Exc
  invalid_signature : Exc
  -- raised by a library that the program calls
  library_error : Exc

pub data Result {ℓ} (A : Type ℓ) : Type ℓ where
  ok : A → Result A
  raise : Exc → Result A

module _ {ℓ κ} {A : Type ℓ} {B : Type κ} where
  infixl 10 ◌>>=◌
  -- What is computed from the value of an expression, unless the expression raises
  abbrev pub ◌>>=◌ : Result A → (A → Result B) → Result B
  raise x >>= next = raise x
  ok v >>= next = next v

infixl 10 ◌>>◌
-- A statement, and what comes after it unless it raises
abbrev pub ◌>>◌ {ℓ} : {B : Type ℓ} → Result (Unit {0}) → Result B → Result B
raise x >> after = raise x
ok done >> after = after

-- `try: m except e: handler e`
abbrev pub catch {ℓ} : {A : Type ℓ} → Result A → (Exc → A) → A
catch (ok a) handler = a
catch (raise e) handler = handler e

module _ {ℓ κ} {A : Type ℓ} {B : Type κ} where
  -- A value that came of two steps came of one of the first.
  pub >>=-eq-ok :
      (first : Result A) (next : A → Result B) {result : B}
      → (first >>= next) ≡ ok result
      → (v : A) × (first ≡ ok v) × (next v ≡ ok result)
  >>=-eq-ok (raise x) next e = cc
  >>=-eq-ok (ok v) next e = (v, refl, e)

pub ok_injective {ℓ} : {A : Type ℓ} (a b : A) → ok a ≡ ok b → a ≡ b
ok_injective a b h = cc

-- A check that lets a result through raised nothing.
pub >>-eq-ok {ℓ} :
    {B : Type ℓ} (check : Result (Unit {0})) (next : Result B) {result : B}
    → (check >> next) ≡ ok result
    → (check ≡ ok tt) × (next ≡ ok result)
>>-eq-ok (raise x) next e = cc
>>-eq-ok (ok done) next e = (refl, e)

pub >>=-assoc {ℓ κ μ} :
    {A : Type ℓ} {B : Type κ} {C : Type μ} (first : Result A) (next : A → Result B)
    (last : B → Result C)
    → ((first >>= next) >>= last) ≡ (first >>= λ a. next a >>= last)
>>=-assoc (raise x) next last = refl
>>=-assoc (ok a) next last = refl
