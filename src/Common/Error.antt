-- ===== src/Common/Error.antt =====
-- error.rs: the error type with its Display, and `Result` with `?` as bind.
use Prim.Native.String.{String, ◌++◌}
use mathlib.Core.Path.{◌≡◌, refl}
use mathlib.Core.Bool.{Bool, true, false}
use mathlib.Core.Option.{Option, none, some}

pub data VivariumError : Type 0 where
  config imap smtp tls io parse message policy other : String → VivariumError

-- `to_string`
pub to_string : VivariumError → String
to_string (config s) = "configuration error: " ++ s
to_string (imap s) = "IMAP error: " ++ s
to_string (smtp s) = "SMTP error: " ++ s
to_string (tls s) = "TLS error: " ++ s
to_string (io s) = s
to_string (parse s) = "parse error: " ++ s
to_string (message s) = "message error: " ++ s
to_string (policy s) = "policy denied: " ++ s
to_string (other s) = s

-- Rust's `Result` with this error.
pub data Result {ℓ} (Value : Type ℓ) : Type ℓ where
  err : VivariumError → Result Value
  ok : Value → Result Value

abbrev pub is_ok {ℓ} : {Value : Type ℓ} → Result Value → Bool
is_ok (err error) = false
is_ok (ok value) = true

-- `Option::ok_or_else`
abbrev pub ok_or {ℓ} : {Value : Type ℓ} → Option Value → VivariumError → Result Value
ok_or (some value) error = ok value
ok_or none error = err error

-- The operator `?`, first with the value and then without.
infixl 5 ◌>>=◌ ◌>>◌
abbrev pub ◌>>=◌ {ℓ₁ ℓ₂} :
    {Value : Type ℓ₁} {Next : Type ℓ₂} → Result Value → (Value → Result Next) → Result Next
err error >>= next = err error
ok value >>= next = next value

abbrev pub ◌>>◌ {ℓ} : {Next : Type ℓ} → Result (Unit {0}) → Result Next → Result Next
first >> rest = first >>= λ done. rest

-- What came of the first step where both returned.
pub >>=-eq-ok {ℓ₁ ℓ₂} :
    {Value : Type ℓ₁} {Next : Type ℓ₂} (first : Result Value) (next : Value → Result Next)
    {last : Next}
    → (first >>= next) ≡ ok last
    → (value : Value) × (first ≡ ok value) × (next value ≡ ok last)
>>=-eq-ok (err error) next h = cc
>>=-eq-ok (ok value) next h = (value, refl, h)

pub ok-injective {ℓ} : {Value : Type ℓ} {x y : Value} → ok x ≡ ok y → x ≡ y
ok-injective e = cc
