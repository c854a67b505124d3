-- ===== src/Accounts/Reply.antt =====
-- What a service gives back: a value, or the error with a status code that it throws. The messages
-- are left out.
use lidar_dashboard.Prelude.{ℕ, ◌≡◌, refl, ◌⊎◌, inl, inr, Bool, true, false}

pub data Reply {ℓ} (A : Type ℓ) : Type ℓ where
  ok : A → Reply A
  http_error : (status_code : ℕ) → Reply A

infixl 5 ◌>>=◌ ◌>>◌
abbrev pub ◌>>=◌ {ℓ κ} : {A : Type ℓ} {B : Type κ} → Reply A → (A → Reply B) → Reply B
ok a >>= f = f a
http_error n >>= f = http_error n

abbrev pub ◌>>◌ {ℓ} : {B : Type ℓ} → Reply (Unit {0}) → Reply B → Reply B
m >> k = m >>= λ _. k

-- `if (test) throw createHttpError(status, …)`.
abbrev pub throw_if : Bool → ℕ → Reply (Unit {0})
throw_if true status = http_error status
throw_if false status = ok tt

-- What a chain that succeeds went through.
pub >>=-ok {ℓ κ} :
    {A : Type ℓ} {B : Type κ} (m : Reply A) (f : A → Reply B) (b : B)
    → (m >>= f) ≡ ok b
    → (a : A) × (m ≡ ok a) × (f a ≡ ok b)
>>=-ok (ok a) f b h = (a, refl, h)
>>=-ok (http_error n) f b h = absurd (cc)

pub throw_if->>-ok {ℓ} :
    {B : Type ℓ} (t : Bool) (status : ℕ) (k : Reply B) (b : B)
    → (throw_if t status >> k) ≡ ok b
    → (t ≡ false) × (k ≡ ok b)
throw_if->>-ok true status k b h = absurd (cc)
throw_if->>-ok false status k b h = (refl, h)

pub ok_injective {ℓ} : {A : Type ℓ} {a b : A} → ok a ≡ ok b → a ≡ b
ok_injective h = cc

pub Reply-cases {ℓ} :
    {A : Type ℓ} (r : Reply A) → ((a : A) × (r ≡ ok a)) ⊎ ((n : ℕ) × (r ≡ http_error n))
Reply-cases (ok a) = inl (a, refl)
Reply-cases (http_error n) = inr (n, refl)
