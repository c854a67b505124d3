-- ===== src/Accounts/Digits.antt =====
-- What the normalisation reads of a phone number.
use mathlib.Core.Path.{subst}
use lidar_dashboard.Prelude.{
  ℕ, ◌≤◌, ◌<◌, ◌≡◌, refl, sym, ap, ◌∙◌, ◌⊎◌, inl, inr, ◌↔◌, true, false, [], ◌∷◌, arith, ◌==◌,
  if◌then◌else◌, Bool-cases,
}
use lidar_dashboard.Prelude.Text.{Text, trim, trim_start, trim_end, is_space}
use lidar_dashboard.Accounts.Policy.{is_digit, digits_of, starts_with_plus, normalize_phone_number}

-- A text without all that is not a digit from 0 to 9.
abbrev pub Struck : Text → Text → Type 0
Struck [] v = v ≡ []
Struck (c ∷ s) v =
    ((b'0' ≤ c) × (c ≤ b'9') × (ds : Text) × (v ≡ c ∷ ds) × Struck s ds)
    ⊎ ((c < b'0') ⊎ (b'9' < c)) × Struck s v

-- A phone number as it is written, and what is read of it: white space before it is passed over, a
-- plus that is next stays, and all else that is not a digit is struck out.
abbrev pub IsRead : Text → Text → Type 0
IsRead [] v = v ≡ []
IsRead (c ∷ s) v =
    ((is_space c ≡ true) × IsRead s v)
    ⊎ ((c ≡ b'+') × (ds : Text) × (v ≡ b'+' ∷ ds) × Struck s ds)
    ⊎ ((is_space c ≡ false) × ((c == b'+') ≡ false) × Struck (c ∷ s) v)

space-plus : (c : ℕ) → is_space c ≡ true → (c == b'+') ≡ false
unfolding is_space
space-plus c h = ground (arith, h)

space-digit : (c : ℕ) → is_space c ≡ true → is_digit c ≡ false
unfolding is_space
space-digit c h = ground (arith, h)

plus_plain : is_space b'+' ≡ false
unfolding is_space
plus_plain = refl

digit-bounds : (c : ℕ) → is_digit c ≡ true → (b'0' ≤ c) × (c ≤ b'9')
digit-bounds c h = ground (arith, h)

bounds-digit : (c : ℕ) → b'0' ≤ c → c ≤ b'9' → is_digit c ≡ true
bounds-digit c low high = ground (arith, low, high)

outside : (c : ℕ) → is_digit c ≡ false → (c < b'0') ⊎ (b'9' < c)
outside c h = ground (arith, h)

outside-digit : (c : ℕ) → (c < b'0') ⊎ (b'9' < c) → is_digit c ≡ false
outside-digit c h = ground (arith, h)

digits_of-Struck : (s : Text) → Struck s (digits_of s)
unfolding digits_of
digits_of-Struck [] = refl
digits_of-Struck (c ∷ s) = elim (Bool-cases (is_digit c)) [
  | inl e ↦
      let (low, high) = digit-bounds c e in
      rw e (inl (low, high, digits_of s, refl, digits_of-Struck s))
  | inr e ↦ rw e (inr (outside c e, digits_of-Struck s))
]

Struck-digits_of : (s v : Text) → Struck s v → digits_of s ≡ v
unfolding digits_of
Struck-digits_of [] v h = sym h
Struck-digits_of (c ∷ s) v (inl (low, high, ds, e, h)) =
    rw (bounds-digit c low high, e, Struck-digits_of s ds h) refl
Struck-digits_of (c ∷ s) v (inr (out, h)) = rw (outside-digit c out) (Struck-digits_of s v h)

-- White space at the end is no digit and no plus.
abbrev after_end : ℕ → Text → Text
after_end c rest = elim rest [ [] ↦ if is_space c then [] else c ∷ [] | d ∷ s ↦ c ∷ d ∷ s ]

digits-end : (c : ℕ) (rest : Text) → digits_of (after_end c rest) ≡ digits_of (c ∷ rest)
unfolding digits_of
digits-end c [] = elim (Bool-cases (is_space c)) [
  | inl e ↦ rw (e, space-digit c e) refl
  | inr e ↦ rw e refl
]
digits-end c (d ∷ s) = refl

digits_of-trim_end : (s : Text) → digits_of (trim_end s) ≡ digits_of s
unfolding digits_of trim_end
digits_of-trim_end [] = refl
digits_of-trim_end (c ∷ s) =
    digits-end c (trim_end s)
    ∙ ap (λ (ds : Text). if is_digit c then c ∷ ds else ds) (digits_of-trim_end s)

plus-end : (c : ℕ) (rest : Text) → starts_with_plus (after_end c rest) ≡ (c == b'+')
plus-end c [] = elim (Bool-cases (is_space c)) [
  | inl e ↦ rw (e, space-plus c e) refl
  | inr e ↦ rw e refl
]
plus-end c (d ∷ s) = refl

starts_with_plus-trim_end : (s : Text) → starts_with_plus (trim_end s) ≡ starts_with_plus s
unfolding trim_end
starts_with_plus-trim_end [] = refl
starts_with_plus-trim_end (c ∷ s) = plus-end c (trim_end s)

-- The normalisation of a text whose white space at the start is gone.
abbrev signed : Text → Text
signed s = if starts_with_plus s then b'+' ∷ digits_of s else digits_of s

normalize_phone_number-signed : (t : Text) → normalize_phone_number t ≡ signed (trim_start t)
unfolding normalize_phone_number trim
normalize_phone_number-signed t =
    rw
      (
        normalize_phone_number,
        starts_with_plus-trim_end (trim_start t),
        digits_of-trim_end (trim_start t),
      )
      refl

signed-IsRead : (t : Text) → IsRead t (signed (trim_start t))
unfolding trim_start digits_of
signed-IsRead [] = refl
signed-IsRead (c ∷ s) = elim (Bool-cases (is_space c)) [
  | inl e ↦ rw e (inl (refl, signed-IsRead s))
  | inr e ↦ elim (Bool-cases (c == b'+')) [
    | inl k ↦
        let plus : c ≡ b'+' = ground (arith, k) in
        rw (e, k, plus) (inr (inl (refl, digits_of s, refl, digits_of-Struck s)))
    | inr k ↦ rw (e, k) (inr (inr (refl, refl, digits_of-Struck (c ∷ s))))
  ]
]

IsRead-signed : (t v : Text) → IsRead t v → signed (trim_start t) ≡ v
unfolding trim_start digits_of
IsRead-signed [] v h = sym h
IsRead-signed (c ∷ s) v (inl (e, h)) = rw e (IsRead-signed s v h)
IsRead-signed (c ∷ s) v (inr (inl (plus, ds, e, h))) = rw (plus, e, Struck-digits_of s ds h) refl
IsRead-signed (c ∷ s) v (inr (inr (e, k, h))) = rw (e, k) (Struck-digits_of (c ∷ s) v h)

-- The normalisation gives what is read.
pub normalize_phone_number-IsRead : (t v : Text) → (normalize_phone_number t ≡ v) ↔ IsRead t v
normalize_phone_number-IsRead t v = (
  (λ h. subst (IsRead t) (sym (normalize_phone_number-signed t) ∙ h) (signed-IsRead t)),
  (λ h. normalize_phone_number-signed t ∙ IsRead-signed t v h),
)
