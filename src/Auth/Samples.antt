-- ===== src/Auth/Samples.antt =====
-- A library of tokens that are not signed, and a user, for the tests.
use lidar_dashboard.Prelude.{
  ℕ, ◌+◌, ◌/◌, ◌≡◌, refl, sym, ◌∙◌, inl, inr, true, Option, none, some, [], ◌∷◌, ltb, lt→ltb,
  if◌then◌else◌, Bool-cases,
}
use lidar_dashboard.Prelude.Text.{Text, codes, text_eq}
use lidar_dashboard.Auth.Model.{Key, Time, User, Claims, Library, Lawful}

abbrev pub or_zero : Option ℕ → ℕ
or_zero none = 0
or_zero (some n) = n

abbrev pub or_empty : Option Text → Text
or_empty none = []
or_empty (some t) = t

abbrev pub plain_claims : ℕ → Key → ℕ → Text → Claims
plain_claims e i version jti = record {
  type = some (codes "ws");
  id = some i;
  user_id = none;
  role = none;
  session_version = some version;
  jti = some jti;
  exp = some e;
}

-- Tokens that are not signed: the expiry, the user, the version and the id of the token.
abbrev pub plain_verify : Time → Text → Option Claims
plain_verify now (e ∷ i ∷ version ∷ jti) =
    if ltb (now / 1000) e then some (plain_claims e i version jti) else none
plain_verify now _ = none

abbrev pub plain : Library
plain = record {
  sign =
      λ s c at life. (at / 1000 + life) ∷ or_zero c.id ∷ or_zero c.session_version ∷ or_empty c.jti;
  verify = λ s now token. plain_verify now token;
  compare_password = λ password hash. text_eq password hash;
  sha256 = λ t. t;
}

pub plain-claims :
    (now e i version : ℕ) (jti : Text) (c : Claims)
    → plain_verify now (e ∷ i ∷ version ∷ jti) ≡ some c
    → plain_claims e i version jti ≡ c
plain-claims now e i version jti c h = elim (Bool-cases (ltb (now / 1000) e)) [
  | inl k ↦ (let j = rw k at h in cc)
  | inr k ↦ (let j = rw k at h in absurd (cc))
]

pub plain-stable :
    (at now : Time) (token : Text) (c d : Claims)
    → plain_verify at token ≡ some c
    → plain_verify now token ≡ some d
    → d ≡ c
plain-stable at now [] c d h k = absurd (cc)
plain-stable at now (e ∷ []) c d h k = absurd (cc)
plain-stable at now (e ∷ i ∷ []) c d h k = absurd (cc)
plain-stable at now (e ∷ i ∷ version ∷ jti) c d h k =
    sym (plain-claims now e i version jti d k) ∙ plain-claims at e i version jti c h

pub plain-Lawful : Lawful plain
plain-Lawful = record {
  verify_sign = λ s c at life now h. (
    plain_claims (at / 1000 + life) (or_zero c.id) (or_zero c.session_version) (or_empty c.jti),
    rw (lt→ltb (now / 1000) (at / 1000 + life) h) refl,
  );
  sign_some = λ s c at life h. absurd (cc);
  verify_stable = λ s at now token c d h k. plain-stable at now token c d h k;
}

abbrev pub operator : User
operator = record {
  id = 4;
  user_id = codes "kim";
  name = codes "Kim";
  role = codes "MANAGER";
  password_hash = codes "secret";
  is_active = true;
  session_version = 1;
  email = none;
  phone_number = none;
  last_login_at = none;
}
