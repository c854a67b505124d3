-- ===== src/Accounts/Refines/Passwords.antt =====
-- The change and the reset of a password keep to what the routes promise.
use lidar_dashboard.Prelude.{
  ◌≡◌, refl, ap, ◌∙◌, inl, inr, true, false, not, ◌||◌, Option, some, ◌==◌, arith, Option-cases,
}
use lidar_dashboard.Prelude.Text.{Text, text_eq}
use lidar_dashboard.Auth.Model.{Key, Time, User, Tables}
use lidar_dashboard.Auth.SessionEnd.{user_at}
use lidar_dashboard.Accounts.Reply.{ok, >>=-ok, throw_if->>-ok, ok_injective, Reply-cases}
use lidar_dashboard.Accounts.Model.{Database}
use lidar_dashboard.Accounts.Fields.{validate_password_policy, is_blank_field, field_text}
use lidar_dashboard.Accounts.Passwords.{
  Hashing, changed_password, reset_password, with_password, set_password, update_user_password,
  reset_user_password,
}
use lidar_dashboard.Accounts.Routes.{answer_user}
use lidar_dashboard.Accounts.Outcome.{MayManage, Alters, refused, altered, Gives}

-- A transaction that sets a password.
password-Alters :
    (requester existing : User) (db : Tables) (id : Key) (hash : Text)
    → user_at id db ≡ some existing
    → ((requester.id == id) ≡ false → MayManage requester)
    → Alters requester db id existing (with_password hash) true
password-Alters requester existing db id hash found other = record {
  found = found;
  other = other;
  own_role = λ m. refl;
  own_active = λ m. refl;
  same_id = λ u. refl;
  allowed = λ u m. m;
  version = λ u. refl;
  left = λ m p. refl;
  kept_password = λ m. absurd (cc);
}

changed_password-found :
    (h : Hashing) (db : Database) (id requester : Key) (current new : Option Text) (u : User)
    (p : Text)
    → changed_password h db id requester current new ≡ ok (u, p)
    → ((requester == id) ≡ true) × (user_at id db.tables ≡ some u)
unfolding changed_password
changed_password-found h db id requester current new u p k =
    let (a, k_1) = throw_if->>-ok (not (requester == id)) 403 _ (u, p) k in
    let (b, k_2) = throw_if->>-ok (is_blank_field current || is_blank_field new) 400 _ (u, p) k_1 in
    let (c, e, k_3) = >>=-ok (validate_password_policy new) _ (u, p) k_2 in
    let (d, k_4) = throw_if->>-ok (text_eq (field_text current) c) 400 _ (u, p) k_3 in
    let same : (requester == id) ≡ true = ground (arith, a) in
    elim (Option-cases (user_at id db.tables)) [
      | inl m ↦ (let j = rw m at k_4 in absurd (cc))
      | inr (v, m) ↦
          let j = rw m at k_4 in
          let (d_1, k_5) =
            throw_if->>-ok (not (h.compare_password (field_text current) v.password_hash)) 400
              (ok (v, c)) (u, p) j in
          (same, m ∙ ap (λ x. some x.0) (ok_injective k_5))
    ]

reset_password-found :
    (h : Hashing) (db : Database) (id requester : Key) (new : Option Text) (u : User) (p : Text)
    → reset_password h db id requester new ≡ ok (u, p)
    → user_at id db.tables ≡ some u
unfolding reset_password
reset_password-found h db id requester new u p k =
    let (a, k_1) = throw_if->>-ok (requester == id) 400 _ (u, p) k in
    let (c, e, k_2) = >>=-ok (validate_password_policy new) _ (u, p) k_1 in
    elim (Option-cases (user_at id db.tables)) [
      | inl m ↦ (let j = rw m at k_2 in absurd (cc))
      | inr (v, m) ↦
          let j = rw m at k_2 in
          let (d_1, k_3) = throw_if->>-ok (not v.is_active) 400 _ (u, p) j in
          let (d_2, k_4) =
            throw_if->>-ok (h.compare_password c v.password_hash) 400 (ok (v, c)) (u, p) k_3 in
          m ∙ ap (λ x. some x.0) (ok_injective k_4)
    ]

pub update_user_password-Gives :
    (h : Hashing) (db : Database) (id : Key) (requester : User) (current new : Option Text)
    (now : Time)
    → Gives requester db now
        (answer_user (update_user_password h db id requester.id current new now))
unfolding update_user_password set_password
update_user_password-Gives h db id requester current new now =
    elim (Reply-cases (changed_password h db id requester.id current new)) [
      | inr (n, e) ↦ rw (e, update_user_password) (refused n)
      | inl ((u, p), e) ↦
          let (self, found) = changed_password-found h db id requester.id current new u p e in
          rw (e, update_user_password)
            (altered id u (with_password (h.hash_password p)) true _ _
              (password-Alters requester u db.tables id (h.hash_password p) found
                (λ k. absurd (cc)))
              (refl, refl))
    ]

pub reset_user_password-Gives :
    (h : Hashing) (db : Database) (id : Key) (requester : User) (new : Option Text) (now : Time)
    → MayManage requester
    → Gives requester db now (answer_user (reset_user_password h db id requester.id new now))
unfolding reset_user_password set_password
reset_user_password-Gives h db id requester new now may =
    elim (Reply-cases (reset_password h db id requester.id new)) [
      | inr (n, e) ↦ rw (e, reset_user_password) (refused n)
      | inl ((u, p), e) ↦
          rw (e, reset_user_password)
            (altered id u (with_password (h.hash_password p)) true _ _
              (password-Alters requester u db.tables id (h.hash_password p)
                (reset_password-found h db id requester.id new u p e) (λ k. may))
              (refl, refl))
    ]
