-- ===== src/Accounts/Refines/Management.antt =====
-- The creation, the update and the deactivation of users keep to what the routes promise.
use mathlib.Core.Path.{subst}
use lidar_dashboard.Prelude.{
  ◌≡◌, refl, ap, inl, inr, Bool, true, false, not, ◌&&◌, ◌||◌, Option, none, some, ◌==◌, arith,
  Bool-cases, Option-cases,
}
use lidar_dashboard.Prelude.Text.{Text}
use lidar_dashboard.Prelude.Tables.{any_by}
use lidar_dashboard.Auth.Model.{Key, Time, User, Tables}
use lidar_dashboard.Auth.SessionEnd.{user_at}
use lidar_dashboard.Accounts.Reply.{ok, >>=-ok, throw_if->>-ok, ok_injective, Reply-cases}
use lidar_dashboard.Accounts.Model.{Database}
use lidar_dashboard.Accounts.Fields.{
  validate_user_id, validate_email, validate_phone_number, validate_password_policy,
  normalize_role_input, is_blank_field, field_text, or_null,
}
use lidar_dashboard.Accounts.Users.{clash, user_data, create_user, UserFields}
use lidar_dashboard.Accounts.Updates.{
  user_changes, ends_user, updated_user, left_user, commit_update, update_user, deactivate_user,
  UserChanges, or_old,
}
use lidar_dashboard.Accounts.Routes.{answer_user}
use lidar_dashboard.Accounts.Checks.{
  IsAllowed, normalize_role_input-IsAllowed, Checked, user_changes-Checked,
}
use lidar_dashboard.Accounts.Rows.{found_id}
use lidar_dashboard.Accounts.Outcome.{MayManage, Alters, refused, added, altered, Gives}

-- The columns of a new user that the checks decide.
user_data-parts :
    (hash_password : Text → Text) (new_id : Key) (f : UserFields) (u : User)
    → user_data hash_password new_id f ≡ ok u
    → IsAllowed u.role
unfolding user_data
user_data-parts hash_password new_id f u h =
    let (blank, h_1) =
      throw_if->>-ok
        (is_blank_field f.user_id || is_blank_field f.name || is_blank_field f.password) 400 _ u
        h in
    let (a, e_1, h_2) = >>=-ok (validate_password_policy f.password) _ u h_1 in
    let (b, e_2, h_3) = >>=-ok (validate_user_id (field_text f.user_id)) _ u h_2 in
    let (c, e_3, h_4) = >>=-ok (or_null validate_email f.email) _ u h_3 in
    let (d, e_4, h_5) = >>=-ok (or_null validate_phone_number f.phone_number) _ u h_4 in
    let (role, e_5, h_6) = >>=-ok (normalize_role_input f.role) _ u h_5 in
    subst IsAllowed (ap (λ x. x.role) (ok_injective h_6))
      (normalize_role_input-IsAllowed f.role role e_5)

pub create_user-Gives :
    (hash_password : Text → Text) (new_id : Key) (db : Database) (f : UserFields) (requester : User)
    (now : Time)
    → MayManage requester
    → Gives requester db now (answer_user (create_user hash_password new_id db f requester.id))
unfolding create_user
create_user-Gives hash_password new_id db f requester now may =
    elim (Reply-cases (user_data hash_password new_id f)) [
      | inr (n, e) ↦ rw (e, create_user) (refused n)
      | inl (u, e) ↦ elim (Bool-cases (any_by (λ v. v.id == u.id || clash u v) db.tables.users)) [
        | inl k ↦ rw (e, k, create_user) (refused 409)
        | inr k ↦
            rw (e, k, create_user)
              (added u _ _ may (user_data-parts hash_password new_id f u e) k (refl, refl))
      ]
    ]

-- Where the sessions end at an update.
abbrev turns_off : Bool → Option Bool → Bool
turns_off a o = a && elim o [ none ↦ false | some b ↦ not b ]

turns_off-own : (a : Bool) (o : Option Bool) → turns_off a o ≡ true → or_old o a ≡ a → false ≡ a
turns_off-own a none h k = absurd (ground arith)
turns_off-own a (some true) h k = absurd (ground arith)
turns_off-own a (some false) h k = k

turns_off-left :
    (a : Bool) (o : Option Bool)
    → turns_off a o ≡ false
    → a ≡ true
    → or_old o a ≡ false
    → false ≡ true
turns_off-left a none h k m = cc
turns_off-left a (some true) h k m = cc
turns_off-left a (some false) h k m = ground arith

update-Alters :
    (requester existing : User) (db : Tables) (id : Key) (d : UserChanges)
    → user_at id db ≡ some existing
    → Checked id existing requester.id requester.role d
    → Alters requester db id existing (updated_user (ends_user existing d) d) (ends_user existing d)
update-Alters requester existing db id d found c = elim (Bool-cases (ends_user existing d)) [
  | inl e ↦ rw e (record {
    found = found;
    other = λ k. inr (c.may k);
    own_role = λ k. c.own_role k;
    own_active = λ k. turns_off-own existing.is_active d.is_active e (c.own_active k);
    same_id = λ u. refl;
    allowed = λ u k. c.allowed u.role k;
    version = λ u. refl;
    left = λ k m. refl;
    kept_password = λ k. absurd (cc);
  })
  | inr e ↦ rw e (record {
    found = found;
    other = λ k. inr (c.may k);
    own_role = λ k. c.own_role k;
    own_active = λ k. c.own_active k;
    same_id = λ u. refl;
    allowed = λ u k. c.allowed u.role k;
    version = λ u. refl;
    left = λ k m. turns_off-left existing.is_active d.is_active e k m;
    kept_password = λ k u. refl;
  })
]

pub update_user-Gives :
    (db : Database) (id : Key) (f : UserFields) (requester : User) (now : Time)
    → Gives requester db now (answer_user (update_user db id f requester.id requester.role now))
unfolding update_user commit_update
update_user-Gives db id f requester now = elim (Option-cases (user_at id db.tables)) [
  | inl e ↦ rw (e, update_user) (refused 404)
  | inr (existing, e) ↦
      elim (Reply-cases (user_changes id existing f requester.id requester.role)) [
        | inr (n, k) ↦ rw (e, k, update_user) (refused n)
        | inl (d, k) ↦
            elim (Bool-cases (
              any_by
                (λ v. not (v.id == id) && clash (updated_user (ends_user existing d) d existing) v)
                db.tables.users)) [
                  | inl m ↦ rw (e, k, update_user, m, commit_update) (refused 409)
                  | inr m ↦
                      rw (e, k, update_user, m, commit_update)
                        (altered id existing (updated_user (ends_user existing d) d)
                          (ends_user existing d) _ _
                          (update-Alters requester existing db.tables id d e
                            (user_changes-Checked id existing f requester.id requester.role d k))
                          (refl, found_id db.tables id existing e))
                ]
      ]
]

pub deactivate_user-Gives :
    (db : Database) (id : Key) (requester : User) (now : Time)
    → MayManage requester
    → Gives requester db now (answer_user (deactivate_user db id requester.id now))
unfolding deactivate_user
deactivate_user-Gives db id requester now may = elim (Option-cases (user_at id db.tables)) [
  | inl e ↦ rw (e, deactivate_user) (refused 404)
  | inr (existing, e) ↦ elim (Bool-cases (requester.id == id)) [
    | inl k ↦ rw (e, k, deactivate_user) (refused 403)
    | inr k ↦
        rw (e, k, deactivate_user)
          (altered id existing left_user true _ _
            (record {
              found = e;
              other = λ m. may;
              own_role = λ m. refl;
              own_active = λ m. absurd (cc);
              same_id = λ u. refl;
              allowed = λ u m. m;
              version = λ u. refl;
              left = λ m p. refl;
              kept_password = λ m. absurd (cc);
            })
            (refl, found_id db.tables id existing e))
  ]
]
