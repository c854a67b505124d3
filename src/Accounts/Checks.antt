-- ===== src/Accounts/Checks.antt =====
-- What the checks of an update have made sure of where they let it through.
use mathlib.Core.Path.{subst}
use lidar_dashboard.Prelude.{
  ◌≡◌, refl, sym, ap, ◌∙◌, ◌⊎◌, inl, inr, Bool, true, false, not, ◌&&◌, Option, none, some, arith,
  ◌==◌, Bool-cases,
}
use lidar_dashboard.Prelude.Text.{Text, codes, text_eq, text_eq→≡, trim, to_lower}
use lidar_dashboard.Auth.Model.{Key, User}
use lidar_dashboard.Auth.Sessions.{is_blank}
use lidar_dashboard.Accounts.Reply.{ok, >>=-ok, throw_if->>-ok, ok_injective}
use lidar_dashboard.Accounts.Fields.{
  super_admin, manager, normalize_role_input, allowed_role, given_role, validate_email,
  validate_phone_number,
}
use lidar_dashboard.Accounts.Users.{UserFields}
use lidar_dashboard.Accounts.Updates.{
  UserChanges, new_user_id, new_name, new_column, new_role, new_active, user_changes, or_old,
  same_flag,
}

abbrev pub IsAllowed : Text → Type 0
IsAllowed role = (role ≡ super_admin) ⊎ (role ≡ manager)

allowed_role-IsAllowed : (t role : Text) → allowed_role t ≡ ok role → IsAllowed role
allowed_role-IsAllowed t role h = elim (Bool-cases (text_eq t super_admin)) [
  | inl e ↦ (let j = rw e at h in inl (sym (ok_injective j) ∙ text_eq→≡ t super_admin e))
  | inr e ↦ elim (Bool-cases (text_eq t manager)) [
    | inl k ↦ (let j = rw (e, k) at h in inr (sym (ok_injective j) ∙ text_eq→≡ t manager k))
    | inr k ↦ (let j = rw (e, k) at h in absurd (cc))
  ]
]

pub normalize_role_input-IsAllowed :
    (o : Option Text) (role : Text) → normalize_role_input o ≡ ok role → IsAllowed role
unfolding normalize_role_input
normalize_role_input-IsAllowed o role h = allowed_role-IsAllowed (given_role o) role h

-- The role that an update sets, where it sets one.
new_role-parts :
    (is_self : Bool) (existing : User) (t : Text) (r : Option Text)
    → new_role is_self existing (some t) ≡ ok r
    → (role : Text) × (r ≡ some role) × IsAllowed role × (is_self ≡ true → role ≡ existing.role)
unfolding new_role
new_role-parts is_self existing t r h = elim (Bool-cases (is_blank (trim t))) [
  | inl e ↦ (let j = rw (e, new_role) at h in absurd (cc))
  | inr e ↦
      let (role, k, m) = >>=-ok (normalize_role_input (some t)) _ r (rw (e, new_role) at h) in
      let (test, n) =
        throw_if->>-ok (is_self && not (text_eq role existing.role)) 403 (ok (some role)) r m in
      (
        role,
        sym (ok_injective n),
        normalize_role_input-IsAllowed (some t) role k,
        λ self. text_eq→≡ role existing.role (ground arith),
      )
]

pub new_role-IsAllowed :
    (is_self : Bool) (existing : User) (o r : Option Text) (old : Text)
    → new_role is_self existing o ≡ ok r
    → IsAllowed old
    → IsAllowed (or_old r old)
unfolding new_role
new_role-IsAllowed is_self existing none r old h k = rw (sym (ok_injective h)) k
new_role-IsAllowed is_self existing (some t) r old h k =
    let (role, e, allowed, own) = new_role-parts is_self existing t r h in rw e allowed

new_role-own :
    (is_self : Bool) (existing : User) (o r : Option Text)
    → new_role is_self existing o ≡ ok r
    → is_self ≡ true
    → or_old r existing.role ≡ existing.role
unfolding new_role
new_role-own is_self existing none r h self = rw (sym (ok_injective h)) refl
new_role-own is_self existing (some t) r h self =
    let (role, e, allowed, own) = new_role-parts is_self existing t r h in rw e (own self)

same_flag→≡ : (a b : Bool) → same_flag a b ≡ true → a ≡ b
same_flag→≡ a b h = ground arith

new_active-own :
    (is_self : Bool) (existing : User) (o r : Option Bool)
    → new_active is_self existing o ≡ ok r
    → is_self ≡ true
    → or_old r existing.is_active ≡ existing.is_active
unfolding new_active
new_active-own is_self existing none r h self = rw (sym (ok_injective h)) refl
new_active-own is_self existing (some b) r h self =
    let (test, n) =
      throw_if->>-ok (is_self && not (same_flag b existing.is_active)) 403 (ok (some b)) r h in
    rw (sym (ok_injective n)) (same_flag→≡ b existing.is_active (ground arith))

other_may : (a b : Bool) → (not a && not b) ≡ false → a ≡ false → b ≡ true
other_may a b h e = ground arith

-- What an update that passes its checks may be.
pub record Checked (id : Key) (existing : User) (requester : Key) (role : Text) (d : UserChanges)
    : Type 0 where
  pub may : (requester == id) ≡ false → text_eq (to_lower role) (codes "super_admin") ≡ true
  pub own_role : (requester == id) ≡ true → or_old d.role existing.role ≡ existing.role
  pub own_active :
      (requester == id) ≡ true → or_old d.is_active existing.is_active ≡ existing.is_active
  pub allowed : (old : Text) → IsAllowed old → IsAllowed (or_old d.role old)

pub user_changes-Checked :
    (id : Key) (existing : User) (f : UserFields) (requester : Key) (role : Text) (d : UserChanges)
    → user_changes id existing f requester role ≡ ok d
    → Checked id existing requester role d
unfolding user_changes
user_changes-Checked id existing f requester role d h =
    let (may, h_1) =
      throw_if->>-ok (not (requester == id) && not (text_eq (to_lower role) (codes "super_admin")))
        403 _ d h in
    let (a, e_1, h_2) = >>=-ok (new_user_id existing f.user_id) _ d h_1 in
    let (b, e_2, h_3) = >>=-ok (new_name f.name) _ d h_2 in
    let (c, e_3, h_4) = >>=-ok (new_column validate_email f.email) _ d h_3 in
    let (g, e_4, h_5) = >>=-ok (new_column validate_phone_number f.phone_number) _ d h_4 in
    let (r, e_5, h_6) = >>=-ok (new_role (requester == id) existing f.role) _ d h_5 in
    let (active, e_6, h_7) = >>=-ok (new_active (requester == id) existing f.is_active) _ d h_6 in
    let h_8 = ok_injective (throw_if->>-ok _ 400 (ok _) d h_7).1 in
    let same : r ≡ d.role = ap (λ x. x.role) h_8 in
    let same_active : active ≡ d.is_active = ap (λ x. x.is_active) h_8 in
    record {
      may = λ e. other_may (requester == id) _ may e;
      own_role = λ e.
          subst (λ o. or_old o existing.role ≡ existing.role) same
            (new_role-own (requester == id) existing f.role r e_5 e);
      own_active = λ e.
          subst (λ o. or_old o existing.is_active ≡ existing.is_active) same_active
            (new_active-own (requester == id) existing f.is_active active e_6 e);
      allowed = λ old k.
          subst (λ o. IsAllowed (or_old o old)) same
            (new_role-IsAllowed (requester == id) existing f.role r old e_5 k);
    }
