-- ===== src/Accounts/Ended.antt =====
-- What ends when a user is left_user or gets a new password.
use mathlib.Core.Path.{subst}
use lidar_dashboard.Prelude.{
  ℕ, suc, ◌<◌, ◌≡◌, ◌≢◌, refl, sym, ◌∙◌, ◌⊎◌, inl, inr, Bool, true, false, none, some, [], ◌∷◌,
  ◌==◌, arith, Bool-cases, if◌then◌else◌,
}
use lidar_dashboard.Prelude.Text.{Text}
use lidar_dashboard.Prelude.Tables.{find_by-append, count_by}
use lidar_dashboard.Auth.Model.{Key, Time, User, Tables, Library, Lawful}
use lidar_dashboard.Auth.Sessions.{has_id, authenticate_token, live_of, revoked}
use lidar_dashboard.Auth.SessionEnd.{user_at, Newer, outdated}
use lidar_dashboard.Auth.ClaimedUser.{
  claimed_user-Claimed, authenticate_token-claims, authenticate_token-none,
}
use lidar_dashboard.Auth.RefreshTokens.{count_by-taken_out, live_again}
use lidar_dashboard.Accounts.Model.{Database}
use lidar_dashboard.Accounts.Reply.{Reply}
use lidar_dashboard.Accounts.Passwords.{Hashing}
use lidar_dashboard.Accounts.Routes.{Body, UserRequest, handle}
use lidar_dashboard.Accounts.Outcome.{
  Alters, with_user_altered, Outcome, refused, read, added, altered,
}
use lidar_dashboard.Accounts.Rows.{found_id, user_at-altered, user_at-other}
use lidar_dashboard.Accounts.Moves.{Moves, Moves-Newer}
use lidar_dashboard.Accounts.Refines.{handle-Outcome}

-- A user has left or has a new password.
abbrev pub IsReset : User → User → Type 0
IsReset u v = ((u.is_active ≡ true) × (v.is_active ≡ false)) ⊎ (v.password_hash ≢ u.password_hash)

-- What holds of a user whose sessions were ended.
record IsEnded (id : Key) (u v : User) (after : Tables) : Type 0 where
  pub newer : u.session_version < v.session_version
  pub no_tokens : count_by (live_of id) after.refresh_tokens ≡ 0

some_injective : {u v : User} → some u ≡ some v → u ≡ v
some_injective h = cc

not_reset : (u : User) → IsReset u u → ⊥
not_reset u (inl (on, off)) = absurd (cc)
not_reset u (inr other) = other refl

-- An alteration after which a user is reset has ended the sessions.
reset_ends :
    (ends : Bool) (existing : User) (f : User → User) (requester : User) (db : Tables) (id : Key)
    → Alters requester db id existing f ends
    → IsReset existing (f existing)
    → ends ≡ true
reset_ends true existing f requester db id a r = refl
reset_ends false existing f requester db id a (inl (on, off)) = a.left on off
reset_ends false existing f requester db id a (inr other) =
    absurd (other (a.kept_password refl existing))

raised : (ends : Bool) (m n : ℕ) → n ≡ (if ends then suc m else m) → ends ≡ true → m < n
raised true m n e over = omega (arith, e)
raised false m n e over = absurd (cc)

same_key : (i j : Key) → (i == j) ≡ true → i ≡ j
same_key i j h = ground arith

altered-IsEnded :
    (requester : User) (db : Tables) (now : Time) (id : Key) (existing : User) (f : User → User)
    (ends : Bool)
    → Alters requester db id existing f ends
    → IsReset existing (f existing)
    → IsEnded id existing (f existing) (with_user_altered db id f ends now)
altered-IsEnded requester db now id existing f ends a r =
    let over = reset_ends ends existing f requester db id a r in
    record {
      newer =
          raised ends existing.session_version (f existing).session_version (a.version existing)
            over;
      no_tokens =
          rw over
            (count_by-taken_out (live_of id) (revoked now) (live_again id now) db.refresh_tokens);
    }

Outcome-IsEnded :
    {requester : User} {db : Database} {now : Time} {after : Database} {reply : Reply Body}
    → Outcome requester db now after reply
    → (i : Key) (u v : User) → user_at i db.tables ≡ some u
    → user_at i after.tables ≡ some v
    → IsReset u v
    → IsEnded i u v after.tables
Outcome-IsEnded (refused n) i u v h k r =
    absurd (not_reset u (subst (IsReset u) (some_injective (sym k ∙ h)) r))
Outcome-IsEnded (read b) i u v h k r =
    absurd (not_reset u (subst (IsReset u) (some_injective (sym k ∙ h)) r))
Outcome-IsEnded {db} (added w log b may role apart by) i u v h k r = absurd (
    not_reset u (
      subst (IsReset u)
        (some_injective (sym k ∙ find_by-append (has_id i) db.tables.users (w ∷ []) u h)) r))
Outcome-IsEnded {requester} {db} {now} (altered id existing f ends log b a by) i u v h k r =
    elim (Bool-cases (u.id == id)) [
      | inr e ↦ absurd (
          not_reset u (
            subst (IsReset u)
              (some_injective (sym k ∙ user_at-other db.tables id f ends now a.same_id i u h e)) r))
      | inl e ↦
          let same : id ≡ i = sym (same_key u.id id e) ∙ found_id db.tables i u h in
          let was : existing ≡ u =
            some_injective (sym a.found ∙ subst (λ j. user_at j db.tables ≡ some u) (sym same) h) in
          let is : f existing ≡ v = some_injective (
            sym (user_at-altered db.tables id f ends now a.same_id existing a.found)
            ∙ subst (λ j. user_at j (with_user_altered db.tables id f ends now) ≡ some v) (sym same)
                k) in
          let reset : IsReset existing (f existing) =
            subst (λ x. IsReset x (f existing)) (sym was) (subst (λ x. IsReset u x) (sym is) r) in
          let after = with_user_altered db.tables id f ends now in
          subst (λ x. IsEnded x u v after) same
            (subst (λ x. IsEnded id x v after) was
              (subst (λ x. IsEnded id existing x after) is
                (altered-IsEnded requester db.tables now id existing f ends a reset)))
    ]

handle-IsEnded :
    (l : Library) (h : Hashing) (db : Database) (by : Text) (now : Time) (r : UserRequest) (i : Key)
    (u v : User)
    → user_at i db.tables ≡ some u
    → user_at i (handle l h db by now r).0.tables ≡ some v
    → IsReset u v
    → IsEnded i u v (handle l h db by now r).0.tables
handle-IsEnded l h db by now r i u v e k reset = elim (handle-Outcome l h db by now r) [
  | inl same ↦
      let there = subst (λ x. user_at i x.0.tables ≡ some v) same k in
      absurd (not_reset u (subst (IsReset u) (some_injective (sym there ∙ e)) reset))
  | inr (requester, let_in, o) ↦ Outcome-IsEnded o i u v e k reset
]

-- Where a request makes a user inactive or changes the password hash, whoever sent it, no refresh
-- token of the user is left that is not revoked, and a header that was let through for the user
-- before is refused from then on, whatever logins, logouts and requests follow.
pub handle-authenticate_token :
    (l : Library) (lawful : Lawful l) (h : Hashing) (db later : Database) (header by : Text)
    (at now then_at : Time) (r : UserRequest) (u v : User)
    → authenticate_token l db.tables header at ≡ some u
    → user_at u.id (handle l h db by now r).0.tables ≡ some v
    → IsReset u v
    → Moves l h (handle l h db by now r).0 later
    → (count_by (live_of u.id) (handle l h db by now r).0.tables.refresh_tokens ≡ 0)
      × (authenticate_token l later.tables header then_at ≡ none)
handle-authenticate_token l lawful h db later header by at now then_at r u v e k reset m =
    let (token, c, e_1, e_2, claimed) = authenticate_token-claims l db.tables header at u e in
    let stands = claimed_user-Claimed db.tables c u claimed in
    let over = handle-IsEnded l h db by now r u.id u v stands.found k reset in
    let newer : Newer (some v) (user_at u.id later.tables) =
      subst (λ o. Newer o (user_at u.id later.tables)) k (Moves-Newer u.id m) in
    (
      over.no_tokens,
      authenticate_token-none l lawful later.tables header token at then_at c e_1 e_2 (
          outdated later.tables c u.id u.session_version stands.id stands.version (λ w q.
            let older : Newer (some v) (some w) = subst (Newer (some v)) q newer in
            omega (arith, over.newer))),
    )
