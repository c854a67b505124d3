-- ===== src/Accounts/Credentials.antt =====
-- What the accepted emails look like.
use mathlib.Core.List.{append-nil}
use lidar_dashboard.Prelude.{
  ℕ, ◌≤◌, ◌<◌, ◌≡◌, refl, ap, sym, ◌∙◌, ◌↔◌, true, List, [], ◌∷◌, ◌++◌, arith, ◌==◌, length,
}
use lidar_dashboard.Prelude.Text.{Text}
use lidar_dashboard.Prelude.Tables.{All}
use lidar_dashboard.Prelude.Patterns.{Piece, Match, matches-Match, Match-matches}
use lidar_dashboard.Accounts.Policy.{is_plain, once, one_or_more, email_pattern, is_email}

-- Letters other than white space and `@`, one at least.
abbrev pub IsWord : Text → Type 0
IsWord s = (0 < length s) × All (λ c. is_plain c ≡ true) s

-- What the expression for emails means.
abbrev pub IsEmail : Text → Type 0
IsEmail s =
    (local : Text) × (domain : Text) × (top : Text) × IsWord local
    × IsWord domain
    × IsWord top
    × (s ≡ local ++ b'@' ∷ (domain ++ b'.' ∷ top))

single :
    (k : ℕ) (s : Text) → All (λ c. (c == k) ≡ true) s → 1 ≤ length s → length s ≤ 1 → s ≡ k ∷ []
single k [] all least most = absurd (omega arith)
single k (c ∷ []) all least most = let e : c ≡ k = ground (arith, all.0) in rw e refl
single k (c ∷ d ∷ s) all least most = absurd (omega arith)

-- One piece of an expression that stands for one code unit.
single-Match :
    (k : ℕ) (ps : List Piece) (s : Text)
    → Match (once (λ c. c == k) ∷ ps) s
    → (back : Text) × (s ≡ k ∷ back) × Match ps back
single-Match k ps s (front, back, cut, all, least, most, m) =
    (back, cut ∙ ap (λ x. x ++ back) (single k front all least most), m)

join_parts :
    {s at rest dot end last : Text} (local domain top : Text)
    → s ≡ local ++ at
    → at ≡ b'@' ∷ rest
    → rest ≡ domain ++ dot
    → dot ≡ b'.' ∷ end
    → end ≡ top ++ last
    → last ≡ []
    → s ≡ local ++ b'@' ∷ (domain ++ b'.' ∷ top)
join_parts local domain top e e_1 e_2 e_3 e_4 e_5 =
    rw (e, e_1, e_2, e_3, e_4, e_5, append-nil top) refl

Match-IsEmail : (s : Text) → Match email_pattern s → IsEmail s
Match-IsEmail s (local, at, cut, all, least, most, m) =
    let (rest, cut_at, (domain, dot, cut_1, all_1, least_1, most_1, m_1)) =
      single-Match b'@' (one_or_more is_plain ∷ once (λ c. c == b'.') ∷ one_or_more is_plain ∷ [])
        at m in
    let (rest_1, cut_dot, (top, end, cut_2, all_2, least_2, most_2, m_2)) =
      single-Match b'.' (one_or_more is_plain ∷ []) dot m_1 in
    (
      local,
      domain,
      top,
      (least, all),
      (least_1, all_1),
      (least_2, all_2),
      join_parts local domain top cut cut_at cut_1 cut_dot cut_2 m_2,
    )

IsEmail-Match : (s : Text) → IsEmail s → Match email_pattern s
IsEmail-Match s (local, domain, top, w, w_1, w_2, cut) = (
  local,
  b'@' ∷ (domain ++ b'.' ∷ top),
  cut,
  w.1,
  w.0,
  tt,
  (
    b'@' ∷ [],
    domain ++ b'.' ∷ top,
    refl,
    (refl, tt),
    omega arith,
    omega arith,
    (
      domain,
      b'.' ∷ top,
      refl,
      w_1.1,
      w_1.0,
      tt,
      (
        b'.' ∷ [],
        top,
        refl,
        (refl, tt),
        omega arith,
        omega arith,
        (top, [], sym (append-nil top), w_2.1, w_2.0, tt, refl),
      ),
    ),
  ),
)

-- An email is accepted exactly where it is a word, an `@`, a word, a dot and a word.
pub is_email-IsEmail : (s : Text) → (is_email s ≡ true) ↔ IsEmail s
unfolding is_email
is_email-IsEmail s = (
  (λ h. Match-IsEmail s (matches-Match email_pattern s h)),
  (λ w. Match-matches email_pattern s (IsEmail-Match s w)),
)
