-- ===== src/Signup/Listing.antt =====
-- `listSignupRequests` of dashboard/server/src/domains/signup-requests/signupRequests.service.js.
-- Rows of the same `createdAt` come in an order that the database is free to choose; here the later
-- row of the table comes first.
use lidar_dashboard.Prelude.{
  ℕ, ◌+◌, ◌-◌, ◌*◌, ◌/◌, Bool, true, ◌&&◌, Option, none, some, List, [], ◌∷◌, map, leb, ltb, ◌==◌,
  length, if◌then◌else◌, take, drop,
}
use lidar_dashboard.Prelude.Text.{Text, codes, text_eq, trim, to_upper}
use lidar_dashboard.Auth.Model.{Time}
use lidar_dashboard.Auth.Sessions.{is_blank}
use lidar_dashboard.Accounts.Policy.{is_digit, once}
use lidar_dashboard.Prelude.Patterns.{Piece, matches}
use lidar_dashboard.Accounts.Reply.{Reply, ok, http_error, ◌>>=◌}
use lidar_dashboard.Codes.Model.{
  SignupStatus, pending, approved, rejected, expired, SignupRequest, Server, same_status,
}
use lidar_dashboard.Signup.Maintenance.{run_signup_request_maintenance}
use lidar_dashboard.Signup.Requests.{serialize_signup_request}

abbrev pub default_list_limit : ℕ
default_list_limit = 20

abbrev pub max_list_limit : ℕ
max_list_limit = 100

-- [1-9]\\d*
abbrev pub positive_pattern : List Piece
positive_pattern =
    once (λ c. leb b'1' c && leb c b'9') ∷ record { class = is_digit; least = 0; most = none } ∷ []

abbrev pub decimal : ℕ → Text → ℕ
decimal n [] = n
decimal n (c ∷ s) = decimal (10 * n + (c - b'0')) s

-- A query value is `none` where it is missing or null.
unfoldable pub parse_positive_integer : Option Text → ℕ → Reply ℕ
parse_positive_integer none fallback = ok fallback
parse_positive_integer (some t) fallback =
    if is_blank t
    then ok fallback
    else if matches positive_pattern (trim t)
    then ok (decimal 0 (trim t))
    else http_error 400

abbrev pub status_of : Text → Reply (Option SignupStatus)
status_of t =
    if is_blank t
    then ok none
    else if text_eq t (codes "PENDING")
    then ok (some pending)
    else if text_eq t (codes "APPROVED")
    then ok (some approved)
    else if text_eq t (codes "REJECTED")
    then ok (some rejected)
    else if text_eq t (codes "EXPIRED")
    then ok (some expired)
    else http_error 400

-- `String(status || "").trim().toUpperCase()`.
unfoldable pub status_filter : Option Text → Reply (Option SignupStatus)
status_filter none = ok none
status_filter (some t) = status_of (to_upper (trim t))

abbrev pub wanted : Option SignupStatus → SignupRequest → Bool
wanted none r = true
wanted (some s) r = same_status r.status s

-- `orderBy: { createdAt: "desc" }`.
unfoldable pub insert_request : SignupRequest → List SignupRequest → List SignupRequest
insert_request r [] = r ∷ []
insert_request r (x ∷ xs) =
    let rest = insert_request r xs in if ltb x.created_at r.created_at then r ∷ x ∷ xs else x ∷ rest

-- `where` and `orderBy`.
unfoldable pub newest_first : (SignupRequest → Bool) → List SignupRequest → List SignupRequest
newest_first p [] = []
newest_first p (r ∷ rs) =
    let rest = newest_first p rs in if p r then insert_request r rest else rest

abbrev pub smaller : ℕ → ℕ → ℕ
smaller a b = if leb a b then a else b

-- `Math.max(1, Math.ceil(count / limit))`.
abbrev pub total_pages_of : ℕ → ℕ → ℕ
total_pages_of count limit = if count == 0 then 1 else (count + (limit - 1)) / limit

-- `skip` and `take`.
abbrev pub page_of : (page limit : ℕ) → List SignupRequest → List SignupRequest
page_of page limit rows = take limit (drop ((page - 1) * limit) rows)

pub record Listed : Type 0 where
  pub count : ℕ
  pub page : ℕ
  pub limit : ℕ
  pub total_pages : ℕ
  pub requests : List SignupRequest

unfoldable pub list_page : List SignupRequest → (page limit : ℕ) → Listed
list_page rows page limit =
    let pages = total_pages_of (length rows) limit in
    record {
      count = length rows;
      page = smaller page pages;
      limit = limit;
      total_pages = pages;
      requests = map serialize_signup_request (page_of (smaller page pages) limit rows);
    }

unfoldable pub list_signup_requests :
    (status page limit : Option Text) → Time → Server → Server × Reply Listed
list_signup_requests status page limit now s =
    let s_1 = run_signup_request_maintenance now s in
    (
      s_1,
      do
        normalized_page ← parse_positive_integer page 1
        requested_limit ← parse_positive_integer limit default_list_limit
        filter ← status_filter status
        ok (
            list_page (newest_first (wanted filter) s_1.signup_requests) normalized_page
              (smaller requested_limit max_list_limit)),
    )
