-- ===== src/Signup/Pages.antt =====
-- The pages of the list of signup requests.
use lidar_dashboard.Prelude.{
  ◌↔◌, Bool, true, ◌&&◌, ℕ, zero, suc, ◌≤◌, ◌<◌, ◌≡◌, Option, none, List, [], ◌++◌, map,
}
use lidar_dashboard.Prelude.Text.{Text}
use lidar_dashboard.Prelude.Tables.{All, count_by}
use lidar_dashboard.Codes.Model.{SignupStatus, SignupRequest}
use lidar_dashboard.Signup.Newest.{IsNewestFirst, HasStatus}
use lidar_dashboard.Signup.Listing.{wanted, Listed, list_page}

-- The first `n` pages, one after the other.
abbrev pub pages_up_to : ℕ → ℕ → List SignupRequest → List SignupRequest
pages_up_to zero limit rows = []
pages_up_to (suc n) limit rows = pages_up_to n limit rows ++ (list_page rows (suc n) limit).requests

-- A request as it is shown.
abbrev pub without_hash : SignupRequest → SignupRequest
without_hash r = record r { password_hash = none }

-- What an answer is of.
pub record IsPageOf (filter : Option SignupStatus) (requests : List SignupRequest) (a : Listed)
    : Type 0 where
  pub limited : (0 < a.limit) × (a.limit ≤ 100)
  pub hidden : All (λ r. r.password_hash ≡ none) a.requests
  pub rows : List SignupRequest
  pub newest : IsNewestFirst rows
  pub asked : (r : SignupRequest) → (wanted filter r ≡ true) ↔ HasStatus filter r
  pub each_once :
      (q : SignupRequest → Bool) → count_by q rows ≡ count_by (λ r. wanted filter r && q r) requests
  pub all : pages_up_to a.total_pages a.limit rows ≡ map without_hash rows
  pub here : (page : ℕ) × (a ≡ list_page rows page a.limit)
