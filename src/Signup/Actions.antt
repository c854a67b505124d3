-- ===== src/Signup/Actions.antt =====
-- What changes the signup requests and the codes, one after the other.
use lidar_dashboard.Prelude.{Option, List, [], ◌∷◌}
use lidar_dashboard.Prelude.Text.{Text}
use lidar_dashboard.Auth.Model.{Key, Time}
use lidar_dashboard.Codes.Model.{Server}
use lidar_dashboard.Codes.Calls.{Call, perform}
use lidar_dashboard.Signup.Maintenance.{run_signup_request_maintenance}
use lidar_dashboard.Signup.Requests.{SignupFields, create_signup_request}
use lidar_dashboard.Signup.Review.{approve_signup_request, reject_signup_request}

pub data Action : Type 0 where
  maintain : Time → Action
  create : SignupFields → Time → Action
  approve : Key → (reviewer : Key) → Time → Action
  reject : Key → (reviewer : Key) → Option Text → Time → Action
  code_call : Call → Action

unfoldable pub act : (Text → Text) → Server → Action → Server
act h s (maintain now) = run_signup_request_maintenance now s
act h s (create f now) = (create_signup_request h f now s).0
act h s (approve id reviewer now) = (approve_signup_request id reviewer now s).0
act h s (reject id reviewer reason now) = (reject_signup_request id reviewer reason now s).0
act h s (code_call c) = (perform c s).0

unfoldable pub act_all : (Text → Text) → Server → List Action → Server
act_all h s [] = s
act_all h s (a ∷ rest) = act_all h (act h s a) rest
