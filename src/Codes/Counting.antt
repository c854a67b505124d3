-- ===== src/Codes/Counting.antt =====
-- What a measure of the log comes to, against a weight that its calls lower.
use lidar_dashboard.Prelude.{
  ℕ, ◌+◌, ◌≤◌, ◌≡◌, inl, inr, Bool, true, false, ◌&&◌, Option, none, some, List, [], ◌∷◌, arith,
  ◌==◌, if◌then◌else◌, Bool-cases, Option-cases, get_elem?,
}
use lidar_dashboard.Prelude.Tables.{sum_by}
use lidar_dashboard.Auth.Model.{Key}
use lidar_dashboard.Accounts.Passwords.{Hashing}
use lidar_dashboard.Codes.Model.{EmailVerification, Server}
use lidar_dashboard.Codes.Calls.{Call, is_verification, perform}
use lidar_dashboard.Codes.Clients.{
  Client, finish, find_latest, find_verification, find_user, is_taken, write, compare, ResetTokens,
}
use lidar_dashboard.Codes.Run.{
  LogLine, called, compared, turn, World, Happening, arrive, go_on, elsewhere, used_up, happen, run,
}
use lidar_dashboard.Codes.Potential.{
  sum_by-append, sum_by-delete_by, IsWeight, weight, perform-weight,
}

-- The answer of a call that changed exactly one row.
abbrev pub one : Option ℕ → Bool
one none = false
one (some n) = n == 1

-- What a call and its answer count for.
abbrev pub count_of : (Call → Bool) → Call → Option ℕ → ℕ
count_of which c n = if which c && one n then 1 else 0

abbrev pub counted : (Call → Bool) → LogLine → ℕ
counted which (called c n before after) = count_of which c n
counted which (compared j) = 0

-- How many calls of a kind changed exactly one row.
abbrev pub times : (Call → Bool) → List LogLine → ℕ
times which log = sum_by (counted which) log

-- The line that a call leaves.
abbrev pub line_of : Call → Server → LogLine
line_of c s = called c (perform c s).1 s.database (perform c s).0.database

-- A measure of the lines that each call takes from the weight.
module _ (h : Hashing) (t : ResetTokens) (i : Key) (cap : ℕ) (f : EmailVerification → ℕ)
    (g : LogLine → ℕ) (w : IsWeight i cap f) (free : (j : Key) → g (compared j) ≡ 0)
    (lowers : (c : Call) (s : Server)
      → weight i cap f (perform c s).0 + g (line_of c s) ≤ weight i cap f s) where
  turn-counted :
      (c : Client) (s : Server)
      → weight i cap f (turn h c s).0 + sum_by g (turn h c s).2 ≤ weight i cap f s
  unfolding turn sum_by
  turn-counted (finish r) s = omega arith
  turn-counted (find_latest email purpose k) s = omega arith
  turn-counted (find_verification j k) s = omega arith
  turn-counted (find_user email k) s = omega arith
  turn-counted (is_taken email now k) s = omega arith
  turn-counted (compare j code hash k) s = omega (arith, free j)
  turn-counted (write c k) s = omega (arith, lowers c s)

  used_up-weight :
      (o : Option Key) (vs : List EmailVerification) → sum_by f (used_up o vs) ≤ sum_by f vs
  used_up-weight none vs = omega arith
  used_up-weight (some j) vs = sum_by-delete_by f (is_verification j) vs

  happen-counted :
      (x : World) (e : Happening)
      → weight i cap f (happen h t x e).server + sum_by g (happen h t x e).log
        ≤ weight i cap f x.server + sum_by g x.log
  unfolding happen
  happen-counted x (arrive a) = omega arith
  happen-counted x (elsewhere database requests used) =
      omega (arith, used_up-weight used x.server.verifications)
  happen-counted x (go_on place) = elim (Option-cases (get_elem? x.clients place)) [
    | inl e ↦ rw (e, happen) (omega arith)
    | inr (c, e) ↦
        rw (e, happen)
          (omega (arith, turn-counted c x.server, sum_by-append g x.log (turn h c x.server).2))
  ]

  pub run-counted :
      (x : World) (es : List Happening)
      → sum_by g (run h t x es).log ≤ weight i cap f x.server + sum_by g x.log
  unfolding run
  run-counted x [] = omega arith
  run-counted x (e ∷ es) = omega (arith, run-counted (happen h t x e) es, happen-counted x e)

-- Calls of one kind, each of which lowers the weight where it changes exactly one row.
pub call-counted :
    (i : Key) (cap : ℕ) (f : EmailVerification → ℕ) (which : Call → Bool)
    → IsWeight i cap f
    → ((c : Call) (s : Server)
        → which c ≡ true
        → weight i cap f (perform c s).0 + (if one (perform c s).1 then 1 else 0)
          ≤ weight i cap f s)
    → (c : Call) (s : Server)
    → weight i cap f (perform c s).0 + count_of which c (perform c s).1 ≤ weight i cap f s
call-counted i cap f which w lowers c s = elim (Bool-cases (which c)) [
  | inl e ↦ rw e (lowers c s e)
  | inr e ↦ rw e (omega (arith, perform-weight i cap f w c s))
]
