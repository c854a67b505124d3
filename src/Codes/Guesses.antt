-- ===== src/Codes/Guesses.antt =====
-- The codes that are compared with the code of a verification, against the attempts taken.
use mathlib.Core.Path.{subst}
use lidar_dashboard.Prelude.{
  ℕ, zero, suc, ◌+◌, ◌-◌, ◌≤◌, ◌≡◌, inl, inr, some, List, [], ◌∷◌, ◌++◌, arith, ◌==◌, if◌then◌else◌,
  Option-cases, get_elem?, set,
}
use lidar_dashboard.Prelude.Tables.{sum_by}
use lidar_dashboard.Auth.Model.{Key}
use lidar_dashboard.Accounts.Model.{Database}
use lidar_dashboard.Accounts.Passwords.{Hashing}
use lidar_dashboard.Codes.Model.{Server}
use lidar_dashboard.Codes.Calls.{perform}
use lidar_dashboard.Codes.Clients.{
  Client, finish, find_latest, find_verification, find_user, is_taken, write, compare, ResetTokens,
}
use lidar_dashboard.Codes.Run.{
  LogLine, called, compared, turn, client_of, World, Happening, arrive, go_on, elsewhere, happen,
  run, start,
}
use lidar_dashboard.Codes.Potential.{sum_by-append}
use lidar_dashboard.Codes.Counting.{count_of, counted, times}
use lidar_dashboard.Codes.Limits.{is_claim_of, run-claim}
use lidar_dashboard.Codes.Guarded.{Guarded, Fresh, client_of-Fresh}

-- How many codes were compared with that of the verification `i`.
abbrev pub guess_line : Key → LogLine → ℕ
guess_line i (called c n before after) = 0
guess_line i (compared j) = if j == i then 1 else 0

abbrev pub guesses : Key → List LogLine → ℕ
guesses i log = sum_by (guess_line i) log

-- The requests, each guarded, with what they may compare all together.
module _ (i : Key) where
  abbrev Guards : List Client → ℕ → Type 0
  Guards [] total = Unit {0}
  Guards (c ∷ cs) total = (n : ℕ) × (m : ℕ) × ((n + m) ≤ total) × Guarded i n c × Guards cs m

  Guards-append :
      (cs : List Client) (c : Client) (total : ℕ)
      → Guards cs total
      → Fresh i c
      → Guards (cs ++ c ∷ []) total
  Guards-append [] c total g fresh = (0, 0, omega arith, fresh 0, tt)
  Guards-append (d ∷ cs) c total (n, m, le, g, rest) fresh =
      (n, m, le, g, Guards-append cs c m rest fresh)

  -- A request among them, and what may take its place.
  Guards-set :
      (cs : List Client) (place : ℕ) (d : Client) (total : ℕ)
      → get_elem? cs place ≡ some d
      → Guards cs total
      → (n : ℕ) × Guarded i n d
        × (n ≤ total)
        × ((d' : Client) (n' total' : ℕ)
            → n' + total ≤ n + total'
            → Guarded i n' d'
            → Guards (set cs place d') total')
  Guards-set [] place d total h g = absurd (cc)
  Guards-set (c ∷ cs) zero d total h (n, m, le, g, rest) =
      let same : c ≡ d = cc in
      (
        n,
        subst (Guarded i n) same g,
        omega (arith, le),
        (λ d' n' total' more g'. (n', m, omega (arith, le, more), g', rest)),
      )
  Guards-set (c ∷ cs) (suc place) d total h (n_0, m, le_0, g_0, rest) =
      let (n, g, le, put) = Guards-set cs place d m h rest in
      (
        n,
        g,
        omega (arith, le, le_0),
        (λ d' n' total' more g'. (
          n_0,
          total' - n_0,
          omega (arith, le, le_0, more),
          g_0,
          put d' n' (total' - n_0) (omega (arith, le, le_0, more)) g',
        )),
      )

  -- One step compares no more than the request may.
  turn-Guarded :
      (h : Hashing) (c : Client) (s : Server) (n : ℕ)
      → Guarded i n c
      → (n' : ℕ) × Guarded i n' (turn h c s).1
        × (n' + guesses i (turn h c s).2 ≤ n + times (is_claim_of i) (turn h c s).2)
  unfolding turn sum_by
  turn-Guarded h (finish r) s n g = (n, g, omega arith)
  turn-Guarded h (find_latest email purpose k) s n g = (n, g _, omega arith)
  turn-Guarded h (find_verification j k) s n g = (n, g _, omega arith)
  turn-Guarded h (find_user email k) s n g = (n, g _, omega arith)
  turn-Guarded h (is_taken email now k) s n g = (n, g _, omega arith)
  turn-Guarded h (write c k) s n g =
      (n + count_of (is_claim_of i) c (perform c s).1, g (perform c s).1, omega arith)
  turn-Guarded h (compare j code hash k) s n (le, g) =
      (n - (if j == i then 1 else 0), g _, omega (arith, le))

  -- All comparisons so far, and all that may follow, have their attempts.
  record Paid (w : World) : Type 0 where
    pub total : ℕ
    pub guarded : Guards w.clients total
    pub paid : total + guesses i w.log ≤ times (is_claim_of i) w.log

module _ (h : Hashing) (t : ResetTokens) (i : Key) where
  happen-Paid : (w : World) (e : Happening) → Paid i w → Paid i (happen h t w e)
  unfolding happen
  happen-Paid w (arrive a) p = record {
    total = p.total;
    guarded =
        Guards-append i w.clients (client_of h t a) p.total p.guarded (client_of-Fresh i h t a);
    paid = p.paid;
  }
  happen-Paid w (elsewhere database requests used) p = record {
    total = p.total;
    guarded = p.guarded;
    paid = p.paid;
  }
  happen-Paid w (go_on place) p = elim (Option-cases (get_elem? w.clients place)) [
    | inl e ↦ rw (e, happen) p
    | inr (d, e) ↦
        let (n, g, le, put) = Guards-set i w.clients place d p.total e p.guarded in
        let (n', g', step) = turn-Guarded i h d w.server n g in
        let claims = times (is_claim_of i) (turn h d w.server).2 in
        let made = guesses i (turn h d w.server).2 in
        rw (e, happen)
          (record {
            total = (p.total + claims) - made;
            guarded =
                put (turn h d w.server).1 n' ((p.total + claims) - made) (omega (arith, le, step))
                  g';
            paid = omega (
              arith,
              le,
              step,
              p.paid,
              sum_by-append (guess_line i) w.log (turn h d w.server).2,
              sum_by-append (counted (is_claim_of i)) w.log (turn h d w.server).2,
            );
          })
  ]

  run-Paid : (w : World) (es : List Happening) → Paid i w → Paid i (run h t w es)
  unfolding run
  run-Paid w [] p = p
  run-Paid w (e ∷ es) p = run-Paid (happen h t w e) es (happen-Paid w e p)

-- Over the whole life of the server, however its requests interleave, a code is compared with that
-- of one verification at most as often as an attempt at it was taken, and that is at most five times.
pub run-guesses :
    (h : Hashing) (t : ResetTokens) (i : Key) (database : Database) (es : List Happening)
    → (guesses i (run h t (start database) es).log
        ≤ times (is_claim_of i) (run h t (start database) es).log)
      × (times (is_claim_of i) (run h t (start database) es).log ≤ 5)
unfolding sum_by
run-guesses h t i database es =
    let p =
      run-Paid h t i (start database) es (record { total = 0; guarded = tt; paid = omega arith }) in
    (omega (arith, p.paid), run-claim h t i database es)
