-- ===== src/Codes/Tokens.antt =====
-- The tokens for a new password that are handed out.
use mathlib.Core.Path.{subst}
use lidar_dashboard.Prelude.{
  ℕ, zero, suc, ◌+◌, ◌≤◌, ◌≡◌, refl, inl, inr, false, some, List, [], ◌∷◌, arith, if◌then◌else◌,
  Option-cases, get_elem?, set,
}
use lidar_dashboard.Prelude.Tables.{All, All-append, count_by, count_by-append, sum_by}
use lidar_dashboard.Auth.Model.{Key}
use lidar_dashboard.Accounts.Model.{Database}
use lidar_dashboard.Accounts.Passwords.{Hashing}
use lidar_dashboard.Codes.Model.{Server}
use lidar_dashboard.Codes.Calls.{perform}
use lidar_dashboard.Codes.Clients.{
  Client, finish, find_latest, find_verification, find_user, is_taken, write, compare, ResetTokens,
}
use lidar_dashboard.Codes.Run.{
  turn, client_of, World, Happening, arrive, go_on, elsewhere, happen, run, start,
}
use lidar_dashboard.Codes.Potential.{sum_by-append}
use lidar_dashboard.Codes.Counting.{counted, times}
use lidar_dashboard.Codes.Limits.{is_consume_of, run-consume}
use lidar_dashboard.Codes.Honest.{holds, Honest, client_of-Clean}

-- Among the requests, a table with one of them replaced.
module _ (i : Key) where
  All-set :
      (cs : List Client) (place : ℕ) (c : Client)
      → All (Honest i) cs
      → Honest i c
      → All (Honest i) (set cs place c)
  All-set [] place c all h = tt
  All-set (d ∷ cs) zero c all h = (h, all.1)
  All-set (d ∷ cs) (suc place) c all h = (all.0, All-set cs place c all.1 h)

  All-get_elem? :
      (cs : List Client) (place : ℕ) (c : Client)
      → All (Honest i) cs
      → get_elem? cs place ≡ some c
      → Honest i c
  All-get_elem? [] place c all h = absurd (cc)
  All-get_elem? (d ∷ cs) zero c all h = let same : d ≡ c = cc in subst (Honest i) same all.0
  All-get_elem? (d ∷ cs) (suc place) c all h = All-get_elem? cs place c all.1 h

  count_by-set :
      (cs : List Client) (place : ℕ) (c d : Client) (k : ℕ)
      → get_elem? cs place ≡ some c
      → (if holds i d then 1 else 0) ≤ (if holds i c then 1 else 0) + k
      → count_by (holds i) (set cs place d) ≤ count_by (holds i) cs + k
  unfolding count_by
  count_by-set [] place c d k h le = absurd (cc)
  count_by-set (e ∷ cs) zero c d k h le =
      let same : c ≡ e = cc in
      let le_e : (if holds i d then 1 else 0) ≤ (if holds i e then 1 else 0) + k =
        subst (λ x. (if holds i d then 1 else 0) ≤ (if holds i x then 1 else 0) + k) same le in
      omega (arith, le_e)
  count_by-set (e ∷ cs) (suc place) c d k h le = omega (arith, count_by-set cs place c d k h le)

  -- One use of the database gives a token for nothing but the code that it uses up.
  turn-Honest :
      (g : Hashing) (c : Client) (s : Server)
      → Honest i c
      → Honest i (turn g c s).1
        × ((if holds i (turn g c s).1 then 1 else 0)
            ≤ (if holds i c then 1 else 0) + times (is_consume_of i) (turn g c s).2)
  unfolding turn sum_by
  turn-Honest g (finish r) s h = (tt, omega arith)
  turn-Honest g (find_latest email purpose k) s h = let (a, b) = h _ in (a, rw b (omega arith))
  turn-Honest g (find_verification j k) s h = let (a, b) = h _ in (a, rw b (omega arith))
  turn-Honest g (find_user email k) s h = let (a, b) = h _ in (a, rw b (omega arith))
  turn-Honest g (is_taken email now k) s h = let (a, b) = h _ in (a, rw b (omega arith))
  turn-Honest g (compare j code hash k) s h = let (a, b) = h _ in (a, rw b (omega arith))
  turn-Honest g (write c k) s h = let (a, b) = h (perform c s).1 in (a, omega (arith, b))

  -- The tokens among the requests, against the codes used up.
  record Covered (w : World) : Type 0 where
    pub honest : All (Honest i) w.clients
    pub tokens : count_by (holds i) w.clients ≤ times (is_consume_of i) w.log

none_more : (i : Key) (c : Client) → holds i c ≡ false → count_by (holds i) (c ∷ []) ≡ 0
unfolding count_by
none_more i c h = rw h refl

module _ (h : Hashing) (t : ResetTokens) (i : Key) where
  happen-Covered : (w : World) (e : Happening) → Covered i w → Covered i (happen h t w e)
  unfolding happen
  happen-Covered w (arrive a) c =
      let clean = client_of-Clean i h t a in
      record {
        honest = All-append (Honest i) w.clients (client_of h t a ∷ []) c.honest (clean.0, tt);
        tokens = omega (
          arith,
          c.tokens,
          count_by-append (holds i) w.clients (client_of h t a ∷ []),
          none_more i (client_of h t a) clean.1,
        );
      }
  happen-Covered w (elsewhere database requests used) c = record {
    honest = c.honest;
    tokens = c.tokens;
  }
  happen-Covered w (go_on place) c = elim (Option-cases (get_elem? w.clients place)) [
    | inl e ↦ rw (e, happen) c
    | inr (d, e) ↦
        let (honest, le) =
          turn-Honest i h d w.server (All-get_elem? i w.clients place d c.honest e) in
        rw (e, happen)
          (record {
            honest = All-set i w.clients place (turn h d w.server).1 c.honest honest;
            tokens = omega (
              arith,
              c.tokens,
              count_by-set i w.clients place d (turn h d w.server).1
                  (times (is_consume_of i) (turn h d w.server).2) e le,
              sum_by-append (counted (is_consume_of i)) w.log (turn h d w.server).2,
            );
          })
  ]

  run-Covered : (w : World) (es : List Happening) → Covered i w → Covered i (run h t w es)
  unfolding run
  run-Covered w [] c = c
  run-Covered w (e ∷ es) c = run-Covered (happen h t w e) es (happen-Covered w e c)

-- Over the whole life of the server, at most one of its requests ends with a token for the new
-- password of one verification, however they interleave.
pub run-holds :
    (h : Hashing) (t : ResetTokens) (i : Key) (database : Database) (es : List Happening)
    → count_by (holds i) (run h t (start database) es).clients ≤ 1
unfolding count_by sum_by
run-holds h t i database es =
    let covered =
      run-Covered h t i (start database) es (record { honest = tt; tokens = omega arith }) in
    omega (arith, covered.tokens, run-consume h t i database es)
