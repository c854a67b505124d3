-- ===== src/Codes/Potential.antt =====
-- How often something can happen to a verification over the whole life of the server: a weight on
-- its row that no call raises and that the thing in question lowers.
use lidar_dashboard.Prelude.{
  ℕ, suc, ◌+◌, ◌≤◌, ◌≡◌, inl, inr, Bool, true, false, List, [], ◌∷◌, ◌++◌, arith, ltb, ◌==◌,
  if◌then◌else◌, Bool-cases,
}
use lidar_dashboard.Prelude.Text.{Text}
use lidar_dashboard.Prelude.Tables.{update_by, count_by, delete_by, sum_by}
use lidar_dashboard.Auth.Model.{Key, Time}
use lidar_dashboard.Codes.Model.{Purpose, EmailVerification, Server, sent_to, latest_by}
use lidar_dashboard.Codes.Calls.{
  Call, clean_up, reserve, remove, claim, consume, confirm, is_stale_code, is_verification,
  can_claim, can_consume, can_confirm, attempted, consumed, new_verification, is_cooling, perform,
}

-- Sums over a table under updates and deletions, with the count of the rows.
module _ {ℓ} {A : Type ℓ} (f : A → ℕ) (p : A → Bool) where
  pub sum_by-update_by :
      (g : A → A) (xs : List A)
      → ((x : A) → f (g x) ≤ f x)
      → sum_by f (update_by p g xs) ≤ sum_by f xs
  unfolding sum_by update_by
  sum_by-update_by g [] le = omega arith
  sum_by-update_by g (x ∷ xs) le = ground (arith, le x, sum_by-update_by g xs le)

  pub sum_by-update_by-count_by :
      (g : A → A) (xs : List A)
      → ((x : A) → p x ≡ true → suc (f (g x)) ≤ f x)
      → sum_by f (update_by p g xs) + count_by p xs ≤ sum_by f xs
  unfolding sum_by update_by count_by
  sum_by-update_by-count_by g [] lt = omega arith
  sum_by-update_by-count_by g (x ∷ xs) lt = ground (arith, lt x, sum_by-update_by-count_by g xs lt)

  pub sum_by-delete_by : (xs : List A) → sum_by f (delete_by p xs) ≤ sum_by f xs
  unfolding sum_by delete_by
  sum_by-delete_by [] = omega arith
  sum_by-delete_by (x ∷ xs) = ground (arith, sum_by-delete_by xs)

  pub sum_by-delete_by-count_by :
      (xs : List A)
      → ((x : A) → p x ≡ true → 1 ≤ f x)
      → sum_by f (delete_by p xs) + count_by p xs ≤ sum_by f xs
  unfolding sum_by delete_by count_by
  sum_by-delete_by-count_by [] le = omega arith
  sum_by-delete_by-count_by (x ∷ xs) le = ground (arith, le x, sum_by-delete_by-count_by xs le)

pub sum_by-append {ℓ} :
    {A : Type ℓ} (f : A → ℕ) (xs ys : List A) → sum_by f (xs ++ ys) ≡ sum_by f xs + sum_by f ys
unfolding sum_by
sum_by-append f [] ys = omega arith
sum_by-append f (x ∷ xs) ys = omega (arith, sum_by-append f xs ys)

-- A weight for the verification `i` that is at most `cap` in a new row.
pub record IsWeight (i : Key) (cap : ℕ) (f : EmailVerification → ℕ) : Type 0 where
  pub new :
      (email : Text) (purpose : Purpose) (hash : Text) (now expires_at : Time)
      → f (new_verification i email purpose hash now expires_at) ≤ cap
  pub other :
      (j : Key) (email : Text) (purpose : Purpose) (hash : Text) (now expires_at : Time)
      → (j == i) ≡ false
      → f (new_verification j email purpose hash now expires_at) ≡ 0
  pub after_claim : (v : EmailVerification) → f (attempted v) ≤ f v
  pub after_consume : (now : Time) (v : EmailVerification) → f (consumed now v) ≤ f v

-- The weight of what is there, and of a row that is still to come.
abbrev pub weight : Key → ℕ → (EmailVerification → ℕ) → Server → ℕ
weight i cap f s = (if ltb i s.next_id then 0 else cap) + sum_by f s.verifications

-- A new row takes what was kept for it.
room :
    (i n cap a b : ℕ)
    → a ≤ (if n == i then cap else 0)
    → (if ltb i (suc n) then 0 else cap) + (b + (a + 0)) ≤ (if ltb i n then 0 else cap) + b
room i n cap a b h = ground arith

module _ (i : Key) (cap : ℕ) (f : EmailVerification → ℕ) (w : IsWeight i cap f) where
  new-weight :
      (j : Key) (email : Text) (purpose : Purpose) (hash : Text) (now expires_at : Time)
      → f (new_verification j email purpose hash now expires_at) ≤ (if j == i then cap else 0)
  new-weight j email purpose hash now expires_at = elim (Bool-cases (j == i)) [
    | inl e ↦
        let same : j ≡ i = ground (arith, e) in
        rw (e, same) (w.new email purpose hash now expires_at)
    | inr e ↦ rw (e, w.other j email purpose hash now expires_at e) (omega arith)
  ]

  reserve-weight :
      (email : Text) (purpose : Purpose) (hash : Text) (now expires_at : Time) (s : Server)
      → weight i cap f (perform (reserve email purpose hash now expires_at) s).0 ≤ weight i cap f s
  unfolding perform sum_by
  reserve-weight email purpose hash now expires_at s =
      elim (Bool-cases (is_cooling now (latest_by (sent_to email purpose) s.verifications))) [
        | inl e ↦ rw (e, perform) (omega arith)
        | inr e ↦
            let new = new_verification s.next_id email purpose hash now expires_at in
            let total : sum_by f (s.verifications ++ new ∷ [])
                ≡ sum_by f s.verifications + sum_by f (new ∷ []) =
              sum_by-append f s.verifications (new ∷ []) in
            rw (e, perform, total, sum_by)
              (room i s.next_id cap (f new) (sum_by f s.verifications)
                (new-weight s.next_id email purpose hash now expires_at))
      ]

  -- No call raises it.
  pub perform-weight : (c : Call) (s : Server) → weight i cap f (perform c s).0 ≤ weight i cap f s
  unfolding perform
  perform-weight (clean_up now) s =
      omega (arith, sum_by-delete_by f (is_stale_code now) s.verifications)
  perform-weight (reserve email purpose hash now expires_at) s =
      reserve-weight email purpose hash now expires_at s
  perform-weight (remove j) s =
      omega (arith, sum_by-delete_by f (is_verification j) s.verifications)
  perform-weight (claim j) s =
      omega (arith, sum_by-update_by f (can_claim j) attempted s.verifications w.after_claim)
  perform-weight (consume j now) s = omega (
    arith,
    sum_by-update_by f (can_consume j) (consumed now) s.verifications (w.after_consume now),
  )
  perform-weight (confirm j email user hash now) s =
      elim (Bool-cases (count_by (can_confirm j email) s.verifications == 1)) [
        | inl e ↦
            rw (e, perform)
              (omega (arith, sum_by-delete_by f (can_confirm j email) s.verifications))
        | inr e ↦ rw (e, perform) (omega arith)
      ]
