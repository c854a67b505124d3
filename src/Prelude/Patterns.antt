-- ===== src/Prelude/Patterns.antt =====
-- The regular expressions of the server: a sequence of classes of code units, each with the least
-- and the most times that it may repeat, matched against a whole text with backtracking as `test`
-- does between `^` and `$`. `none` is a repetition without an upper end.
use mathlib.Core.Path.{subst}
use lidar_dashboard.Prelude.{
  ℕ, suc, ◌+◌, ◌≤◌, ◌≡◌, refl, ap, inl, inr, Bool, true, false, ◌&&◌, ◌||◌, Option, none, some,
  List, [], ◌∷◌, ◌++◌, arith, leb, ltb, length, Bool-cases,
}
use lidar_dashboard.Prelude.Text.{Text}
use lidar_dashboard.Prelude.Tables.{All}

pub record Piece : Type 0 where
  pub class : ℕ → Bool
  pub least : ℕ
  pub most : Option ℕ

abbrev pub below : Option ℕ → ℕ → Bool
below none n = true
below (some m) n = ltb n m

abbrev pub is_empty : Text → Bool
is_empty [] = true
is_empty (c ∷ s) = false

-- One piece after `n` repetitions, followed by what `next` matches.
unfoldable pub repeats : Piece → (Text → Bool) → (n : ℕ) → Text → Bool
repeats p next n [] = leb p.least n && next []
repeats p next n (c ∷ s) =
    let rest = repeats p next (suc n) s in
    (leb p.least n && next (c ∷ s)) || (below p.most n && p.class c && rest)

unfoldable pub matches : List Piece → Text → Bool
unfolding repeats
matches [] s = is_empty s
matches (p ∷ ps) s = repeats p (matches ps) 0 s

abbrev pub Within : Option ℕ → ℕ → Type 0
Within none n = Unit
Within (some m) n = n ≤ m

-- What an expression means: the text is cut into one run for each piece.
abbrev pub Match : List Piece → Text → Type 0
Match [] s = s ≡ []
Match (p ∷ ps) s =
    (front : Text) × (back : Text) × (s ≡ front ++ back)
    × All (λ c. p.class c ≡ true) front
    × (p.least ≤ length front)
    × Within p.most (length front)
    × Match ps back

-- A run of one piece, `n` repetitions before it included.
abbrev Run : Piece → (Text → Bool) → ℕ → Text → Type 0
Run p next n s =
    (front : Text) × (back : Text) × (s ≡ front ++ back)
    × All (λ c. p.class c ≡ true) front
    × (p.least ≤ n + length front)
    × Within p.most (n + length front)
    × (next back ≡ true)

Within-none : (m : Option ℕ) → Within m 0
Within-none none = tt
Within-none (some m) = omega arith

below-Within : (m : Option ℕ) (n : ℕ) → below m n ≡ true → Within m (suc n)
below-Within none n h = tt
below-Within (some m) n h = ground arith

Within-below : (m : Option ℕ) (n k : ℕ) → Within m (n + suc k) → below m n ≡ true
Within-below none n k h = refl
Within-below (some m) n k h = ground arith

repeats-Run :
    (p : Piece) (next : Text → Bool) (n : ℕ) (s : Text)
    → Within p.most n
    → repeats p next n s ≡ true
    → Run p next n s
unfolding repeats
repeats-Run p next n [] w h =
    ([], [], refl, tt, ground arith, subst (Within p.most) (omega arith) w, ground arith)
repeats-Run p next n (c ∷ s) w h = elim (Bool-cases (leb p.least n && next (c ∷ s))) [
  | inl e ↦ ([], c ∷ s, refl, tt, ground arith, subst (Within p.most) (omega arith) w, ground arith)
  | inr e ↦
      let (room, fits, rest) : (below p.most n ≡ true)
          × (p.class c ≡ true)
          × (repeats p next (suc n) s ≡ true) =
        ground arith in
      let (front, back, cut, all, long, short, k) =
        repeats-Run p next (suc n) s (below-Within p.most n room) rest in
      (
        c ∷ front,
        back,
        ap (◌∷◌ c) cut,
        (fits, all),
        omega (arith, long),
        subst (Within p.most) (omega arith) short,
        k,
      )
]

Run-repeats :
    (p : Piece) (next : Text → Bool) (n : ℕ) (front back : Text)
    → All (λ c. p.class c ≡ true) front
    → p.least ≤ n + length front
    → Within p.most (n + length front)
    → next back ≡ true
    → repeats p next n (front ++ back) ≡ true
unfolding repeats
Run-repeats p next n [] [] all long short h = ground arith
Run-repeats p next n [] (c ∷ back) all long short h = ground arith
Run-repeats p next n (c ∷ front) back all long short h =
    let rest : repeats p next (suc n) (front ++ back) ≡ true =
      Run-repeats p next (suc n) front back all.1 (omega (arith, long))
        (subst (Within p.most) (omega arith) short) h in
    ground (arith, all.0, Within-below p.most n (length front) short, rest)

-- An expression matches exactly the texts that it means.
pub matches-Match : (ps : List Piece) (s : Text) → matches ps s ≡ true → Match ps s
unfolding matches
matches-Match [] [] h = refl
matches-Match [] (c ∷ s) h = absurd (cc)
matches-Match (p ∷ ps) s h =
    let (front, back, cut, all, long, short, k) =
      repeats-Run p (matches ps) 0 s (Within-none p.most) h in
    (
      front,
      back,
      cut,
      all,
      omega (arith, long),
      subst (Within p.most) (omega arith) short,
      matches-Match ps back k,
    )

pub Match-matches : (ps : List Piece) (s : Text) → Match ps s → matches ps s ≡ true
unfolding matches
Match-matches [] s m = rw m refl
Match-matches (p ∷ ps) s (front, back, cut, all, long, short, m) = rw cut (
    Run-repeats p (matches ps) 0 front back all (omega (arith, long))
      (subst (Within p.most) (omega arith) short) (Match-matches ps back m))
