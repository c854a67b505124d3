-- ===== src/Wrongway/Answers.antt =====
-- The order of the lines of a response.
use lidar_dashboard.Prelude.{
  ℕ, ◌<◌, ◌≡◌, refl, sym, ap, ◌∙◌, inl, inr, true, false, Option, none, some, List, [], ◌∷◌, ◌++◌,
  map, arith, leb, if◌then◌else◌, Bool-cases,
}
use lidar_dashboard.Prelude.Tables.{All}
use lidar_dashboard.Wrongway.Model.{Key, is_supported, Entry, Result}
use lidar_dashboard.Wrongway.Validate.{when_given, Accepted, accept}
use lidar_dashboard.Wrongway.Receive.{sort_results, insert_result}

-- Which object a line is about: its place in the snapshot and its track id.
abbrev pub Subject : Type 0
Subject = ℕ × Option Key

abbrev pub line_subject : Result → Subject
line_subject r = (r.index, r.track_id)

abbrev pub entry_subject : Entry → Subject
entry_subject e = (e.index, e.event.track_id)

abbrev pub accepted_subject : Accepted → Subject
accepted_subject a = (a.entry.index, some a.track_id)

-- The sort of the lines, on their subjects.
unfoldable pub insert_subject : Subject → List Subject → List Subject
insert_subject x [] = x ∷ []
insert_subject x (y ∷ ys) = if leb x.0 y.0 then x ∷ y ∷ ys else y ∷ insert_subject x ys

unfoldable pub sort_subjects : List Subject → List Subject
sort_subjects [] = []
sort_subjects (x ∷ xs) = insert_subject x (sort_subjects xs)

subjects-insert_result :
    (r : Result) (rs : List Result)
    → map line_subject (insert_result r rs) ≡ insert_subject (line_subject r) (map line_subject rs)
unfolding insert_result insert_subject
subjects-insert_result r [] = refl
subjects-insert_result r (x ∷ xs) = elim (Bool-cases (leb r.index x.index)) [
  | inl e ↦ rw e refl
  | inr e ↦ rw e (ap (λ ys. line_subject x ∷ ys) (subjects-insert_result r xs))
]

pub subjects-sort_results :
    (rs : List Result) → map line_subject (sort_results rs) ≡ sort_subjects (map line_subject rs)
unfolding sort_results sort_subjects
subjects-sort_results [] = refl
subjects-sort_results (r ∷ rs) =
    subjects-insert_result r (sort_results rs)
    ∙ ap (insert_subject (line_subject r)) (subjects-sort_results rs)

-- A subject before all others of a list.
abbrev pub Before : ℕ → List Subject → Type 0
Before n = All (λ x. n < x.0)

insert-Before : (x : Subject) (ys : List Subject) → Before x.0 ys → insert_subject x ys ≡ x ∷ ys
unfolding insert_subject
insert-Before x [] h = refl
insert-Before x (y ∷ ys) h = let e : leb x.0 y.0 ≡ true = ground arith in rw e refl

insert_subject-Before :
    (n : ℕ) (x : Subject) (ys : List Subject)
    → n < x.0
    → Before n ys
    → Before n (insert_subject x ys)
unfolding insert_subject
insert_subject-Before n x [] h k = (h, tt)
insert_subject-Before n x (y ∷ ys) h k = elim (Bool-cases (leb x.0 y.0)) [
  | inl e ↦ rw e (h, k)
  | inr e ↦ rw e (k.0, insert_subject-Before n x ys h k.1)
]

sort_subjects-Before : (n : ℕ) (xs : List Subject) → Before n xs → Before n (sort_subjects xs)
unfolding sort_subjects
sort_subjects-Before n [] h = tt
sort_subjects-Before n (x ∷ xs) h =
    insert_subject-Before n x (sort_subjects xs) h.0 (sort_subjects-Before n xs h.1)

pub Before-append : (n : ℕ) (xs ys : List Subject) → Before n xs → Before n ys → Before n (xs ++ ys)
Before-append n [] ys h k = k
Before-append n (x ∷ xs) ys h k = (h.0, Before-append n xs ys h.1 k)

-- A least subject comes first, wherever it stood.
pub sort-least_at :
    (xs ys : List Subject) (y : Subject)
    → Before y.0 xs
    → Before y.0 ys
    → sort_subjects (xs ++ y ∷ ys) ≡ y ∷ sort_subjects (xs ++ ys)
unfolding sort_subjects
sort-least_at [] ys y h k = insert-Before y (sort_subjects ys) (sort_subjects-Before y.0 ys k)
sort-least_at (x ∷ xs) ys y h k =
    let e : leb x.0 y.0 ≡ false = ground (arith, h.0) in
    rw (sort-least_at xs ys y h.1 k) (unfold insert_subject in rw e refl)

when_given-subject :
    (e : Entry) (t z : Option Key) (a : Accepted)
    → when_given e t z ≡ some a
    → accepted_subject a ≡ (e.index, t)
when_given-subject e none z a h = absurd (cc)
when_given-subject e (some t) none a h = absurd (cc)
when_given-subject e (some t) (some z) a h =
    elim (Bool-cases (is_supported e.event.original_type)) [
      | inl k ↦
          let same : record { entry = e; track_id = t; external_zone_id = z } ≡ a =
            (let j = rw k at h in cc) in
          sym (ap accepted_subject same)
      | inr k ↦ (let j = rw k at h in absurd (cc))
    ]

pub accept-subject :
    (e : Entry) (a : Accepted) → accept e ≡ some a → accepted_subject a ≡ entry_subject e
unfolding accept
accept-subject e a h = when_given-subject e e.event.track_id e.event.external_zone_id a h
