-- ===== src/Wrongway/Responses.antt =====
-- The lines of a response, against the objects of the snapshot.
use mathlib.Core.Path.{subst}
use lidar_dashboard.Prelude.{
  ℕ, ◌<◌, ◌≡◌, refl, ap, ◌∙◌, inl, inr, Option, List, [], ◌∷◌, ◌++◌, map, arith, Bool-cases,
  Option-cases,
}
use lidar_dashboard.Prelude.Tables.{find_by, All}
use lidar_dashboard.Wrongway.Model.{Key, Device, Track, Incident, Db, Entry, Snapshot, Response, ok}
use lidar_dashboard.Wrongway.Validate.{
  validate_snapshot, Accepted, accept, rejected_result, split_objects, nothing_accepted,
  find_source_device,
}
use lidar_dashboard.Wrongway.Process.{
  object_time, is_stale, needs_event, finish_object, process_seen, process_object, process_objects,
}
use lidar_dashboard.Wrongway.Receive.{
  open_in_zone, transaction, item_results, response, touch_device, process_from, lidar_pc,
  process_snapshot,
}
use lidar_dashboard.Wrongway.Tracks.{track_at, process_object-stale, process_object-fresh}
use lidar_dashboard.Wrongway.Accounting.{split_objects-some, split_objects-none}
use lidar_dashboard.Wrongway.Answers.{
  Before, Before-append, Subject, accept-subject, accepted_subject, entry_subject, line_subject,
  sort-least_at, sort_subjects, subjects-sort_results,
}

-- The objects of a snapshot in the order of their places.
abbrev pub Ascending : List Entry → Type 0
Ascending [] = Unit {0}
Ascending (e ∷ es) = All (λ f. e.index < f.index) es × Ascending es

abbrev accepted_subjects : List Entry → List Subject
accepted_subjects es = map accepted_subject (split_objects es).0

abbrev refused_subjects : List Entry → List Subject
refused_subjects es = map line_subject (split_objects es).1

rejected_result-subject : (e : Entry) → line_subject (rejected_result e) ≡ entry_subject e
unfolding rejected_result
rejected_result-subject e = refl

split_objects-Before :
    (n : ℕ) (es : List Entry)
    → All (λ f. n < f.index) es
    → Before n (accepted_subjects es) × Before n (refused_subjects es)
unfolding split_objects rejected_result
split_objects-Before n [] h = (tt, tt)
split_objects-Before n (e ∷ es) h =
    let (taken, refused) = split_objects-Before n es h.1 in
    elim (Option-cases (accept e)) [
      | inl k ↦ rw (split_objects-none e es k) (taken, (h.0, refused))
      | inr (a, k) ↦
          let same = accept-subject e a k in
          rw (split_objects-some e es a k)
            ((omega (arith, h.0, ap (λ x. x.0) same), taken), refused)
    ]

sort-split_objects :
    (es : List Entry)
    → Ascending es
    → sort_subjects (accepted_subjects es ++ refused_subjects es) ≡ map entry_subject es
unfolding split_objects
sort-split_objects [] h = unfold sort_subjects in refl
sort-split_objects (e ∷ es) h =
    let (taken, refused) = split_objects-Before e.index es h.0 in
    elim (Option-cases (accept e)) [
      | inl k ↦
          rw (split_objects-none e es k, rejected_result-subject e)
            (sort-least_at (accepted_subjects es) (refused_subjects es) (entry_subject e) taken
                refused
              ∙ ap (λ xs. entry_subject e ∷ xs) (sort-split_objects es h.1))
      | inr (a, k) ↦
          rw (split_objects-some e es a k, accept-subject e a k)
            (sort-least_at [] (accepted_subjects es ++ refused_subjects es) (entry_subject e) tt
                (Before-append e.index (accepted_subjects es) (refused_subjects es) taken refused)
              ∙ ap (λ xs. entry_subject e ∷ xs) (sort-split_objects es h.1))
    ]

module _ (s : Snapshot) (d : Device) where
  finish-subject :
      (a : Accepted) (o : Option Track) (v : Key) (i : Option Incident) (db : Db)
      → line_subject (finish_object s d a o v i db).0.result ≡ accepted_subject a
  unfolding finish_object
  finish-subject a o v i db = elim (Bool-cases (needs_event a.entry.event.original_type o)) [
    | inl e ↦ rw e refl
    | inr e ↦ rw e refl
  ]

  process_object-subject :
      (a : Accepted) (i : Option Incident) (db : Db)
      → line_subject (process_object s d a i db).0.result ≡ accepted_subject a
  process_object-subject a i db =
      elim (Bool-cases (is_stale (track_at d.id a.track_id db) (object_time s a))) [
        | inl e ↦ rw (process_object-stale s d a i db e) refl
        | inr e ↦
            rw (process_object-fresh s d a i db e)
              (unfold process_seen in finish-subject a (track_at d.id a.track_id db) _ _ _)
      ]

  process_objects-subjects :
      (as' : List Accepted) (i : Option Incident) (db : Db)
      → map line_subject (item_results (process_objects s d as' i db).0) ≡ map accepted_subject as'
  unfolding process_objects
  process_objects-subjects [] i db = refl
  process_objects-subjects (a ∷ as') i db =
      let (item, db') = process_object s d a i db in
      rw (process_object-subject a i db, process_objects-subjects as' item.incident db') refl

  transaction-subjects :
      (as' : List Accepted) (db : Db)
      → map line_subject (item_results (transaction s d as' db).0) ≡ map accepted_subject as'
  unfolding transaction
  transaction-subjects as' db =
      process_objects-subjects as' (find_by (open_in_zone d.zone_id) db.incidents) db

map-append : {A B : Type 0} (f : A → B) (xs ys : List A) → map f (xs ++ ys) ≡ map f xs ++ map f ys
map-append f [] ys = refl
map-append f (x ∷ xs) ys = rw (map-append f xs ys) refl

ok_injective : {x y : Response} → ok x ≡ ok y → x ≡ y
ok_injective h = cc

response-subjects :
    (s : Snapshot) (d : Device) (db : Db)
    → Ascending s.objects
    → map line_subject
        (response s
          (split_objects s.objects).0
          (split_objects s.objects).1
          (transaction s d (split_objects s.objects).0 db).0
          (transaction s d (split_objects s.objects).0 db).1).results
      ≡ map entry_subject s.objects
unfolding response
response-subjects s d db h =
    let (accepted, refused) = split_objects s.objects in
    let items = (transaction s d accepted db).0 in
    subjects-sort_results (item_results items ++ refused)
    ∙ ap sort_subjects (
        map-append line_subject (item_results items) refused
        ∙ ap (λ xs. xs ++ map line_subject refused) (transaction-subjects s d accepted db))
    ∙ sort-split_objects s.objects h

-- A response answers the objects one by one and in order: where they are numbered in order, line
-- for line it has the place and the track id of the snapshot's objects, those that were refused
-- included.
pub process_snapshot-answers :
    (db : Db) (s : Snapshot) (r : Response)
    → Ascending s.objects
    → (process_snapshot db s).1 ≡ ok r
    → map line_subject r.results ≡ map entry_subject s.objects
unfolding process_snapshot process_from touch_device
process_snapshot-answers db s r h = elim (Option-cases (validate_snapshot s)) [
  | inr (e, j) ↦ rw (j, process_snapshot) (λ k. absurd (cc))
  | inl j ↦ elim (Option-cases (lidar_pc (find_source_device s.source_device_code db))) [
    | inl k ↦ rw (j, k, process_snapshot) (λ i. absurd (cc))
    | inr (d, k) ↦ rw (j, k, process_snapshot) (from d)
  ]
]
  where
    from :
        (d : Device)
        → (process_from s d (touch_device s d db)).1 ≡ ok r
        → map line_subject r.results ≡ map entry_subject s.objects
    from d = elim (Bool-cases (nothing_accepted s)) [
      | inl e ↦ rw e (λ j. absurd (cc))
      | inr e ↦ rw e (λ j.
          subst (λ (x : Response). map line_subject x.results ≡ map entry_subject s.objects)
            (ok_injective j) (response-subjects s d (touch_device s d db) h))
    ]
