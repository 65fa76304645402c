-- ===== src/Webhooks/Ends.antt =====
-- app/tasks/webhook_tasks.py: how the attempts to deliver an event end.
use retail_iq.Base.{
  ℕ, suc, ◌+◌, ◌≤◌, ◌≡◌, refl, ap, ◌∙◌, true, false, some, List, [], ◌∷◌, arith, ltb, leb,
  if◌then◌else◌, length, find_first, All, Bool-cases, inl, inr,
}
use retail_iq.Webhooks.Models.{
  Status, DeveloperApplication, WebhookEvent, Db, Response, answered, unreachable, broken,
}
use retail_iq.Webhooks.Delivery.{max_retries, is_event, is_final, is_success, after, post}
use retail_iq.Webhooks.Attempts.{
  deliveries, tries, any_success, is_answered, is_unreachable, Ready, posted, posted-Ready,
  deliveries_again, deliveries-returned, deliveries-raised,
}

-- The event at the end: its status, and so many attempts and requests more.
abbrev pub Ends : ℕ → WebhookEvent → Status → ℕ → Db → Db → Type 0
Ends i e status n db after =
    (f : WebhookEvent) × (find_first (is_event i) after.events ≡ some f)
    × (f.status ≡ status)
    × (f.attempt_count ≡ e.attempt_count + n)
    × (length after.posts ≡ length db.posts + n)

-- What one answered attempt makes of the event.
module _ (now retries code : ℕ) (e : WebhookEvent) where
  answered_count : (after now retries (answered code) e).attempt_count ≡ suc e.attempt_count
  answered_count = elim (Bool-cases (is_success code)) [
    | inl t ↦ rw (t, after) refl
    | inr t ↦ rw (t, after) refl
  ]

  success_status :
      is_success code ≡ true → (after now retries (answered code) e).status ≡ Status.delivered
  success_status t = rw (t, after) refl

  failed_status :
      is_success code ≡ false
      → leb max_retries retries ≡ false
      → (after now retries (answered code) e).status ≡ Status.failed
  failed_status t l = rw (t, l, after) refl

  dead_status :
      is_success code ≡ false
      → leb max_retries retries ≡ true
      → (after now retries (answered code) e).status ≡ Status.dead_lettered
  dead_status t l = rw (t, l, after) refl

one_more : (n : ℕ) → suc n ≡ n + 1
one_more n = omega arith

one_further : (n k : ℕ) → suc n + k ≡ n + suc k
one_further n k = omega arith

early_leb : (n : ℕ) → ltb n 6 ≡ true → leb 6 n ≡ false
early_leb n t = ground arith

late_leb : (n : ℕ) → ltb n 6 ≡ false → leb 6 n ≡ true
late_leb n t = ground arith

no_rest : (n k : ℕ) → suc k + n ≡ 7 → ltb n 6 ≡ false → k ≡ 0
no_rest n k e t = ground arith

more_left : (n k : ℕ) → suc k + n ≡ 7 → k + suc n ≡ 7
more_left n k e = omega arith

nil_of : (xs : List (ℕ × Response)) → length xs ≡ 0 → xs ≡ []
nil_of [] e = refl
nil_of (x ∷ xs) e = absurd (not_zero (length xs) e)
  where
    not_zero : (n : ℕ) → suc n ≡ 0 → ⊥
    not_zero n e = omega arith

less_six : (n : ℕ) → ltb n 6 ≡ true → suc n ≤ 6
less_six n t = ground arith

answered_Ends :
    (rs : List (ℕ × Response)) (retries i : ℕ) (e : WebhookEvent) (app : DeveloperApplication)
    (db : Db)
    → All (λ x. is_answered x.1 ≡ true) rs
    → length rs + retries ≡ 7
    → retries ≤ 6
    → Ready i e app db
    → Ends i e
        (if any_success rs then Status.delivered else Status.dead_lettered)
        (tries rs)
        db
        (deliveries rs retries i db)
answered_Ends [] n i e app db ok total le h = absurd (none_left n total le)
  where
    none_left : (n : ℕ) → 0 + n ≡ 7 → n ≤ 6 → ⊥
    none_left n total le = omega arith
answered_Ends ((now, unreachable x) ∷ rest) n i e app db ok total le h = cc (ok.0)
answered_Ends ((now, broken x) ∷ rest) n i e app db ok total le h = cc (ok.0)
answered_Ends ((now, answered code) ∷ rest) n i e app db ok total le h =
    elim (Bool-cases (is_success code)) [
      | inl t ↦
          let stop = deliveries-returned now n (answered code) rest i e app db h (rw t refl) in
          rw (stop, t)
            (
              after now n (answered code) e,
              posted now n (answered code) i e app db h,
              success_status now n code e t,
              answered_count now n code e ∙ one_more e.attempt_count,
              one_more (length db.posts),
            )
      | inr t ↦ elim (Bool-cases (ltb n max_retries)) [
        | inr l ↦
            let stop = deliveries-raised now n (answered code) rest i e app db h (rw (t, l) refl) in
            rw (stop, t, nil_of rest (no_rest n (length rest) total l))
              (
                after now n (answered code) e,
                posted now n (answered code) i e app db h,
                dead_status now n code e t (late_leb n l),
                answered_count now n code e ∙ one_more e.attempt_count,
                one_more (length db.posts),
              )
        | inl l ↦
            let again = deliveries_again now n (answered code) rest i e app db h (rw (t, l) refl) in
            let still = ap is_final (failed_status now n code e t (early_leb n l)) in
            let (f, found, status, count, posts) =
              answered_Ends rest (suc n) i (after now n (answered code) e) app
                (post now n (answered code) i app e db).1 ok.1 (more_left n (length rest) total)
                (less_six n l) (posted-Ready now n (answered code) i e app db h still) in
            rw (again, t)
              (
                f,
                found,
                status,
                count
                    ∙ ap (λ k. k + tries rest) (answered_count now n code e)
                    ∙ one_further e.attempt_count (tries rest),
                posts ∙ one_further (length db.posts) (tries rest),
              )
      ]
    ]

unreachable_Ends :
    (rs : List (ℕ × Response)) (retries i : ℕ) (e : WebhookEvent) (app : DeveloperApplication)
    (db : Db)
    → All (λ x. is_unreachable x.1 ≡ true) rs
    → length rs + retries ≡ 7
    → retries ≤ 6
    → Ready i e app db
    → Ends i e Status.failed (length rs) db (deliveries rs retries i db)
unreachable_Ends [] n i e app db ok total le h = absurd (none_left n total le)
  where
    none_left : (n : ℕ) → 0 + n ≡ 7 → n ≤ 6 → ⊥
    none_left n total le = omega arith
unreachable_Ends ((now, answered x) ∷ rest) n i e app db ok total le h = cc (ok.0)
unreachable_Ends ((now, broken x) ∷ rest) n i e app db ok total le h = cc (ok.0)
unreachable_Ends ((now, unreachable x) ∷ rest) n i e app db ok total le h =
    elim (Bool-cases (ltb n max_retries)) [
      | inr l ↦
          let stop = deliveries-raised now n (unreachable x) rest i e app db h (rw l refl) in
          rw (stop, nil_of rest (no_rest n (length rest) total l))
            (
              after now n (unreachable x) e,
              posted now n (unreachable x) i e app db h,
              refl,
              one_more e.attempt_count,
              one_more (length db.posts),
            )
      | inl l ↦
          let again = deliveries_again now n (unreachable x) rest i e app db h (rw l refl) in
          let (f, found, status, count, posts) =
            unreachable_Ends rest (suc n) i (after now n (unreachable x) e) app
              (post now n (unreachable x) i app e db).1 ok.1 (more_left n (length rest) total)
              (less_six n l) (posted-Ready now n (unreachable x) i e app db h refl) in
          rw again (
            f,
            found,
            status,
            count ∙ one_further e.attempt_count (length rest),
            posts ∙ one_further (length db.posts) (length rest),
          )
    ]

-- An open event with a receiver, over seven attempts of which each gets an answer: it ends delivered
-- if one of the answers is a success and given up if none is, after as many attempts, each one
-- request, as there are up to the first success, or after all seven.
pub deliveries_end :
    (rs : List (ℕ × Response)) (i : ℕ) (e : WebhookEvent) (app : DeveloperApplication) (db : Db)
    → All (λ x. is_answered x.1 ≡ true) rs
    → length rs ≡ 7
    → Ready i e app db
    → Ends i e
        (if any_success rs then Status.delivered else Status.dead_lettered)
        (tries rs)
        db
        (deliveries rs 0 i db)
deliveries_end rs i e app db ok seven h =
    answered_Ends rs 0 i e app db ok (omega (arith, seven)) (omega arith) h

-- An open event with a receiver that cannot be reached: after all seven attempts it is failed, not
-- given up.
pub deliveries_unreachable :
    (rs : List (ℕ × Response)) (i : ℕ) (e : WebhookEvent) (app : DeveloperApplication) (db : Db)
    → All (λ x. is_unreachable x.1 ≡ true) rs
    → length rs ≡ 7
    → Ready i e app db
    → Ends i e Status.failed (length rs) db (deliveries rs 0 i db)
deliveries_unreachable rs i e app db ok seven h =
    unreachable_Ends rs 0 i e app db ok (omega (arith, seven)) (omega arith) h
