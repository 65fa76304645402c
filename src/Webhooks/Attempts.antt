-- ===== src/Webhooks/Attempts.antt =====
-- app/tasks/webhook_tasks.py: the attempts to deliver one event, from the first to the last retry.
use retail_iq.Base.{
  ℕ, suc, ◌≡◌, refl, ap, Bool, true, false, some, List, [], ◌∷◌, if◌then◌else◌, find_first,
  find_first-update_self, Bool-cases, inl, inr,
}
use retail_iq.Webhooks.Models.{
  DeveloperApplication, WebhookEvent, Db, Response, answered, unreachable, broken, returned,
  retried, raised,
}
use retail_iq.Webhooks.Delivery.{
  is_event, is_final, is_success, after, ending, post, find_receiver, deliver_webhook,
}

-- A task that asks for a retry is run again, with one retry more; an attempt has its time and what it
-- meets.
unfoldable pub deliveries : List (ℕ × Response) → ℕ → ℕ → Db → Db
unfolding deliver_webhook
deliveries [] retries i db = db
deliveries ((now, response) ∷ rest) retries i db =
    let (end, db') = deliver_webhook now retries response i db in
    let more = deliveries rest (suc retries) i db' in
    elim end [ returned ↦ db' | retried ↦ more | raised ↦ db' ]

-- The attempts until the first success, or all.
abbrev pub tries : List (ℕ × Response) → ℕ
tries [] = 0
tries ((now, answered code) ∷ rest) =
    let more = tries rest in if is_success code then 1 else suc more
tries (x ∷ rest) = suc (tries rest)

abbrev pub any_success : List (ℕ × Response) → Bool
any_success [] = false
any_success ((now, answered code) ∷ rest) =
    let more = any_success rest in if is_success code then true else more
any_success (x ∷ rest) = any_success rest

abbrev pub is_answered : Response → Bool
is_answered (answered code) = true
is_answered _ = false

abbrev pub is_unreachable : Response → Bool
is_unreachable (unreachable error) = true
is_unreachable _ = false

-- The event, open and with a receiver.
abbrev pub Ready : ℕ → WebhookEvent → DeveloperApplication → Db → Type 0
Ready i e app db =
    (find_first (is_event i) db.events ≡ some e)
    × (is_final e.status ≡ false)
    × (find_receiver e.app_id db ≡ some app)

module _ (now retries : ℕ) where
  after_id : (r : Response) (e : WebhookEvent) → (after now retries r e).id ≡ e.id
  after_id (answered code) e = elim (Bool-cases (is_success code)) [
    | inl t ↦ rw (t, after) refl
    | inr t ↦ rw (t, after) refl
  ]
  after_id (unreachable error) e = refl
  after_id (broken error) e = refl

  still_event :
      (i : ℕ) (r : Response) (e : WebhookEvent)
      → is_event i e ≡ true
      → is_event i (after now retries r e) ≡ true
  still_event i r e h = rw (after_id r e) h

  after_app : (r : Response) (e : WebhookEvent) → (after now retries r e).app_id ≡ e.app_id
  after_app (answered code) e = elim (Bool-cases (is_success code)) [
    | inl t ↦ rw (t, after) refl
    | inr t ↦ rw (t, after) refl
  ]
  after_app (unreachable error) e = refl
  after_app (broken error) e = refl

  deliver_lem :
      (r : Response) (i : ℕ) (e : WebhookEvent) (app : DeveloperApplication) (db : Db)
      → Ready i e app db
      → deliver_webhook now retries r i db ≡ post now retries r i app e db
  unfolding deliver_webhook
  deliver_lem r i e app db (found, open_, receiver) =
      rw (found, open_, receiver, deliver_webhook) refl

  pub posted :
      (r : Response) (i : ℕ) (e : WebhookEvent) (app : DeveloperApplication) (db : Db)
      → Ready i e app db
      → find_first (is_event i) (post now retries r i app e db).1.events
        ≡ some (after now retries r e)
  posted r i e app db (found, open_, receiver) =
      find_first-update_self (is_event i) (after now retries r) (still_event i r) db.events found

  pub posted-Ready :
      (r : Response) (i : ℕ) (e : WebhookEvent) (app : DeveloperApplication) (db : Db)
      → Ready i e app db
      → is_final (after now retries r e).status ≡ false
      → Ready i (after now retries r e) app (post now retries r i app e db).1
  posted-Ready r i e app db h still = (posted r i e app db h, still, rw (after_app r e) (h.2))

module _ (now retries : ℕ) (r : Response) (rest : List (ℕ × Response)) (i : ℕ) (e : WebhookEvent)
    (app : DeveloperApplication) (db : Db) (h : Ready i e app db) where
  pub deliveries_again :
      ending retries r ≡ retried
      → deliveries ((now, r) ∷ rest) retries i db
        ≡ deliveries rest (suc retries) i (post now retries r i app e db).1
  unfolding deliveries
  deliveries_again t =
      rw (deliver_lem now retries r i e app db h, t, deliveries)
        (ap (λ p. deliveries rest (suc retries) i p.1) (deliver_lem now retries r i e app db h))

  pub deliveries-returned :
      ending retries r ≡ returned
      → deliveries ((now, r) ∷ rest) retries i db ≡ (post now retries r i app e db).1
  unfolding deliveries
  deliveries-returned t =
      rw (deliver_lem now retries r i e app db h, t, deliveries)
        (ap (λ p. p.1) (deliver_lem now retries r i e app db h))

  pub deliveries-raised :
      ending retries r ≡ raised
      → deliveries ((now, r) ∷ rest) retries i db ≡ (post now retries r i app e db).1
  unfolding deliveries
  deliveries-raised t =
      rw (deliver_lem now retries r i e app db h, t, deliveries)
        (ap (λ p. p.1) (deliver_lem now retries r i e app db h))
