-- ===== src/Suppliers/Lifecycle.antt =====
-- The status of a purchase order moves along one graph, whatever requests are made.
use retail_iq.Base.{
  ℕ, ◌≡◌, refl, sym, subst, ◌⊎◌, Bool, true, false, Option, none, some, List, [], ◌∷◌, arith,
  all_of, is_empty, Bool-cases, inl, inr, find_first-update_self,
}
use retail_iq.Suppliers.{
  PoStatus, PurchaseOrder, Db, Reply, success, failure, DateText, ItemRequest, ReceiptRequest,
  is_order, find_order, items_of, set_status, set_date, is_draft, is_sent, is_receivable,
  is_cancellable, update_order, update_date, edited, send_purchase_order, update_purchase_order,
  receive_purchase_order, confirm_purchase_order, cancel_purchase_order, is_complete,
}
use retail_iq.Suppliers.Receive.{receive_purchase_order-Receives, Receives}

-- The transitions that the handlers make.
pub data Step : PoStatus → PoStatus → Type 0 where
  send : Step PoStatus.draft PoStatus.sent
  confirm : Step PoStatus.sent PoStatus.confirmed
  fulfil_sent : Step PoStatus.sent PoStatus.fulfilled
  fulfil : Step PoStatus.confirmed PoStatus.fulfilled
  cancel_draft : Step PoStatus.draft PoStatus.cancelled
  cancel_sent : Step PoStatus.sent PoStatus.cancelled

abbrev pub Moves : PoStatus → PoStatus → Type 0
Moves a b = (a ≡ b) ⊎ Step a b

-- The requests on the order `po` of the store `sid`.
pub data Request : Type 0 where
  send : Request
  edit : Option DateText → Option (List ItemRequest) → Request
  confirm cancel : Request
  receive : ℕ → List ReceiptRequest → Request

pub handle : ℕ → ℕ → Request → Db → Db × Reply
handle po sid Request.send db = send_purchase_order po sid db
handle po sid (Request.edit edd items) db = update_purchase_order po sid edd items db
handle po sid Request.confirm db = confirm_purchase_order po sid db
handle po sid Request.cancel db = cancel_purchase_order po sid db
handle po sid (Request.receive uid rs) db = receive_purchase_order po sid uid rs db

-- The order is still there, in a status that `P` allows.
abbrev pub Now : ℕ → ℕ → (PoStatus → Type 0) → Db → Type 0
Now po sid P db = (o : PurchaseOrder) × (find_order po sid db ≡ some o) × P o.status

module _ (po sid : ℕ) (db : Db) {o : PurchaseOrder} (found : find_order po sid db ≡ some o) where
  moved :
      (s : PoStatus)
      → Step o.status s
      → Now po sid (Moves o.status) (update_order po sid (set_status s) db)
  moved s st = (
    set_status s o,
    find_first-update_self (is_order po sid) (set_status s) (λ x h. h) db.orders found,
    inr st,
  )

  stays : Now po sid (Moves o.status) db
  stays = (o, found, inl refl)

  send-Moves : Now po sid (Moves o.status) (send_purchase_order po sid db).0
  unfolding send_purchase_order
  send-Moves = elim (Bool-cases (is_draft o.status)) [
    | inr t ↦ rw (found, send_purchase_order) (rw t stays)
    | inl t ↦ elim (Bool-cases (is_empty (items_of o.id db))) [
      | inl u ↦ rw (found, send_purchase_order) (rw (t, u) stays)
      | inr u ↦
          let e : o.status ≡ PoStatus.draft = ground arith in
          rw (found, send_purchase_order)
            (rw (t, u) (moved PoStatus.sent (subst (λ s. Step s PoStatus.sent) (sym e) Step.send)))
    ]
  ]

  confirm-Moves : Now po sid (Moves o.status) (confirm_purchase_order po sid db).0
  unfolding confirm_purchase_order
  confirm-Moves = elim (Bool-cases (is_sent o.status)) [
    | inr t ↦ rw (found, confirm_purchase_order) (rw t stays)
    | inl t ↦
        let e : o.status ≡ PoStatus.sent = ground arith in
        rw (found, confirm_purchase_order)
          (rw t (
            moved PoStatus.confirmed (subst (λ s. Step s PoStatus.confirmed) (sym e) Step.confirm)))
  ]

  cancellable : is_cancellable o.status ≡ true → Step o.status PoStatus.cancelled
  cancellable t = go o.status t
    where
      go : (s : PoStatus) → is_cancellable s ≡ true → Step s PoStatus.cancelled
      go PoStatus.draft t = cancel_draft
      go PoStatus.sent t = cancel_sent
      go _ t = cc

  cancel-Moves : Now po sid (Moves o.status) (cancel_purchase_order po sid db).0
  unfolding cancel_purchase_order
  cancel-Moves = elim (Bool-cases (is_cancellable o.status)) [
    | inr t ↦ rw (found, cancel_purchase_order) (rw t stays)
    | inl t ↦ rw (found, cancel_purchase_order) (rw t (moved PoStatus.cancelled (cancellable t)))
  ]

  edit-Moves :
      (edd : Option DateText) (items : Option (List ItemRequest))
      → Now po sid (Moves o.status) (update_purchase_order po sid edd items db).0
  unfolding update_purchase_order
  edit-Moves edd items = elim (Bool-cases (is_draft o.status)) [
    | inr t ↦ rw (found, update_purchase_order) (rw t stays)
    | inl t ↦ rw (found, update_purchase_order) (rw t (go edd items))
  ]
    where
      dated : (d : Option ℕ) → Now po sid (Moves o.status) (update_order po sid (set_date d) db)
      dated d = (
        set_date d o,
        find_first-update_self (is_order po sid) (set_date d) (λ x h. h) db.orders found,
        inl refl,
      )

      go :
          (edd : Option DateText) (items : Option (List ItemRequest))
          → Now po sid (Moves o.status) (edited o.id items db (update_date po sid edd db)).0
      go none none = stays
      go none (some l) = stays
      go (some DateText.empty) none = dated none
      go (some DateText.empty) (some l) = dated none
      go (some DateText.invalid) items = stays
      go (some (DateText.valid d)) none = dated (some d)
      go (some (DateText.valid d)) (some l) = dated (some d)

  receivable : is_receivable o.status ≡ true → Step o.status PoStatus.fulfilled
  receivable t = go o.status t
    where
      go : (s : PoStatus) → is_receivable s ≡ true → Step s PoStatus.fulfilled
      go PoStatus.sent t = fulfil_sent
      go PoStatus.confirmed t = fulfil
      go _ t = cc

  receive-Moves :
      (uid : ℕ) (rs : List ReceiptRequest)
      → Now po sid (Moves o.status) (receive_purchase_order po sid uid rs db).0
  receive-Moves uid rs =
      go (receive_purchase_order po sid uid rs db) refl
        (receive_purchase_order-Receives po sid uid rs db found)
    where
      go :
          (r : Db × Reply)
          → receive_purchase_order po sid uid rs db ≡ r
          → Receives po sid rs o db r
          → Now po sid (Moves o.status) r.0
      go (db', success code) e (t, adds, found') =
          elim (Bool-cases (all_of is_complete (items_of po db'))) [
            | inl all ↦
                (set_status PoStatus.fulfilled o, rw found' (rw all refl), inr (receivable t))
            | inr some_left ↦ (o, rw found' (rw some_left refl), inl refl)
          ]
      go (db', failure p code) e h = subst (λ d. Now po sid (Moves o.status) d) (sym h) stays

-- After any request on it an order is still there, in the status it had or one step on along: draft
-- to sent to confirmed, from sent or confirmed to fulfilled, from draft or sent to cancelled.
pub handle-Moves :
    (po sid : ℕ) (request : Request) (db : Db) {o : PurchaseOrder}
    → find_order po sid db ≡ some o
    → Now po sid (Moves o.status) (handle po sid request db).0
unfolding handle
handle-Moves po sid Request.send db found = send-Moves po sid db found
handle-Moves po sid (Request.edit edd items) db found = edit-Moves po sid db found edd items
handle-Moves po sid Request.confirm db found = confirm-Moves po sid db found
handle-Moves po sid Request.cancel db found = cancel-Moves po sid db found
handle-Moves po sid (Request.receive uid rs) db found = receive-Moves po sid db found uid rs

abbrev pub is_terminal : PoStatus → Bool
is_terminal PoStatus.fulfilled = true
is_terminal PoStatus.cancelled = true
is_terminal _ = false

-- A request on an order that is fulfilled or cancelled changes nothing in the database.
pub handle_terminal :
    (po sid : ℕ) (request : Request) (db : Db) {o : PurchaseOrder}
    → find_order po sid db ≡ some o
    → is_terminal o.status ≡ true
    → (handle po sid request db).0 ≡ db
unfolding handle send_purchase_order update_purchase_order confirm_purchase_order
    cancel_purchase_order receive_purchase_order
handle_terminal po sid Request.send db {o} found t =
    let u : is_draft o.status ≡ false = ground arith in rw (found, send_purchase_order) (rw u refl)
handle_terminal po sid (Request.edit edd items) db {o} found t =
    let u : is_draft o.status ≡ false = ground arith in
    rw (found, update_purchase_order) (rw u refl)
handle_terminal po sid Request.confirm db {o} found t =
    let u : is_sent o.status ≡ false = ground arith in
    rw (found, confirm_purchase_order) (rw u refl)
handle_terminal po sid Request.cancel db {o} found t =
    let u : is_cancellable o.status ≡ false = ground arith in
    rw (found, cancel_purchase_order) (rw u refl)
handle_terminal po sid (Request.receive uid []) db {o} found t = refl
handle_terminal po sid (Request.receive uid (r ∷ rest)) db {o} found t =
    let u : is_receivable o.status ≡ false = ground arith in
    rw (found, receive_purchase_order) (rw u refl)
