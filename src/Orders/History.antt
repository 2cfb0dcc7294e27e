-- ===== src/Orders/History.antt =====
-- The events of one order in the outbox, read as a history of its status
-- (order-service/internal/repository/order_repository.go, domain/order.go).
use fund_kit.Base.{
  String, List, [], ◌∷◌, ◌++◌, Option, none, some, ◌≡◌, refl, sym, ap, ◌∙◌, subst, inl, inr, true,
  ◌==◌, arith, update, update_self, update_ne, ok, append-nil, if◌then◌else◌, text-cases, ==-false,
  ◌⊎◌, Result-cases, eq_iff,
}
use fund_kit.Orders.Status.{OrderStatus, pending, can_transition_status}
use fund_kit.Orders.Domain.{
  Order, OutboxMessage, Minted, before_create, new_order_status_changed_outbox,
}
use fund_kit.Orders.Database.{Database, IsLawful}
use fund_kit.Orders.Repository.{create_with_outbox, update_status_with_outbox, delete}
use fund_kit.Orders.Atomicity.{
  IsRecorded, create_with_outbox_atomic, update_status_with_outbox_atomic,
}

-- The statuses that the outbox reports of one order, oldest first.
abbrev pub trail : String → List OutboxMessage → List OrderStatus
trail id [] = []
trail id (m ∷ ms) =
    let rest = trail id ms in if m.aggregate_id == id then m.payload.order.status ∷ rest else rest

-- Legal transitions lead from `s` through the list to `last`.
abbrev pub Walk : OrderStatus → List OrderStatus → OrderStatus → Type 0
Walk s [] last = s ≡ last
Walk s (t ∷ ts) last = (can_transition_status s t ≡ true) × Walk t ts last

abbrev pub IsHistory : List OrderStatus → OrderStatus → Type 0
IsHistory [] last = ⊥
IsHistory (s ∷ ss) last = (s ≡ pending) × Walk s ss last

Walk-snoc :
    (s : OrderStatus) (ts : List OrderStatus) (last next : OrderStatus)
    → Walk s ts last
    → can_transition_status last next ≡ true
    → Walk s (ts ++ next ∷ []) next
Walk-snoc s [] last next h legal = (rw h legal, refl)
Walk-snoc s (t ∷ ts) last next h legal = (h.0, Walk-snoc t ts last next h.1 legal)

IsHistory-snoc :
    (ts : List OrderStatus) (last next : OrderStatus)
    → IsHistory ts last
    → can_transition_status last next ≡ true
    → IsHistory (ts ++ next ∷ []) next
IsHistory-snoc [] last next h legal = absurd h
IsHistory-snoc (s ∷ ts) last next h legal = (h.0, Walk-snoc s ts last next h.1 legal)

trail-append :
    (id : String) (xs ys : List OutboxMessage) → trail id (xs ++ ys) ≡ trail id xs ++ trail id ys
trail-append id [] ys = refl
trail-append id (x ∷ xs) ys = ground (arith, trail-append id xs ys)

none≢some : {o : Order} → ¬ (◌≡◌ {A = Option Order} none (some o))
none≢some h = cc

outbox_of_order :
    (m : Minted) (row : Order) (msg : OutboxMessage)
    → new_order_status_changed_outbox m row ≡ ok msg
    → (msg.aggregate_id ≡ row.id) × (msg.payload.order ≡ row)
unfolding new_order_status_changed_outbox
outbox_of_order m row msg h = ground arith

before_create-status : (uuid : String) (o : Order) → (before_create uuid o).status ≡ o.status
unfolding before_create
before_create-status uuid o = ground arith

module _ (d : Database) where
  open d use {Db, orders, outbox}

  -- The history that the outbox tells of a stored order is legal and ends in its status.
  abbrev pub IsConsistent : Db → Type 0
  IsConsistent db =
      (id : String) (o : Order) → orders db id ≡ some o → IsHistory (trail id (outbox db)) o.status

  pub trail-recorded :
      (m : Minted) (row : Order) (db db' : Db) (j : String)
      → IsRecorded d m row db db'
      → trail j (outbox db')
        ≡ (if row.id == j then trail j (outbox db) ++ row.status ∷ [] else trail j (outbox db))
  trail-recorded m row db db' j (eo, (i, msg, em, ex)) =
      let (ek, ep) = outbox_of_order m row msg em in
      ap (trail j) ex
      ∙ trail-append j (outbox db) (record msg { id = i } ∷ [])
      ∙ ground (arith, append-nil (trail j (outbox db)))

  recorded-IsConsistent :
      (m : Minted) (row : Order) (db db' : Db)
      → IsRecorded d m row db db'
      → IsHistory (trail row.id (outbox db) ++ row.status ∷ []) row.status
      → IsConsistent db
      → IsConsistent db'
  recorded-IsConsistent m row db db' rec new h j o e = elim (text-cases row.id j) [
    | inl same ↦
        let found : ◌≡◌ {A = Option Order} (some row) (some o) =
          sym (update_self (orders db) row.id (some row))
          ∙ ap (λ f. f row.id) (sym rec.0)
          ∙ ap (orders db') same
          ∙ e in
        let er : row ≡ o = cc in
        let grown : trail j (outbox db') ≡ trail row.id (outbox db) ++ row.status ∷ [] =
          trail-recorded m row db db' j rec ∙ ground (arith, eq_iff row.id j) in
        rw grown
          (subst (λ r. IsHistory (trail row.id (outbox db) ++ row.status ∷ []) r.status) er new)
    | inr differ ↦
        let kept : trail j (outbox db') ≡ trail j (outbox db) =
          trail-recorded m row db db' j rec ∙ rw differ in
        rw kept (
          h j o (
            sym (update_ne (orders db) row.id j (some row) (==-false row.id j differ))
            ∙ ap (λ f. f j) (sym rec.0)
            ∙ e))
  ]

-- What one transaction of the service does to the database. Any interleaving of requests and
-- lifecycle workers is a sequence of these. A new id is fresh: no event bears it.
pub data Step (d : Database) : d.Db → d.Db → Type 0 where
  create :
      (uuid : String) (m : Minted) (o : Order) (db : d.Db)
      → o.status ≡ pending
      → trail (before_create uuid o).id (d.outbox db) ≡ []
      → Step d db (create_with_outbox d uuid m o db).1
  move :
      (id : String) (current next : OrderStatus) (m : Minted) (db : d.Db)
      → can_transition_status current next ≡ true
      → Step d db (update_status_with_outbox d id current next m db).1
  remove : (id : String) (db : d.Db) → Step d db (delete d id db).1

pub data Reach (d : Database) (db : d.Db) : d.Db → Type 0 where
  here : Reach d db db
  after : {db₁ db₂ : d.Db} → Reach d db db₁ → Step d db₁ db₂ → Reach d db db₂

module _ (d : Database) (lawful : IsLawful d) where
  open d use {Db, orders, outbox}
  open lawful use {orders_keyed, remove_order_lem}

  create-IsConsistent :
      (uuid : String) (m : Minted) (o : Order) (db : Db)
      → o.status ≡ pending
      → trail (before_create uuid o).id (outbox db) ≡ []
      → IsConsistent d db
      → IsConsistent d (create_with_outbox d uuid m o db).1
  create-IsConsistent uuid m o db ep fresh h =
      elim (create_with_outbox_atomic d lawful uuid m o db) [
        | inr (e, p, same) ↦ rw same h
        | inl (row, p, ((t, u, er), absent, rec)) ↦
            let at_start : row.status ≡ pending =
              ap (λ r. r.status) er ∙ before_create-status uuid o ∙ ep in
            let no_event : trail row.id (outbox db) ≡ [] = rw er fresh in
            recorded-IsConsistent d m row db _ rec (rw (no_event, at_start) (refl, refl)) h
      ]

  move-IsConsistent :
      (id : String) (current next : OrderStatus) (m : Minted) (db : Db)
      → can_transition_status current next ≡ true
      → IsConsistent d db
      → IsConsistent d (update_status_with_outbox d id current next m db).1
  move-IsConsistent id current next m db legal h =
      elim (update_status_with_outbox_atomic d lawful id current next m db) [
        | inr (e, p, same) ↦ rw same h
        | inl (row, p, (o, t, found, at_current, er, rec)) ↦
            let now : row.status ≡ next = ap (λ r. r.status) er in
            let same_id : row.id ≡ id = ap (λ r. r.id) er ∙ orders_keyed db id found in
            recorded-IsConsistent d m row db _ rec
              (rw (same_id, now)
                (IsHistory-snoc (trail id (outbox db)) current next
                  (rw (← at_current) (h id o found)) legal))
              h
      ]

  delete-cases :
      (id : String) (db : Db)
      → (outbox (delete d id db).1 ≡ outbox db)
        × ((orders (delete d id db).1 ≡ orders db)
            ⊎ (orders (delete d id db).1 ≡ update (orders db) id none))
  unfolding delete
  delete-cases id db = elim (Result-cases (d.remove_order id db)) [
    | inr (text, p) ↦ rw (p, delete) (refl, inl refl)
    | inl ((n, db₁), p) ↦ let facts = remove_order_lem id db p in ground arith
  ]

  delete-IsConsistent :
      (id : String) (db : Db) → IsConsistent d db → IsConsistent d (delete d id db).1
  delete-IsConsistent id db h j o e =
      let (same_events, rows) = delete-cases id db in
      rw same_events (elim rows [
        | inl same ↦ h j o (ap (λ f. f j) (sym same) ∙ e)
        | inr gone ↦ elim (text-cases id j) [
          | inl this ↦ absurd (
              none≢some (
                sym (update_self (orders db) id none)
                ∙ ap (λ f. f id) (sym gone)
                ∙ ap (orders (delete d id db).1) this
                ∙ e))
          | inr that ↦ h j o (
              sym (update_ne (orders db) id j none (==-false id j that))
              ∙ ap (λ f. f j) (sym gone)
              ∙ e)
        ]
      ])

  pub Step-IsConsistent : {db db' : Db} → Step d db db' → IsConsistent d db → IsConsistent d db'
  Step-IsConsistent (create uuid m o db ep fresh) h = create-IsConsistent uuid m o db ep fresh h
  Step-IsConsistent (move id current next m db legal) h =
      move-IsConsistent id current next m db legal h
  Step-IsConsistent (remove id db) h = delete-IsConsistent id db h

  -- From an empty table, whatever transactions run in whatever order.
  pub Reach-IsConsistent : {db db' : Db} → IsConsistent d db → Reach d db db' → IsConsistent d db'
  Reach-IsConsistent h here = h
  Reach-IsConsistent h (after r st) = Step-IsConsistent st (Reach-IsConsistent h r)
