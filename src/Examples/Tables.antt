-- ===== src/Examples/Tables.antt =====
-- A small PostgreSQL, for runs of the order service. A table is the versions of
-- its rows, newest first; `gone` marks a deleted row.
use fund_kit.Base.{
  ℕ, suc, String, codes, List, [], ◌∷◌, ◌++◌, Option, none, some, ◌≡◌, refl, inl, inr, true, false,
  arith, ◌==◌, if◌then◌else◌, Result, ok, err, Option-cases, update, Bool-cases, text-cases, eq_iff,
  ok-injective, contains, take, ◌⊎◌, ◌∙◌, subst, ap, sym,
}
use fund_kit.Orders.Status.{OrderStatus, is_status, is_status_iff}
use fund_kit.Orders.Domain.{Order, OutboxMessage, OrderError}
use fund_kit.Orders.Database.{Database, IsLawful, WasUpdated, DidNotMatch, IsStored}

pub data Version : Type 0 where
  live : Order → Version
  gone : String → Version

pub record Tables : Type 0 where
  pub rows : List Version
  pub events : List OutboxMessage
  pub clock : ℕ

unfoldable pub find : String → List Version → Option Order
find id [] = none
find id (live o ∷ vs) = let rest = find id vs in if o.id == id then some o else rest
find id (gone k ∷ vs) = let rest = find id vs in if k == id then none else rest

some-injective : {o p : Order} → ◌≡◌ {A = Option Order} (some o) (some p) → o ≡ p
some-injective h = cc

find-id : (id : String) (vs : List Version) {o : Order} → find id vs ≡ some o → o.id ≡ id
unfolding find
find-id id [] h = ground arith
find-id id (live o ∷ vs) {o = row} h = elim (text-cases o.id id) [
  | inl same ↦
      let e : ◌≡◌ {A = Option Order} (some o) (some row) = ground (arith, eq_iff o.id id) in
      ap (λ r. r.id) (sym (some-injective e)) ∙ same
  | inr differ ↦ find-id id vs (rw (find, differ) at h)
]
find-id id (gone k ∷ vs) h = elim (Bool-cases (k == id)) [
  | inl same ↦ ground arith
  | inr differ ↦ find-id id vs (rw (find, differ) at h)
]

-- The newest version of each row, of those whose id is not in `seen`.
pub newest : List String → List Version → List Order
newest seen [] = []
newest seen (live o ∷ vs) =
    let rest = newest (o.id ∷ seen) vs in if contains o.id seen then rest else o ∷ rest
newest seen (gone k ∷ vs) = newest (k ∷ seen) vs

pub limited : Option ℕ → List Order → List Order
limited none os = os
limited (some n) os = take n os

unfoldable pub insert_order : Order → Tables → Result (List ℕ) (Order × Tables)
insert_order o t = elim (find o.id t.rows) [
  | some old ↦ err (codes "ERROR: duplicate key value violates unique constraint")
  | none ↦
      let row = record o { created_at = t.clock; updated_at = t.clock } in
      ok (row, record t { rows = live row ∷ t.rows; clock = suc t.clock })
]

unfoldable pub set_status :
    String → OrderStatus → OrderStatus → Tables → Result (List ℕ) (ℕ × Tables)
set_status id expected next t = elim (find id t.rows) [
  | none ↦ ok (0, t)
  | some o ↦
      if is_status o.status expected
      then ok (
        1,
        record t {
          rows = live (record o { status = next; updated_at = t.clock }) ∷ t.rows;
          clock = suc t.clock;
        },
      )
      else ok (0, t)
]

unfoldable pub remove_order : String → Tables → Result (List ℕ) (ℕ × Tables)
remove_order id t = elim (find id t.rows) [
  | none ↦ ok (0, t)
  | some o ↦ ok (1, record t { rows = gone id ∷ t.rows })
]

unfoldable pub transaction :
    (Tables → Result OrderError (Order × Tables)) → Tables → Result OrderError Order × Tables
transaction body t = elim (body t) [ err e ↦ (err e, t) | ok (o, t') ↦ (ok o, t') ]

abbrev pub postgres : Database
postgres = record {
  Db = Tables;
  orders = λ t id. find id t.rows;
  outbox = λ t. t.events;
  insert_order = insert_order;
  first_order = λ id t. ok (find id t.rows);
  recent_orders = λ limit t. ok (limited limit (newest [] t.rows));
  set_status = set_status;
  remove_order = remove_order;
  insert_outbox = λ m t.
      ok (record t { events = t.events ++ record m { id = t.clock } ∷ []; clock = suc t.clock });
  transaction = transaction;
}

find-live :
    (o : Order) (vs : List Version)
    → (λ j. find j (live o ∷ vs)) ≡ update (λ j. find j vs) o.id (some o)
unfolding find update
find-live o vs = refl

find-gone :
    (id : String) (vs : List Version)
    → (λ j. find j (gone id ∷ vs)) ≡ update (λ j. find j vs) id none
unfolding find update
find-gone id vs = refl

insert_order-stores :
    (o : Order) (t : Tables) {row : Order} {t' : Tables}
    → insert_order o t ≡ ok (row, t')
    → IsStored postgres o row
      × (find o.id t.rows ≡ none)
      × ((λ j. find j t'.rows) ≡ update (λ j. find j t.rows) o.id (some row))
      × (t'.events ≡ t.events)
unfolding insert_order
insert_order-stores o t {row} {t'} h = elim (Option-cases (find o.id t.rows)) [
  | inr (old, p) ↦ ground arith
  | inl p ↦
      let stored = record o { created_at = t.clock; updated_at = t.clock } in
      let e : ◌≡◌ {A = Order × Tables}
          (stored, record t { rows = live stored ∷ t.rows; clock = suc t.clock }) (row, t') =
        ground arith in
      subst
        (λ x.
          IsStored postgres o x.0
          × (find o.id t.rows ≡ none)
          × ((λ j. find j x.1.rows) ≡ update (λ j. find j t.rows) o.id (some x.0))
          × (x.1.events ≡ t.events))
        e ((t.clock, t.clock, refl), p, find-live stored t.rows, refl)
]

true≢false : ¬ (true ≡ false)
true≢false h = cc

set_status-moves :
    (id : String) (expected next : OrderStatus) (t : Tables) {n : ℕ} {t' : Tables}
    → set_status id expected next t ≡ ok (n, t')
    → (t'.events ≡ t.events)
      × (((n ≡ 1) × WasUpdated postgres id expected next t t')
          ⊎ ((n ≡ 0) × DidNotMatch postgres id expected t t'))
unfolding set_status
set_status-moves id expected next t {n} {t'} h =
    let Facts : ℕ × Tables → Type 0 = λ x.
      (x.1.events ≡ t.events)
      × (((x.0 ≡ 1) × WasUpdated postgres id expected next t x.1)
          ⊎ ((x.0 ≡ 0) × DidNotMatch postgres id expected t x.1)) in
    elim (Option-cases (find id t.rows)) [
      | inl p ↦
          let e : ◌≡◌ {A = ℕ × Tables} (0, t) (n, t') = ground arith in
          subst Facts e (refl, inr (refl, (λ o q. absurd (cc), refl)))
      | inr (o, p) ↦ elim (Bool-cases (is_status o.status expected)) [
        | inr other ↦
            let e : ◌≡◌ {A = ℕ × Tables} (0, t) (n, t') = ground arith in
            subst Facts e (
              refl,
              inr (
                refl,
                (
                  λ o' q same. true≢false (
                      sym (
                        (is_status_iff o.status expected).1
                          (ap (λ r. r.status) (some-injective (sym p ∙ q)) ∙ same))
                      ∙ other),
                  refl,
                ),
              ),
            )
        | inl at ↦
            let moved = record o { status = next; updated_at = t.clock } in
            let e : ◌≡◌ {A = ℕ × Tables}
                (1, record t { rows = live moved ∷ t.rows; clock = suc t.clock }) (n, t') =
              ground arith in
            subst Facts e (
              refl,
              inl (
                refl,
                (
                  o,
                  t.clock,
                  p,
                  (is_status_iff o.status expected).0 at,
                  rw (← find-id id t.rows p) (find-live moved t.rows),
                ),
              ),
            )
      ]
    ]

remove_order-removes :
    (id : String) (t : Tables) {n : ℕ} {t' : Tables}
    → remove_order id t ≡ ok (n, t')
    → (t'.events ≡ t.events)
      × (((n ≡ 1) × ((λ j. find j t'.rows) ≡ update (λ j. find j t.rows) id none))
          ⊎ ((n ≡ 0) × (find id t.rows ≡ none) × (postgres.orders t' ≡ postgres.orders t)))
unfolding remove_order
remove_order-removes id t {n} {t'} h =
    let Facts : ℕ × Tables → Type 0 = λ x.
      (x.1.events ≡ t.events)
      × (((x.0 ≡ 1) × ((λ j. find j x.1.rows) ≡ update (λ j. find j t.rows) id none))
          ⊎ ((x.0 ≡ 0) × (find id t.rows ≡ none) × (postgres.orders x.1 ≡ postgres.orders t))) in
    elim (Option-cases (find id t.rows)) [
      | inl p ↦
          let e : ◌≡◌ {A = ℕ × Tables} (0, t) (n, t') = ground arith in
          subst Facts e (refl, inr (refl, p, refl))
      | inr (o, p) ↦
          let e : ◌≡◌ {A = ℕ × Tables} (1, record t { rows = gone id ∷ t.rows }) (n, t') =
            ground arith in
          subst Facts e (refl, inl (refl, find-gone id t.rows))
    ]

pub postgres-IsLawful : IsLawful postgres
unfolding transaction
postgres-IsLawful = record {
  orders_keyed = λ t id. find-id id t.rows;
  insert_order_lem = insert_order-stores;
  first_order_lem = λ id t h. sym (ok-injective h);
  set_status_lem = set_status-moves;
  remove_order_lem = remove_order-removes;
  insert_outbox_lem = λ m t h.
      subst
        (λ x.
          (postgres.orders x ≡ postgres.orders t)
          × ((i : ℕ) × (x.events ≡ t.events ++ record m { id = i } ∷ [])))
        (ok-injective h) (refl, (t.clock, refl));
  transaction_rolled_back = λ body t h. rw (h, transaction) refl;
  transaction_committed = λ body t h. inl (rw (h, transaction) refl);
}
