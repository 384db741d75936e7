-- ===== src/Webhooks/Delivery/Stale.antt =====
-- Two workers that report on the same attempt.
use pactagent.Prelude.{
  ℕ, ◌≡◌, refl, sym, ap, subst, ◌∙◌, Bool, true, false, ◌==◌, nat_eq, arith, List, [], ◌∷◌,
  Bool-cases, inl, inr, Option, none, some, update_rows, count_rows,
}
use pactagent.Errors.{Error, ok, internal}
use pactagent.Store.Rows.{WebhookDelivery}
use pactagent.Store.Tx.{Db, pure, when, or_fail, fail, ◌>>=◌, ◌>>◌}
use pactagent.Store.At.{bound_tx}
use pactagent.Store.Respects.{Respects, err≢ok, Respects-pure, Respects-bind, Respects-when}
use pactagent.Store.At.{unchanged, RespectsAt, RespectsAt-bind, at_each}
use pactagent.Webhooks.Delivery.{
  DeliveryData, Then, nothing, with_result, is_delivery_as_read, update_webhook_delivery_result,
  record_delivery_result, delivered_data, follow_up,
}

-- The tables with the result in the row.
abbrev recorded_in : WebhookDelivery → DeliveryData → Db → Db
recorded_in read data' db = record db {
  webhook_deliveries =
      update_rows (is_delivery_as_read read) (with_result data') db.webhook_deliveries;
}

abbrev as_read : WebhookDelivery → Db → ℕ
as_read read db = count_rows (is_delivery_as_read read) db.webhook_deliveries

found_row :
    (o : Option WebhookDelivery) (e : Error) (applied : Bool) (db : Db) (a : Bool × WebhookDelivery)
    (d : Db)
    → (or_fail o e >>= (λ (delivery : WebhookDelivery). pure (applied, delivery))) db ≡ ok (a, d)
    → (a.0 ≡ applied) × (db ≡ d)
unfolding ◌>>=◌ or_fail fail pure
found_row none e applied db a d h = absurd (err≢ok h)
found_row (some row) e applied db a d h = (cc, cc)

updated :
    (read : WebhookDelivery) (data' : DeliveryData) (db : Db) (a : Bool × WebhookDelivery) (d : Db)
    → update_webhook_delivery_result read data' db ≡ ok (a, d)
    → (a.0 ≡ (as_read read db == 1)) × (recorded_in read data' db ≡ d)
unfolding update_webhook_delivery_result ◌>>=◌
updated read data' db a d h = found_row _ (internal "P2025") _ (recorded_in read data' db) a d h

-- No row is as it was read: nothing is updated.
same_rows :
    (test : WebhookDelivery → Bool) (change : WebhookDelivery → WebhookDelivery)
    (xs : List WebhookDelivery)
    → count_rows test xs ≡ 0
    → update_rows test change xs ≡ xs
unfolding count_rows update_rows
same_rows test change [] h = refl
same_rows test change (x ∷ xs) h = ground (arith, same_rows test change xs)

is_at : (read x : WebhookDelivery) → is_delivery_as_read read x ≡ true → x.attempts ≡ read.attempts
is_at read x h = ground arith

moved_on :
    (read x : WebhookDelivery) (data' : DeliveryData)
    → x.attempts ≡ read.attempts
    → is_delivery_as_read read (with_result data' x) ≡ false
moved_on read x data' h = ground arith

-- And none is once a result is in the row.
none_as_read :
    (read : WebhookDelivery) (data' : DeliveryData) (xs : List WebhookDelivery)
    → count_rows
        (is_delivery_as_read read)
        (update_rows (is_delivery_as_read read) (with_result data') xs)
      ≡ 0
unfolding count_rows update_rows
none_as_read read data' [] = refl
none_as_read read data' (x ∷ xs) = elim (Bool-cases (is_delivery_as_read read x)) [
  | inl same ↦
      let moved : is_delivery_as_read read (with_result data' x) ≡ false =
        moved_on read x data' (is_at read x same) in
      rw (same, moved) (none_as_read read data' xs)
  | inr other ↦ rw (other, other) (none_as_read read data' xs)
]

-- A result on a row that has moved on since it was read.
stale_result :
    (read : WebhookDelivery) (data' : DeliveryData) (next : Then) (now : ℕ) (db : Db)
    → as_read read db ≡ 0
    → RespectsAt unchanged db (record_delivery_result read data' next now)
unfolding record_delivery_result
stale_result read data' next now db h = RespectsAt-bind db _ _ λ a d e.
    let (applied, same) = updated read data' db a d e in
    let there : db ≡ d =
      ap (λ rows. record db { webhook_deliveries = rows })
        (sym (same_rows (is_delivery_as_read read) (with_result data') db.webhook_deliveries h))
      ∙ same in
    (
      there,
      at_each
          (subst (λ b. Respects unchanged (when b (follow_up read next now) >> pure a.1))
            (sym (applied ∙ ap (λ (n : ℕ). n == 1) h))
            (Respects-bind _ _ (Respects-when false _ λ x. absurd (cc)) λ _. Respects-pure _))
          d,
    )

-- A result after which nothing else is written.
nothing_follows :
    (applied : Bool) (read row : WebhookDelivery) (d db' : Db) (now : ℕ) (other : WebhookDelivery)
    → (when applied (follow_up read nothing now) >> pure other) d ≡ ok (row, db')
    → d ≡ db'
unfolding ◌>>=◌ when pure
nothing_follows true read row d db' now other h = cc
nothing_follows false read row d db' now other h = cc

-- A delivery whose row is recorded as delivered is not as it was read.
first_result :
    (read : WebhookDelivery) (data' : DeliveryData) (now : ℕ) (db : Db) (row : WebhookDelivery)
    (db' : Db)
    → record_delivery_result read data' nothing now db ≡ ok (row, db')
    → as_read read db' ≡ 0
unfolding record_delivery_result
first_result read data' now db row db' h =
    let (a, d, e, rest) = bound_tx (update_webhook_delivery_result read data') _ db h in
    let there : recorded_in read data' db ≡ db' =
      (updated read data' db a d e).1 ∙ nothing_follows a.0 read row d db' now a.1 rest in
    subst (λ x. as_read read x ≡ 0) there (none_as_read read data' db.webhook_deliveries)

-- A worker that reports on an attempt after another one has recorded the delivery for the same
-- attempt changes nothing, whatever it reports.
pub delivered_once :
    (read : WebhookDelivery) (status now later : ℕ) (data' : DeliveryData) (next : Then)
    (db after last : Db) (row other : WebhookDelivery)
    → record_delivery_result read (delivered_data status now) nothing now db ≡ ok (row, after)
    → record_delivery_result read data' next later after ≡ ok (other, last)
    → after ≡ last
delivered_once read status now later data' next db after last row other first second =
    (stale_result read data' next later after
        (first_result read (delivered_data status now) now db row after first)).at
      other last second
