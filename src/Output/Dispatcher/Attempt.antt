-- ===== src/Output/Dispatcher/Attempt.antt =====
-- What one dispatch does.
use trading_ai_pipeline.Base.{
  ℕ, ◌+◌, ◌≡◌, refl, ◌∙◌, String, true, Option, none, some, str_eq_iff, arith, inl, inr,
  Option-cases,
}
use trading_ai_pipeline.Base.Table.{find, find-update, find-key}
use trading_ai_pipeline.Output.Stamp.{Time, Stamp, utc_z}
use trading_ai_pipeline.Output.Rows.{
  DeliveryStatus, RendererResult, ThesisRow, Delivery, Attempt, Db, ok, Digest, is_completed,
}
use trading_ai_pipeline.Output.Outbox.Claim.{
  claim, claim_row, claimed_row, claim_token, attempt_id, next_number,
}
use trading_ai_pipeline.Output.Outbox.Claim.Granted.{IsDue, granted, claim_due}
use trading_ai_pipeline.Output.Outbox.Finish.{retry_time, finished_row, reported, finish}
use trading_ai_pipeline.Output.Outbox.Refines.{row_of}
use trading_ai_pipeline.Output.Dispatcher.{
  DeliveryContext, Rendering, returned, session_error, other_exception, Config, Renderers,
  get_context, result, caught, render_with, deliver, dispatch,
}

-- A renderer's result names the delivery of its context, as `models.result` makes it do.
abbrev pub IsAddressed : DeliveryContext → Rendering → Type 0
IsAddressed c (returned r) = r.delivery_id ≡ c.delivery.delivery_id
IsAddressed c _ = Unit

abbrev pub AllAddressed : Renderers → Type 0
AllAddressed renderers =
    (kind : String) (render : DeliveryContext → String → Time → Rendering)
    → renderers kind ≡ some render
    → (c : DeliveryContext) (attempt : String) (now : Time) → IsAddressed c (render c attempt now)

caught-delivery_id :
    (c : DeliveryContext) (attempt : String) (now : Time) (r : Rendering)
    → IsAddressed c r
    → (caught c attempt now r).delivery_id ≡ c.delivery.delivery_id
unfolding result
caught-delivery_id c attempt now (returned r) h = h
caught-delivery_id c attempt now (session_error code) h = refl
caught-delivery_id c attempt now other_exception h = refl

render_with-delivery_id :
    (renderers : Renderers) (c : DeliveryContext) (attempt : String) (now : Time)
    → AllAddressed renderers
    → (render_with renderers c attempt now).delivery_id ≡ c.delivery.delivery_id
render_with-delivery_id renderers c attempt now all =
    elim (Option-cases (renderers c.delivery.renderer_type)) [
      | inl missing ↦ unfold render_with result in ground arith
      | inr (render, e) ↦
          let named =
            caught-delivery_id c attempt now (render c attempt now)
              (all c.delivery.renderer_type render e c attempt now) in
          unfold render_with in ground arith
    ]

finish_held :
    (result : RendererResult) (token : String) (seconds : ℕ) (db : Db) (r : Delivery)
    (next_retry : Option Stamp)
    → row_of result.delivery_id db ≡ some r
    → r.claim_token ≡ some token
    → r.status ≡ DeliveryStatus.claimed
    → retry_time result.status result.timestamp seconds ≡ ok next_retry
    → finish result token seconds db ≡ ok (tt, reported result next_retry db)
unfolding finish
finish_held result token seconds db r next_retry found own status date =
    ground (arith, str_eq_iff token token)

reported_row :
    (result : RendererResult) (next_retry : Option Stamp) (db : Db) (r : Delivery) (id : String)
    → result.delivery_id ≡ id
    → row_of id db ≡ some r
    → row_of id (reported result next_retry db) ≡ some (finished_row result next_retry r)
unfolding reported
reported_row result next_retry db r id same found =
    rw
      (
        find-update Delivery.delivery_id result.delivery_id id (finished_row result next_retry)
            db.deliveries (λ q. refl),
        found,
        (str_eq_iff result.delivery_id id).1 same,
      )
      refl

module _ (d : Digest) (renderers : Renderers) (config : Config) (worker id : String) (now : Time)
    (db : Db) (r : Delivery) (t : ThesisRow) where
  -- The delivery, the context and the attempt of a granted claim.
  abbrev pub claimed_delivery : Delivery
  claimed_delivery =
      claimed_row (r.attempt_count + 1) (utc_z now) worker (claim_token d id worker (utc_z now) db)
        r

  abbrev pub rendered : RendererResult
  rendered =
      render_with renderers (record { delivery = claimed_delivery; thesis_row = t })
        (attempt_id d id (next_number id db.attempts)) now

  granted_held :
      row_of id db ≡ some r
      → row_of id (granted d id worker (utc_z now) r db) ≡ some claimed_delivery
  granted_held found =
      let f =
        claimed_row (r.attempt_count + 1) (utc_z now) worker
          (claim_token d id worker (utc_z now) db) in
      rw
        (
          find-update Delivery.delivery_id id id f db.deliveries (λ q. refl),
          found,
          (str_eq_iff id id).1 refl,
        )
        refl

  deliver-granted :
      (next_retry : Option Stamp)
      → AllAddressed renderers
      → row_of id db ≡ some r
      → find ThesisRow.thesis_id r.thesis_id db.theses ≡ some t
      → retry_time rendered.status rendered.timestamp config.retry_seconds ≡ ok next_retry
      → deliver renderers config id now
          (attempt_id d id (next_number id db.attempts), claim_token d id worker (utc_z now) db)
          (granted d id worker (utc_z now) r db)
        ≡ (reported rendered next_retry (granted d id worker (utc_z now) r db), ok (some rendered))
  deliver-granted next_retry all found thesis date =
      let g = granted d id worker (utc_z now) r db in
      let held = granted_held found in
      let context : DeliveryContext = record { delivery = claimed_delivery; thesis_row = t } in
      let joined : get_context id g ≡ ok context = unfold get_context in ground arith in
      let named : rendered.delivery_id ≡ id =
        render_with-delivery_id renderers context (attempt_id d id (next_number id db.attempts)) now
          all
        ∙ find-key Delivery.delivery_id id r db.deliveries found in
      let own : row_of rendered.delivery_id g ≡ some claimed_delivery = rw named held in
      let accepted : finish rendered (claim_token d id worker (utc_z now) db) config.retry_seconds g
          ≡ ok (tt, reported rendered next_retry g) =
        finish_held rendered (claim_token d id worker (utc_z now) db) config.retry_seconds g
          claimed_delivery next_retry own refl refl date in
      unfold deliver in ground arith

  -- A dispatch of a delivery that is due, whose Thesis is stored and whose next attempt id is not
  -- used yet, whatever the registered renderers do as long as their results name the delivery that
  -- they were given (and the retry time is a date that exists), returns the result and stores it in
  -- the delivery, which then has the status of the result and no claim; a renderer that is missing
  -- or raises has a result too.
  pub dispatch_due :
      (next_retry : Option Stamp)
      → AllAddressed renderers
      → row_of id db ≡ some r
      → IsDue now config.retry_limit r
      → find ThesisRow.thesis_id r.thesis_id db.theses ≡ some t
      → find Attempt.attempt_id (attempt_id d id (next_number id db.attempts)) db.attempts ≡ none
      → retry_time rendered.status rendered.timestamp config.retry_seconds ≡ ok next_retry
      → (row_of id (dispatch d renderers config worker id now db).0
          ≡ some (finished_row rendered next_retry claimed_delivery))
        × ((dispatch d renderers config worker id now db).1 ≡ ok (some rendered))
  dispatch_due next_retry all found due thesis fresh date =
      let g = granted d id worker (utc_z now) r db in
      let context : DeliveryContext = record { delivery = claimed_delivery; thesis_row = t } in
      let claimed = claim_due d id worker now config.retry_limit r db found due fresh in
      let delivered = deliver-granted next_retry all found thesis date in
      let whole : dispatch d renderers config worker id now db
          ≡ (reported rendered next_retry g, ok (some rendered)) =
        unfold dispatch in ground arith in
      let named : rendered.delivery_id ≡ id =
        render_with-delivery_id renderers context (attempt_id d id (next_number id db.attempts)) now
          all
        ∙ find-key Delivery.delivery_id id r db.deliveries found in
      (
        rw whole
            (reported_row rendered next_retry g claimed_delivery id named (granted_held found)),
        rw whole refl,
      )

-- A dispatch of a delivery that is completed returns none and changes nothing: no renderer is asked.
pub dispatch_completed :
    (d : Digest) (renderers : Renderers) (config : Config) (worker id : String) (now : Time)
    (db : Db) (r : Delivery)
    → row_of id db ≡ some r
    → is_completed r.status ≡ true
    → dispatch d renderers config worker id now db ≡ (db, ok none)
unfolding dispatch claim claim_row
dispatch_completed d renderers config worker id now db r found c = ground arith
