-- ===== src/Intake/Idempotence.antt =====
-- What an acceptance of SQLiteIntakeUnitOfWork leaves in the tables, and accepting the event again.
use lineage_collection.Prelude.{
  ℕ, String, ◌≡◌, refl, sym, ap, ◌∙◌, Bool, false, none, arith, select,
}
use lineage_collection.Models.{Command, OutboxEvent, DurableAcceptance}
use lineage_collection.Database.{Database}
use lineage_collection.Database.Transaction.{
  ok, Tx, committed, bind_ok, bind_then, settle, pure, ◌>>=◌,
}
use lineage_collection.Control
use lineage_collection.Control.{has_key, new_command, same_submission}
use lineage_collection.Outbox
use lineage_collection.Outbox.{has_outbox_id, same_identity, new_event}
use lineage_collection.Intake.{has_event_id, receive, accept_tx, accept}
use lineage_collection.Intake.Parts.{
  IsDurable, receive_ok, submit_durable, append_ok, submit_again, append_again, receive_again,
  Parts,
}

module _ (after_receipt : Bool) (event_id envelope : String) (created_at : ℕ) (command : Command)
    (outbox : OutboxEvent) (now : ℕ) (db db' : Database) (a : DurableAcceptance) where
  accept-Parts :
      accept after_receipt event_id envelope created_at command outbox now db ≡ (ok a, db')
      → Parts after_receipt event_id envelope created_at command outbox now db db' a
  unfolding accept accept_tx
  accept-Parts e =
      let body =
        committed (accept_tx after_receipt event_id envelope created_at command outbox now) db a db'
          e in
      let (created, received, at_receipt, rest) =
        bind_ok
          (receive after_receipt event_id envelope created_at
            (select (has_event_id event_id) db.events))
          stored db db' a body in
      let (c, submitted, at_command, rest') =
        bind_ok (Control.submit_tx command now) (then_outbox created) received db' a rest in
      let (o, final, at_outbox, last) =
        bind_ok (Outbox.append_tx outbox) (λ o'. pure (acceptance created c o')) submitted db' a
          rest' in
      let is : acceptance created c o ≡ a = ground arith in
      let same_end : final ≡ db' = ground arith in
      record {
        created = created;
        received = received;
        submitted = submitted;
        at_receipt = at_receipt;
        at_command = at_command ∙ ap (λ (x : DurableAcceptance). ok (x.command, submitted)) is;
        at_outbox = at_outbox ∙ rw same_end (ap (λ (x : DurableAcceptance). ok (x.outbox, db')) is);
        envelope_is = ap (λ (x : DurableAcceptance). x.envelope_json) (sym is);
      }
    where
      acceptance : Bool → Command → OutboxEvent → DurableAcceptance
      acceptance created c o = record {
        created = created;
        envelope_json = envelope;
        command = c;
        outbox = o;
      }

      then_outbox : Bool → Command → Tx Database DurableAcceptance
      then_outbox created c = Outbox.append_tx outbox >>= λ o. pure (acceptance created c o)

      stored : Bool → Tx Database DurableAcceptance
      stored created = Control.submit_tx command now >>= then_outbox created

  -- An acceptance that returned has left the receipt with its envelope, the command and the outbox
  -- event in the tables, together.
  pub accept-IsDurable :
      accept after_receipt event_id envelope created_at command outbox now db ≡ (ok a, db')
      → IsDurable event_id envelope command outbox db' a
  accept-IsDurable e =
      let p = accept-Parts e in
      let (r, r_at, r_is) =
        receive_ok after_receipt event_id envelope created_at db p.received p.at_receipt in
      let (row, row_at, row_is, row_same, events_kept) =
        submit_durable command now p.received p.submitted p.at_command in
      let (event, event_at, event_same, event_is, events_same, commands_same) =
        append_ok outbox p.submitted db' p.at_outbox in
      record {
        receipt = r;
        receipt_at = ap (select (has_event_id event_id)) (events_same ∙ events_kept) ∙ r_at;
        receipt_is = r_is;
        row = row;
        row_at = ap (select (has_key command.idempotency_key)) commands_same ∙ row_at;
        row_is = row_is;
        row_same = row_same;
        event = event;
        event_at = event_at;
        event_same = event_same;
        event_is = event_is;
        envelope_is = p.envelope_is;
      }

  -- After an acceptance of an outbox event without a delivery time, accepting the event again,
  -- whatever the time and the callback, returns the same acceptance but for `created`, and changes no
  -- table.
  pub accept_again :
      accept after_receipt event_id envelope created_at command outbox now db ≡ (ok a, db')
      → outbox.delivered_at ≡ none
      → (callback : Bool) (received_at later : ℕ)
      → accept callback event_id envelope received_at command outbox later db'
        ≡ (ok (record a { created = false }), db')
  unfolding accept accept_tx
  accept_again e undelivered callback received_at later =
      let p = accept-Parts e in
      let d = accept-IsDurable e in
      let at_receipt =
        receive_again callback event_id envelope received_at db' d.receipt d.receipt_at
          d.receipt_is in
      let at_command =
        submit_again command now later p.received db' p.received p.submitted d.row p.at_command
          d.row_at d.row_same in
      let at_outbox =
        append_again outbox db' p.submitted db' d.event p.at_outbox d.event_at d.event_same in
      ap (settle db') (
        bind_then
          (receive callback event_id envelope received_at
            (select (has_event_id event_id) db'.events))
          stored db' db' false at_receipt
        ∙ bind_then (Control.submit_tx command later) then_outbox db' db' d.row.command at_command
        ∙ bind_then (Outbox.append_tx outbox) (λ o. pure (acceptance d.row.command o)) db' db'
            d.event at_outbox
        ∙ ap (λ (x : DurableAcceptance). ok (x, db')) (unchanged d))
    where
      acceptance : Command → OutboxEvent → DurableAcceptance
      acceptance c o = record { created = false; envelope_json = envelope; command = c; outbox = o }

      then_outbox : Command → Tx Database DurableAcceptance
      then_outbox c = Outbox.append_tx outbox >>= λ o. pure (acceptance c o)

      stored : Bool → Tx Database DurableAcceptance
      stored created = Control.submit_tx command later >>= λ c. Outbox.append_tx outbox >>= λ o.
          pure (record { created = created; envelope_json = envelope; command = c; outbox = o })

      unchanged :
          (d : IsDurable event_id envelope command outbox db' a)
          → acceptance d.row.command d.event ≡ record a { created = false }
      unchanged d = rw (d.row_is, d.event_is undelivered, d.envelope_is) refl
