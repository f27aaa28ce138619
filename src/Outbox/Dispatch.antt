-- ===== src/Outbox/Dispatch.antt =====
-- The loop of `OutboxDispatcher.dispatch` and the batch of `SQLiteOutbox.pending`.
use mathlib.Core.Path.{subst}
use lineage_collection.Prelude.{
  ℕ, ◌+◌, ◌≡◌, refl, sym, ap, inl, inr, Bool, List, [], ◌∷◌, arith, length, Has, Bool-cases,
  if◌then◌else◌, leb,
}
use lineage_collection.Models.{OutboxEvent}
use lineage_collection.Database.{Database}
use lineage_collection.Database.Transaction.{Result, ok, err, callback_raised}
use lineage_collection.Broker
use lineage_collection.Outbox.{
  dispatch, pending_rows, publication_of, mark_delivered, deliver_all, then_run,
}
use lineage_collection.Outbox.Delivery.{
  IsDelivered, IsSent, publish-keeps_IsDelivered, mark_delivered-keeps_IsDelivered, publish-IsSent,
  mark_delivered-IsMarked, messages-mark_delivered,
}

then_run-keeps :
    {A B : Type 0} (P : Database → Type 0) (r : Result A × Database)
    (next : Database → Result B × Database)
    → P r.1
    → ((db : Database) → P db → P (next db).1)
    → P (then_run r next).1
then_run-keeps P (ok a, db) next before after = after db before
then_run-keeps P (err e, db) next before after = before

then_run_ok :
    {A B : Type 0} (r : Result A × Database) (next : Database → Result B × Database) (b : B)
    (db' : Database)
    → then_run r next ≡ (ok b, db')
    → (a : A) × (r ≡ (ok a, r.1)) × (next r.1 ≡ (ok b, db'))
then_run_ok (ok a, db) next b db' h = (a, refl, h)
then_run_ok (err e, db) next b db' h = absurd (ground arith)

module _ (after_publish : OutboxEvent → Bool) (clock : ℕ → ℕ) where
  -- The rest of one round, after the publication.
  abbrev finish :
      OutboxEvent → ℕ → (Database → Result ℕ × Database) → Database → Result ℕ × Database
  finish x count rest published =
      if after_publish x
      then then_run (mark_delivered x.outbox_id (clock (count + count + 2)) published) rest
      else (err callback_raised, published)

  finish-keeps :
      (e x : OutboxEvent) (count : ℕ) (rest : Database → Result ℕ × Database) (db : Database)
      → ((s : Database) → IsDelivered e s → IsDelivered e (rest s).1)
      → IsDelivered e db
      → IsDelivered e (finish x count rest db).1
  finish-keeps e x count rest db keeps h = elim (Bool-cases (after_publish x)) [
    | inl returns ↦ rw returns (
        then_run-keeps (IsDelivered e) (mark_delivered x.outbox_id (clock (count + count + 2)) db)
          rest (mark_delivered-keeps_IsDelivered e x.outbox_id (clock (count + count + 2)) db h)
          keeps)
    | inr raises ↦ rw raises h
  ]

  -- What is delivered stays delivered under the rest of the loop.
  deliver_all-keeps :
      (e : OutboxEvent) (count : ℕ) (es : List OutboxEvent) (db : Database)
      → IsDelivered e db
      → IsDelivered e (deliver_all after_publish clock count es db).1
  unfolding deliver_all
  deliver_all-keeps e count [] db h = h
  deliver_all-keeps e count (x ∷ es) db h =
      then_run-keeps (IsDelivered e)
        (Broker.publish (publication_of x) (clock (count + count + 1)) db)
        (finish x count (deliver_all after_publish clock (count + 1) es))
        (publish-keeps_IsDelivered e (publication_of x) (clock (count + count + 1)) db h)
        (λ s hs.
          finish-keeps e x count (deliver_all after_publish clock (count + 1) es) s
            (λ t ht. deliver_all-keeps e (count + 1) es t ht) hs)

  finish_ok :
      (x : OutboxEvent) (count n : ℕ) (rest : Database → Result ℕ × Database) (db db' : Database)
      → IsSent x db
      → finish x count rest db ≡ (ok n, db')
      → (s : Database) × IsDelivered x s × (rest s ≡ (ok n, db'))
  finish_ok x count n rest db db' sent h = elim (Bool-cases (after_publish x)) [
    | inl returns ↦
        let marked = mark_delivered x.outbox_id (clock (count + count + 2)) db in
        let (u, done, next) = then_run_ok marked rest n db' (rw returns at h) in
        let (m, found, content) = sent in
        (
          marked.1,
          (
            (
              m,
              rw (messages-mark_delivered x.outbox_id (clock (count + count + 2)) db) found,
              content,
            ),
            mark_delivered-IsMarked x.outbox_id (clock (count + count + 2)) db marked.1 u done,
          ),
          next,
        )
    | inr raises ↦ absurd (ground arith)
  ]

  -- A dispatch that returns has handled every event of its batch: its message stands in its lane
  -- with its content, it is marked as delivered, and it is counted.
  pub deliver_all_ok :
      (count n : ℕ) (es : List OutboxEvent) (db db' : Database)
      → deliver_all after_publish clock count es db ≡ (ok n, db')
      → (n ≡ count + length es) × ((e : OutboxEvent) → Has e es → IsDelivered e db')
  unfolding deliver_all
  deliver_all_ok count n [] db db' h = (ground arith, λ e nothing. absurd nothing)
  deliver_all_ok count n (x ∷ es) db db' h =
      let published = Broker.publish (publication_of x) (clock (count + count + 1)) db in
      let (id, sent, next) =
        then_run_ok published (finish x count (deliver_all after_publish clock (count + 1) es)) n
          db' h in
      let (s, delivered_x, rest) =
        finish_ok x count n (deliver_all after_publish clock (count + 1) es) published.1 db'
          (publish-IsSent x (clock (count + count + 1)) db published.1 id sent) next in
      let (total, all) = deliver_all_ok (count + 1) n es s db' rest in
      (
        omega (arith, total),
        λ e h_e. elim h_e [
          | inl first ↦
              subst (λ (y : OutboxEvent). IsDelivered y db') (sym first)
                (subst (IsDelivered x) (ap (λ p. p.1) rest)
                  (deliver_all-keeps x (count + 1) es s delivered_x))
          | inr later ↦ all e later
        ],
      )

  -- If `dispatch` returns, every event of the batch that it selected has its message in its lane, with
  -- its content, and is marked as delivered, and the number returned is that of the batch.
  pub dispatch_ok :
      (limit n : ℕ) (db db' : Database)
      → dispatch after_publish clock limit db ≡ (ok n, db')
      → (n ≡ length (pending_rows limit (clock 0) db))
        × ((e : OutboxEvent) → Has e (pending_rows limit (clock 0) db) → IsDelivered e db')
  unfolding dispatch
  dispatch_ok limit n db db' h = elim (Bool-cases (leb 1 limit)) [
    | inl positive ↦
        let (total, all) =
          deliver_all_ok 0 n (pending_rows limit (clock 0) db) db db' (rw positive at h) in
        (omega (arith, total), all)
    | inr zero_limit ↦ absurd (ground arith)
  ]
