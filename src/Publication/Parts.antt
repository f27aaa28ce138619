-- ===== src/Publication/Parts.antt =====
-- The writes of the parts of `publish` (services/publisher.py) that come before its verification, and of
-- calls one after the other.
use lineage_collection.Prelude.{
  ℕ, zero, suc, ◌+◌, ◌-◌, ◌/◌, String, Bool, true, false, ◌≡◌, refl, ◌∙◌, inl, inr, Option, none,
  some, List, [], ◌∷◌, leb, eqb, any, length, take, select, arith, Bool-cases,
}
use lineage_collection.Database.Transaction.{Result, ok, err, transaction, modify, bind_ok}
use lineage_collection.Publication.Tables.{
  Edge, GraphEdge, GraphVersion, OperationStage, Operation, GraphTables,
}
use lineage_collection.Publication.{version_at, edge_at, reserve_tx}
use lineage_collection.Publication.Operations.{
  operation_of, at_stage, advance, ensure_row, ensure_operation, mark_reserved, reserve_created,
  reserve_found, reserve_operation_tx, reserve_operation, create_namespace_tx, create_namespace,
  new_namespace, insert_namespace, write_edge, write_batch, mark_written, write_round_tx,
  after_round, round_end, round, write_edges, finish_writing, load_operation, name_of, drop,
}
use lineage_collection.Publication.Publish.{Run, go_on, then_go, phase, run_phases}
use lineage_collection.Publication.Writes.{
  Write, keeps, adds, Writes, done, then_write, one, Writes-trans, unchanged,
}
use lineage_collection.Publication.Effects.{committed-Writes, reserve_tx-Write}

-- A call that writes, from any tables, what it should.
abbrev pub Safe : {A : Type 0} → Bool → Run A → Type 0
Safe free m = (t : GraphTables) → Writes free t (m t).1

module _ {A B : Type 0} where
  pub then_go-Safe :
      {free : Bool} (m : Run A) (f : A → Run B)
      → Safe free m
      → ((a : A) → Safe free (f a))
      → Safe free (then_go m f)
  then_go-Safe {free} m f first later t = by_result (m t).0 (first t)
    where
      by_result : (r : Result A) → Writes free t (m t).1 → Writes free t (go_on r f (m t).1).1
      by_result (ok a) w = Writes-trans w (later a (m t).1)
      by_result (err e) w = w

pub phase-Safe :
    {free : Bool} (id : String) (test : Operation → Bool) (act : Operation → Run (Unit {0}))
    (o : Operation)
    → ((o : Operation) → Safe free (act o))
    → Safe free (phase id test act o)
unfolding phase
phase-Safe id test act o safe t = elim (Bool-cases (test o)) [
  | inl due ↦
      rw due (then_go-Safe (act o) (λ _ s. (load_operation id s, s)) (safe o) (λ _ s. done) t)
  | inr past ↦ rw past done
]

-- Each of the calls does, from every operation.
abbrev pub AllSafe : Bool → List (Operation → Run Operation) → Type 0
AllSafe free [] = Unit {0}
AllSafe free (p ∷ ps) = ((o : Operation) → Safe free (p o)) × AllSafe free ps

pub run_phases-Safe :
    {free : Bool} (ps : List (Operation → Run Operation)) (o : Operation)
    → AllSafe free ps
    → Safe free (run_phases ps o)
unfolding run_phases
run_phases-Safe [] o all t = done
run_phases-Safe (p ∷ ps) o all t =
    then_go-Safe (p o) (run_phases ps) (all.0 o) (λ o'. run_phases-Safe ps o' all.1) t

ensure_row-same :
    (o : Operation) (row : Option Operation) (t : GraphTables)
    → ((ensure_row o row t).1.pointers ≡ t.pointers)
      × ((ensure_row o row t).1.reservations ≡ t.reservations)
      × ((ensure_row o row t).1.versions ≡ t.versions)
unfolding ensure_row
ensure_row-same o none t = (refl, refl, refl)
ensure_row-same o (some r) t = (refl, refl, refl)

pub ensure_operation-Safe : {free : Bool} (o : Operation) → Safe free (ensure_operation o)
unfolding ensure_operation
ensure_operation-Safe o t =
    let (a, b, c) = ensure_row-same o (select (operation_of o.operation_id) t.operations) t in
    one (keeps a b c)

reserve_created-Write :
    {free : Bool} (id : String) (now : ℕ) (o : Operation) (t t' : GraphTables) (a : Unit {0})
    → reserve_created id now o t ≡ ok (a, t')
    → Writes free t t'
unfolding reserve_created
reserve_created-Write id now o t t' a e =
    let (r, u, reserved, marked) =
      bind_ok (reserve_tx o.env o.expected_prior now) (λ r. modify (mark_reserved id r)) t t' a e in
    then_write (one (reserve_tx-Write o.env o.expected_prior now t u r reserved))
      (keeps (ground arith) (ground arith) (ground arith))

reserve_found-Writes :
    {free : Bool} (id : String) (now : ℕ) (row : Option Operation) (t t' : GraphTables)
    (a : Unit {0})
    → reserve_found id now row t ≡ ok (a, t')
    → Writes free t t'
reserve_found-Writes id now none t t' a e = unchanged (ground arith)
reserve_found-Writes id now (some o) t t' a e =
    elim (Bool-cases (at_stage OperationStage.created o)) [
      | inl first ↦ reserve_created-Write id now o t t' a (ground (arith, e))
      | inr past ↦ unchanged (ground arith)
    ]

pub reserve_operation-Safe :
    {free : Bool} (id : String) (now : ℕ) → Safe free (reserve_operation id now)
unfolding reserve_operation reserve_operation_tx
reserve_operation-Safe id now t =
    committed-Writes (reserve_operation_tx id now) t
      λ a t' e. reserve_found-Writes id now (select (operation_of id) t.operations) t t' a e

-- `any` and `select` look for the same rows.
any-select-none : {A : Type 0} (p : A → Bool) (rs : List A) → select p rs ≡ none → any p rs ≡ false
unfolding select
any-select-none p [] e = refl
any-select-none p (x ∷ rs) e = ground (arith, any-select-none p rs)

insert_namespace-Write :
    {free : Bool} (o : Operation) (now : ℕ) (row : Option GraphVersion) (t u : GraphTables)
    → select (version_at o.env (name_of o)) t.versions ≡ row
    → u.pointers ≡ t.pointers
    → u.reservations ≡ t.reservations
    → u.versions ≡ (insert_namespace o now row t).versions
    → Write free t u
insert_namespace-Write o now none t u e p r v =
    adds (new_namespace o now) refl (any-select-none (version_at o.env (name_of o)) t.versions e) p
      r v
insert_namespace-Write o now (some g) t u e p r v = keeps p r v

insert_namespace-same :
    (o : Operation) (now : ℕ) (row : Option GraphVersion) (t : GraphTables)
    → ((insert_namespace o now row t).pointers ≡ t.pointers)
      × ((insert_namespace o now row t).reservations ≡ t.reservations)
insert_namespace-same o now none t = (refl, refl)
insert_namespace-same o now (some g) t = (refl, refl)

pub create_namespace-Safe :
    {free : Bool} (o : Operation) (now : ℕ) → Safe free (create_namespace o now)
unfolding create_namespace
create_namespace-Safe o now t = committed-Writes (create_namespace_tx o now) t λ a t' e.
    let row : Option GraphVersion = select (version_at o.env (name_of o)) t.versions in
    let same = insert_namespace-same o now row t in
    unfold create_namespace_tx advance in
    one (
      insert_namespace-Write o now row t t' refl (ground (arith, same)) (ground (arith, same))
        (ground (arith, same)))

write_edge-same :
    (env version : String) (e : Edge) (row : Option GraphEdge) (t t' : GraphTables) (a : Unit {0})
    → write_edge env version e row t ≡ ok (a, t')
    → (t'.pointers ≡ t.pointers)
      × (t'.reservations ≡ t.reservations)
      × (t'.versions ≡ t.versions)
      × (t'.operations ≡ t.operations)
unfolding write_edge
write_edge-same env version e none t t' a h = ground arith
write_edge-same env version e (some g) t t' a h = ground arith

pub write_batch-same :
    (env version : String) (es : List Edge) (t t' : GraphTables) (a : Unit {0})
    → write_batch env version es t ≡ ok (a, t')
    → (t'.pointers ≡ t.pointers)
      × (t'.reservations ≡ t.reservations)
      × (t'.versions ≡ t.versions)
      × (t'.operations ≡ t.operations)
unfolding write_batch
write_batch-same env version [] t t' a h = ground arith
write_batch-same env version (e ∷ es) t t' a h =
    let found : Option GraphEdge = select (edge_at env version e.edge_key) t.edges in
    let (x, u, first, rest) =
      bind_ok (write_edge env version e found) (λ _. write_batch env version es) t t' a h in
    let p = write_edge-same env version e found t u x first in
    let q = write_batch-same env version es u t' a rest in
    (q.0 ∙ p.0, q.1 ∙ p.1, q.2 ∙ p.2, q.3 ∙ p.3)

write_round-Safe :
    {free : Bool} (o : Operation) (start end : ℕ) (edges : List Edge)
    → Safe free (transaction (write_round_tx o start end edges))
write_round-Safe o start end edges t =
    committed-Writes (write_round_tx o start end edges) t λ a t' e.
      unfold write_round_tx in
      let (x, u, written, marked) =
        bind_ok (write_batch o.env (name_of o) (take (end - start) (drop start edges)))
          (λ _. modify (mark_written o end edges)) t t' a e in
      let same =
        write_batch-same o.env (name_of o) (take (end - start) (drop start edges)) t u x written in
      one (keeps (ground (arith, same)) (ground (arith, same)) (ground (arith, same)))

finish_writing-Write :
    {free : Bool} (id : String) (t : GraphTables) → Writes free t (finish_writing id t)
unfolding finish_writing
finish_writing-Write id t = one (keeps refl refl refl)

after_round-Safe :
    {free : Bool} (raises last : Bool) (again : Run (Unit {0}))
    (x : Result (Unit {0}) × GraphTables) (t : GraphTables)
    → Safe free again
    → Writes free t x.1
    → Writes free t (after_round raises last again x).1
after_round-Safe raises last again (err e, u) t safe w = w
after_round-Safe true last again (ok _, u) t safe w = w
after_round-Safe false true again (ok _, u) t safe w = w
after_round-Safe false false again (ok _, u) t safe w = Writes-trans w (safe u)

module _ (batch_size : ℕ) (boundary : ℕ → Bool) where
  round-Safe :
      {free : Bool} (again : Run (Unit {0})) (id : String) (edges : List Edge)
      (row : Result Operation)
      → Safe free again
      → Safe free (round batch_size boundary again id edges row)
  unfolding round
  round-Safe again id edges (err e) safe t = done
  round-Safe again id edges (ok o) safe t =
      elim (Bool-cases (leb (length edges) o.next_edge_index)) [
        | inl all ↦ rw (all, round) (finish_writing-Write id t)
        | inr some_left ↦
            let end : ℕ = round_end batch_size boundary o edges in
            rw (some_left, round)
              (after_round-Safe (boundary (o.next_edge_index / batch_size + 1))
                (eqb end (length edges)) again
                (transaction (write_round_tx o o.next_edge_index end edges) t) t safe
                (write_round-Safe o o.next_edge_index end edges t))
      ]

  pub write_edges-Safe :
      {free : Bool} (fuel : ℕ) (id : String) (edges : List Edge)
      → Safe free (write_edges batch_size boundary fuel id edges)
  unfolding write_edges
  write_edges-Safe zero id edges t = done
  write_edges-Safe (suc fuel) id edges t =
      round-Safe (write_edges batch_size boundary fuel id edges) id edges (load_operation id t)
        (write_edges-Safe fuel id edges) t
