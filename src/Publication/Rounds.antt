-- ===== src/Publication/Rounds.antt =====
-- The loop of `_write_operation_edges` (services/publisher.py) and its fuel.
use mathlib.Core.Option
use lineage_collection.Prelude.{
  ℕ, zero, suc, ◌+◌, ◌-◌, ◌/◌, ◌<◌, ◌≤◌, String, Bool, true, false, ◌≡◌, ◌≢◌, refl, sym, ap, ◌∙◌,
  inl, inr, Option, none, some, List, [], ◌∷◌, leb, eqb, length, take, if◌then◌else◌, select,
  set_if, select-update, select-Has, arith, Bool-cases, Option-cases, eq_iff,
}
use lineage_collection.Database.Transaction.{
  Result, ok, err, out_of_fuel, runtime_error, transaction, committed, bind_ok, Result-cases,
  modify,
}
use lineage_collection.Publication.Tables.{Edge, GraphEdge, Operation, OperationStage, GraphTables}
use lineage_collection.Publication.{edge_at}
use lineage_collection.Publication.Operations.{
  operation_of, load_operation, write_edge, write_batch, mark_written, write_round_tx, after_round,
  round_end, round, write_edges, drop, name_of,
}
use lineage_collection.Publication.Parts.{write_batch-same}

write_edge_error :
    (env version : String) (e : Edge) (row : Option GraphEdge) (t : GraphTables)
    → write_edge env version e row t ≢ err out_of_fuel
unfolding write_edge
write_edge_error env version e none t h = cc
write_edge_error env version e (some g) t h = ground arith

write_batch_error :
    (env version : String) (es : List Edge) (t : GraphTables)
    → write_batch env version es t ≢ err out_of_fuel
unfolding write_batch
write_batch_error env version [] t h = cc
write_batch_error env version (e ∷ es) t h =
    let found : Option GraphEdge = select (edge_at env version e.edge_key) t.edges in
    elim (Result-cases (write_edge env version e found t)) [
      | inl ((a, u), first) ↦ write_batch_error env version es u (ground (arith, first, h))
      | inr (x, fails) ↦ write_edge_error env version e found t (ground (arith, fails, h))
    ]

write_round_error :
    (o : Operation) (start end : ℕ) (edges : List Edge) (t : GraphTables)
    → write_round_tx o start end edges t ≢ err out_of_fuel
unfolding write_round_tx
write_round_error o start end edges t h =
    let batch : List Edge = take (end - start) (drop start edges) in
    elim (Result-cases (write_batch o.env (name_of o) batch t)) [
      | inl ((a, u), written) ↦ ground (arith, written, h)
      | inr (x, fails) ↦ write_batch_error o.env (name_of o) batch t (ground (arith, fails, h))
    ]

-- After a round the operation stands at its end.
write_round-next :
    (o : Operation) (start end : ℕ) (edges : List Edge) (t u : GraphTables) (a : Unit {0})
    → select (operation_of o.operation_id) t.operations ≡ some o
    → write_round_tx o start end edges t ≡ ok (a, u)
    → (o' : Operation) × (select (operation_of o.operation_id) u.operations ≡ some o')
      × (o'.next_edge_index ≡ end)
unfolding write_round_tx
write_round-next o start end edges t u a found h =
    let batch : List Edge = take (end - start) (drop start edges) in
    let (x, t1, written, marked) =
      bind_ok (write_batch o.env (name_of o) batch) (λ _. modify (mark_written o end edges)) t u a
        h in
    let same = (write_batch-same o.env (name_of o) batch t t1 x written).3 in
    let table : u.operations ≡ (mark_written o end edges t).operations =
      ground (arith, marked, same) in
    let test : Operation → Bool = operation_of o.operation_id in
    let f : Operation → Operation = λ x. record x {
      next_edge_index = end;
      stage =
          if eqb end (length edges)
          then OperationStage.edges_written
          else OperationStage.edges_writing;
    } in
    let hit : test o ≡ true = (select-Has test t.operations found).1 in
    (
      f o,
      ap (select test) table
          ∙ select-update test test f t.operations (kept f (λ r. refl))
          ∙ ap (Option.map (set_if test f)) found
          ∙ (rw hit refl),
      refl,
    )
  where
    kept :
        (f : Operation → Operation)
        → ((r : Operation) → (f r).operation_id ≡ r.operation_id)
        → (r : Operation)
        → operation_of o.operation_id (set_if (operation_of o.operation_id) f r)
          ≡ operation_of o.operation_id r
    kept f same r = elim (Bool-cases (operation_of o.operation_id r)) [
      | inl hit ↦ rw hit (rw (same r) hit)
      | inr miss ↦ rw miss miss
    ]

after_round_total :
    (raises last : Bool) (again : GraphTables → Result (Unit {0}) × GraphTables)
    (x : Result (Unit {0}) × GraphTables)
    → x.0 ≢ err out_of_fuel
    → ((u : GraphTables) → last ≡ false → x ≡ (ok tt, u) → (again u).0 ≢ err out_of_fuel)
    → (after_round raises last again x).0 ≢ err out_of_fuel
after_round_total raises last again (err e, u) safe ih h = safe h
after_round_total true last again (ok a, u) safe ih h = cc
after_round_total false true again (ok a, u) safe ih h = cc
after_round_total false false again (ok a, u) safe ih h = ih u refl refl h

round_error :
    (o : Operation) (start end : ℕ) (edges : List Edge) (t : GraphTables)
    → (transaction (write_round_tx o start end edges) t).0 ≢ err out_of_fuel
round_error o start end edges t h = elim (Result-cases (write_round_tx o start end edges t)) [
  | inl ((a, u), written) ↦ ground (arith, written, h)
  | inr (x, fails) ↦ write_round_error o start end edges t (ground (arith, fails, h))
]

load_some :
    (id : String) (t : GraphTables) (o : Operation)
    → select (operation_of id) t.operations ≡ some o
    → load_operation id t ≡ ok o
unfolding load_operation
load_some id t o e = rw (e, load_operation) refl

load_none :
    (id : String) (t : GraphTables)
    → select (operation_of id) t.operations ≡ none
    → load_operation id t ≡ err runtime_error
unfolding load_operation
load_none id t e = rw (e, load_operation) refl

module _ (batch_size : ℕ) (boundary : ℕ → Bool) (positive : 0 < batch_size) where
  -- A round makes progress, or it is the last one.
  round_progress :
      (o : Operation) (edges : List Edge)
      → o.next_edge_index < length edges
      → (o.next_edge_index < round_end batch_size boundary o edges)
        × (round_end batch_size boundary o edges ≤ length edges)
  round_progress o edges lt = ground (arith, positive)

  round_total :
      (fuel : ℕ) (again : GraphTables → Result (Unit {0}) × GraphTables) (id : String)
      (edges : List Edge) (t : GraphTables) (o : Operation)
      → select (operation_of id) t.operations ≡ some o
      → length edges < o.next_edge_index + suc fuel
      → ((u : GraphTables) (o' : Operation)
          → select (operation_of id) u.operations ≡ some o'
          → o'.next_edge_index < length edges
          → length edges < o'.next_edge_index + fuel
          → (again u).0 ≢ err out_of_fuel)
      → (round batch_size boundary again id edges (ok o) t).0 ≢ err out_of_fuel
  round_total fuel again id edges t o found enough ih h =
      elim (Bool-cases (leb (length edges) o.next_edge_index)) [
        | inl all ↦ unfold round in ground (arith, all, h)
        | inr some_left ↦
            let end : ℕ = round_end batch_size boundary o edges in
            let (more, within) = round_progress o edges (ground (arith, some_left)) in
            let same : o.operation_id ≡ id =
              (eq_iff o.operation_id id).0 (select-Has (operation_of id) t.operations found).1 in
            let mine : select (operation_of o.operation_id) t.operations ≡ some o =
              ap (λ i. select (operation_of i) t.operations) same ∙ found in
            after_round_total (boundary (o.next_edge_index / batch_size + 1))
              (eqb end (length edges)) again
              (transaction (write_round_tx o o.next_edge_index end edges) t)
              (round_error o o.next_edge_index end edges t)
              (λ u inside e.
                let (o', there, at) =
                  write_round-next o o.next_edge_index end edges t u tt mine
                    (committed (write_round_tx o o.next_edge_index end edges) t tt u e) in
                ih u o' (ap (λ i. select (operation_of i) u.operations) (sym same) ∙ there)
                  (ground (arith, inside, within, at)) (omega (arith, enough, more, at)))
              (unfold round in ground (arith, some_left, h))
      ]

  enough_fuel :
      (fuel : ℕ) (id : String) (edges : List Edge) (t : GraphTables)
      → 0 < fuel
      → ((o : Operation)
          → select (operation_of id) t.operations ≡ some o
          → length edges < o.next_edge_index + fuel)
      → (write_edges batch_size boundary fuel id edges t).0 ≢ err out_of_fuel
  unfolding write_edges
  enough_fuel zero id edges t some_fuel enough = elim some_fuel [ ]
  enough_fuel (suc fuel) id edges t some_fuel enough =
      elim (Option-cases (select (operation_of id) t.operations)) [
        | inl missing ↦
            rw (load_none id t missing, write_edges) (λ h. unfold round in ground (arith, h))
        | inr (o, found) ↦
            rw (load_some id t o found, write_edges)
              (round_total fuel (write_edges batch_size boundary fuel id edges) id edges t o found
                (enough o found)
                λ u o' there more lt.
                  enough_fuel fuel id edges u (omega (arith, more, lt)) λ x here.
                    let same : some o' ≡ some x = sym there ∙ here in
                    let one : o' ≡ x = cc in
                    let at : o'.next_edge_index ≡ x.next_edge_index =
                      ap (λ (y : Operation). y.next_edge_index) one in
                    omega (arith, lt, at))
      ]

  -- With a positive batch size, one more round than there are edges is fuel enough: from any tables the
  -- loop ends as it does in the source, by its return or by an exception.
  pub write_edges_total :
      (id : String) (edges : List Edge) (t : GraphTables)
      → (write_edges batch_size boundary (suc (length edges)) id edges t).0 ≢ err out_of_fuel
  write_edges_total id edges t =
      enough_fuel (suc (length edges)) id edges t (omega arith) (λ o found. omega arith)
