-- ===== src/Publication/Operations.antt =====
-- `publish` of services/publisher.py: an operation that goes through its stages, each committed on its own,
-- so that a publication that was interrupted can be resumed. The hook that is called at each boundary is
-- the parameter `fault`, true where it raises. The digests are parameters, as in Publication.
use lineage_collection.Prelude.{
  ℕ, zero, suc, ◌+◌, ◌-◌, ◌/◌, String, Bool, true, false, ◌&&◌, ◌||◌, Option, none, some, List, [],
  ◌∷◌, ◌++◌, ◌==◌, leb, eqb, length, take, same_option, select, select_all, update, if◌then◌else◌,
}
use lineage_collection.Database.Transaction.{
  Result, ok, err, Tx, namespace_conflict, publication_conflict, fault, value_error, out_of_fuel,
  runtime_error, ◌>>=◌, ◌>>◌, guard, modify, gets, transaction,
}
use lineage_collection.Domain.Proposals.{ProposalState, approved}
use lineage_collection.Publication.Tables.{
  Edge, PublishReservation, staging, GraphVersion, GraphEdge, OperationStage, Operation,
  GraphTables,
}
use lineage_collection.Publication.{
  version_at, edge_at, edge_row, reserve_tx, edge_in, sort_by, insert_by, version_name,
}

-- What `publish` reads of the proposal and of its approval. The digests of both are texts.
pub record Proposal : Type 0 where
  pub proposal_id : String
  pub version : ℕ
  pub state : ProposalState
  pub expected_base_version : String
  pub removed : List String
  pub added : List Edge
  pub band_changed : List Edge
  pub correlation_id : String
  pub proposal_digest : String

pub record Approval : Type 0 where
  pub approval_id : String
  pub proposal_id : String
  pub proposal_version : ℕ
  pub is_approved : Bool
  pub actor : String
  pub approval_ref : String
  pub approval_checksum : String

abbrev is_approved_state : ProposalState → Bool
is_approved_state approved = true
is_approved_state _ = false

-- `_assert_approved`
unfoldable pub approval_matches : Proposal → Approval → Bool
approval_matches p a =
    is_approved_state p.state
    && (a.is_approved && (a.proposal_id == p.proposal_id && eqb a.proposal_version p.version))

-- The dictionary `current` of `_projected_edges`: an entry keeps its place when it is set again. A base
-- payload that is no object is `none`.
abbrev pub Entries : Type 0
Entries = List (String × Option Edge)

unfoldable pub set_entry : String → Option Edge → Entries → Entries
set_entry k e [] = (k, e) ∷ []
set_entry k e ((j, x) ∷ es) = if j == k then (k, e) ∷ es else (j, x) ∷ set_entry k e es

unfoldable pub pop_entry : String → Entries → Entries
pop_entry k [] = []
pop_entry k ((j, x) ∷ es) = if j == k then es else (j, x) ∷ pop_entry k es

unfoldable pub current_edges : List GraphEdge → Entries → Entries
current_edges [] es = es
current_edges (g ∷ gs) es = current_edges gs (set_entry g.edge_key g.payload es)

unfoldable pub pop_all : List String → Entries → Entries
pop_all [] es = es
pop_all (k ∷ ks) es = pop_all ks (pop_entry k es)

abbrev pub published : Edge → Edge
published e = record e { status = some "PUBLISHED" }

unfoldable pub put_all : List Edge → Entries → Entries
put_all [] es = es
put_all (x ∷ xs) es = put_all xs (set_entry x.edge_key (some (published x)) es)

-- The key of the final sort raises on an entry that is no object.
unfoldable pub entry_edges : Entries → Option (List Edge)
entry_edges [] = some []
entry_edges ((k, none) ∷ es) = none
entry_edges ((k, some e) ∷ es) = elim (entry_edges es) [ none ↦ none | some xs ↦ some (e ∷ xs) ]

-- `_projected_edges`
unfoldable pub projected_edges : String → Proposal → GraphTables → Result (List Edge)
unfolding current_edges entry_edges set_entry pop_all pop_entry put_all sort_by insert_by select_all
projected_edges env p t =
    let base = select_all (edge_in env p.expected_base_version) t.edges in
    elim (entry_edges
      (put_all (p.added ++ p.band_changed) (pop_all p.removed (current_edges base [])))) [
        | none ↦ err value_error
        | some es ↦ ok (sort_by (λ (e : Edge). e.edge_key) es)
      ]

abbrev pub operation_of : String → Operation → Bool
operation_of id o = o.operation_id == id

abbrev stage_code : OperationStage → ℕ
stage_code OperationStage.created = 0
stage_code OperationStage.reserved = 1
stage_code OperationStage.manifest_written = 2
stage_code OperationStage.namespace_created = 3
stage_code OperationStage.edges_writing = 4
stage_code OperationStage.edges_written = 5
stage_code OperationStage.verified = 6
stage_code OperationStage.activated = 7
stage_code OperationStage.delivery_confirmed = 8
stage_code OperationStage.completed = 9
stage_code OperationStage.failed_verify_retained = 10
stage_code OperationStage.failed_verify_discarded = 11

abbrev pub at_stage : OperationStage → Operation → Bool
at_stage s o = eqb (stage_code o.stage) (stage_code s)

-- `_load_operation`
unfoldable pub load_operation : String → GraphTables → Result Operation
load_operation id t = elim (select (operation_of id) t.operations) [
  | none ↦ err runtime_error
  | some o ↦ ok o
]

-- UPDATE publication_operations SET ... WHERE operation_id = ? AND stage = ?
unfoldable pub advance :
    String → OperationStage → (Operation → Operation) → GraphTables → GraphTables
advance id from f t = record t {
  operations = update (λ o. operation_of id o && at_stage from o) f t.operations;
}

abbrev pub to_stage : OperationStage → Operation → Operation
to_stage s o = record o { stage = s }

-- `_ensure_operation`: INSERT OR IGNORE, and the check that follows. `operation` is the row that it inserts.
abbrev pub operation_matches : Operation → Operation → Bool
operation_matches o row =
    row.proposal_digest == o.proposal_digest
    && (row.approval_ref == o.approval_ref
        && (row.edge_checksum == o.edge_checksum && eqb row.edge_count o.edge_count))

unfoldable pub ensure_row : Operation → Option Operation → GraphTables → Operation × GraphTables
ensure_row o none t = (o, record t { operations = t.operations ++ o ∷ [] })
ensure_row o (some row) t = (row, t)

-- The insertion commits even when the check raises.
unfoldable pub ensure_operation : Operation → GraphTables → Result Operation × GraphTables
ensure_operation o t =
    let (row, t') = ensure_row o (select (operation_of o.operation_id) t.operations) t in
    (if operation_matches o row then ok row else err publication_conflict, t')

-- `_reserve_operation`
abbrev pub mark_reserved : String → PublishReservation → GraphTables → GraphTables
mark_reserved id r t = record t {
  operations =
      update (operation_of id)
        (λ o. record o {
          token = some r.token;
          namespace_version = some (version_name r.token);
          stage = OperationStage.reserved;
        })
        t.operations;
}

unfoldable pub reserve_created : String → ℕ → Operation → Tx GraphTables (Unit {0})
reserve_created id now o = do r ← reserve_tx o.env o.expected_prior now; modify (mark_reserved id r)

abbrev pub reserve_found : String → ℕ → Option Operation → Tx GraphTables (Unit {0})
reserve_found id now none t = ok (tt, t)
reserve_found id now (some o) t =
    if at_stage OperationStage.created o then reserve_created id now o t else ok (tt, t)

unfoldable pub reserve_operation_tx : String → ℕ → Tx GraphTables (Unit {0})
reserve_operation_tx id now t = reserve_found id now (select (operation_of id) t.operations) t

unfoldable pub reserve_operation : String → ℕ → GraphTables → Result (Unit {0}) × GraphTables
reserve_operation id now = transaction (reserve_operation_tx id now)

abbrev pub name_of : Operation → String
name_of o = elim o.namespace_version [ none ↦ "" | some v ↦ v ]

abbrev pub token_of : Operation → ℕ
token_of o = elim o.token [ none ↦ 0 | some n ↦ n ]

abbrev pub manifest_of : Operation → String
manifest_of o = elim o.manifest_ref [ none ↦ "" | some m ↦ m ]

-- `_create_operation_namespace`
abbrev pub same_namespace : Operation → Option GraphVersion → Bool
same_namespace o none = true
same_namespace o (some g) =
    same_option g.manifest_ref o.manifest_ref && g.checksum == o.edge_checksum

abbrev pub new_namespace : Operation → ℕ → GraphVersion
new_namespace o now = record {
  env = o.env;
  version = name_of o;
  state = staging;
  manifest_ref = o.manifest_ref;
  checksum = o.edge_checksum;
  created_at = now;
}

abbrev pub insert_namespace : Operation → ℕ → Option GraphVersion → GraphTables → GraphTables
insert_namespace o now none t = record t { versions = t.versions ++ new_namespace o now ∷ [] }
insert_namespace o now (some _) t = t

unfoldable pub create_namespace_tx : Operation → ℕ → Tx GraphTables (Unit {0})
create_namespace_tx o now = do
  existing ← gets (λ t. select (version_at o.env (name_of o)) t.versions)
  guard (same_namespace o existing) namespace_conflict
  modify (insert_namespace o now existing)
  modify (
      advance o.operation_id OperationStage.manifest_written (
        to_stage (
          if eqb o.edge_count 0
          then OperationStage.edges_written
          else OperationStage.namespace_created)))

unfoldable pub create_namespace : Operation → ℕ → GraphTables → Result (Unit {0}) × GraphTables
create_namespace o now = transaction (create_namespace_tx o now)

-- One edge of a batch: an equal row is kept, a different one is a conflict.
abbrev pub same_payload : Edge → GraphEdge → Bool
same_payload e g = elim g.payload [
  | none ↦ false
  | some x ↦
      x.edge_key == e.edge_key
      && (same_option x.status e.status
          && (x.system == e.system && (eqb x.version e.version && x.body == e.body)))
]

unfoldable pub write_edge : String → String → Edge → Option GraphEdge → Tx GraphTables (Unit {0})
write_edge env version e none t =
    ok (tt, record t { edges = t.edges ++ edge_row env version e ∷ [] })
write_edge env version e (some g) t =
    if same_payload e g then ok (tt, t) else err namespace_conflict

unfoldable pub write_batch : String → String → List Edge → Tx GraphTables (Unit {0})
write_batch env version [] t = ok (tt, t)
write_batch env version (e ∷ es) t =
    (write_edge env version e (select (edge_at env version e.edge_key) t.edges)
        >> write_batch env version es)
      t

abbrev pub drop : ℕ → List Edge → List Edge
drop zero es = es
drop (suc n) [] = []
drop (suc n) (e ∷ es) = drop n es

abbrev pub mark_written : Operation → ℕ → List Edge → GraphTables → GraphTables
mark_written o end edges t = record t {
  operations =
      update (operation_of o.operation_id)
        (λ x. record x {
          next_edge_index = end;
          stage =
              if eqb end (length edges)
              then OperationStage.edges_written
              else OperationStage.edges_writing;
        })
        t.operations;
}

-- The transaction of one round of the loop, from `start` to `end`.
unfoldable pub write_round_tx : Operation → ℕ → ℕ → List Edge → Tx GraphTables (Unit {0})
write_round_tx o start end edges = do
  write_batch o.env (name_of o) (take (end - start) (drop start edges))
  modify (mark_written o end edges)

abbrev pub is_writing : Operation → Bool
is_writing o =
    at_stage OperationStage.namespace_created o || at_stage OperationStage.edges_writing o

unfoldable pub finish_writing : String → GraphTables → GraphTables
finish_writing id t = record t {
  operations =
      update (λ o. operation_of id o && is_writing o) (to_stage OperationStage.edges_written)
        t.operations;
}

abbrev pub least : ℕ → ℕ → ℕ
least a b = if leb a b then a else b

-- What follows the transaction of a round: the hook, which may raise, and the next round or the return.
abbrev pub after_round :
    Bool
    → Bool
    → (GraphTables → Result (Unit {0}) × GraphTables)
    → Result (Unit {0}) × GraphTables
    → Result (Unit {0}) × GraphTables
after_round raises last again (err e, t) = (err e, t)
after_round true last again (ok _, t) = (err fault, t)
after_round false true again (ok _, t) = (ok tt, t)
after_round false false again (ok _, t) = again t

module _ (batch_size : ℕ) (boundary : ℕ → Bool) where
  -- One round of the loop of `_write_operation_edges`, on the operation that it loads.
  abbrev pub round_end : Operation → List Edge → ℕ
  round_end o edges = least (o.next_edge_index + batch_size) (length edges)

  unfoldable pub round :
      (GraphTables → Result (Unit {0}) × GraphTables)
      → String
      → List Edge
      → Result Operation
      → GraphTables
      → Result (Unit {0}) × GraphTables
  round again id edges (err e) t = (err e, t)
  round again id edges (ok o) t = elim (leb (length edges) o.next_edge_index) [
    | true ↦ (ok tt, finish_writing id t)
    | false ↦
        after_round (boundary (o.next_edge_index / batch_size + 1))
          (eqb (round_end o edges) (length edges)) again
          (transaction (write_round_tx o o.next_edge_index (round_end o edges) edges) t)
  ]

  -- `_write_operation_edges`: each round writes at least one edge, so that one more than the number of the
  -- edges is fuel enough. A fault at a boundary leaves what has been committed.
  unfoldable pub write_edges :
      ℕ → String → List Edge → GraphTables → Result (Unit {0}) × GraphTables
  unfolding round load_operation
  write_edges zero id edges t = (err out_of_fuel, t)
  write_edges (suc fuel) id edges t =
      round (write_edges fuel id edges) id edges (load_operation id t) t
