-- ===== src/Domain/Impact/Monotone.antt =====
-- `derive_band` and `severity_for` under more evidence.
use lineage_collection.Prelude.{ℕ, ◌≤◌, String, ◌≡◌, Bool, true, Option, List, arith}
use lineage_collection.Database.Transaction.{ok}
use lineage_collection.Domain.Confidence.{Band, member, subset, derive_band}
use lineage_collection.Domain.Confidence.Table.{table, derive_band-table, subset-member}
use lineage_collection.Domain.Impact.{
  ChangeType, Severity, info, warn, block, band_order, severity_for,
}

-- The severities in their order.
abbrev pub severity_rank : Severity → ℕ
severity_rank info = 0
severity_rank warn = 1
severity_rank block = 2

severity_for_mono :
    (change : ChangeType) (b c : Band)
    → band_order b ≤ band_order c
    → severity_rank (severity_for change b) ≤ severity_rank (severity_for change c)
unfolding severity_for
severity_for_mono change b c h = ground arith

table_mono :
    (a a' b b' c c' : Bool) (x y : Band)
    → (a ≡ true → a' ≡ true)
    → (b ≡ true → b' ≡ true)
    → (c ≡ true → c' ≡ true)
    → table a b c ≡ Option.some x
    → table a' b' c' ≡ Option.some y
    → band_order x ≤ band_order y
unfolding band_order
table_mono a a' b b' c c' x y ha hb hc e f = ground arith

-- If every mechanism of one set is in another, and a band is derived from both, the band of the first
-- is at most that of the second, and so is the severity of each change.
pub evidence_raises_severity :
    (change : ChangeType) (ms ns : List String) (b c : Band)
    → subset ms ns ≡ true
    → derive_band ms ≡ ok b
    → derive_band ns ≡ ok c
    → (band_order b ≤ band_order c)
      × (severity_rank (severity_for change b) ≤ severity_rank (severity_for change c))
evidence_raises_severity change ms ns b c h e f =
    let (_, at_b) = derive_band-table ms b e in
    let (_, at_c) = derive_band-table ns c f in
    let le =
      table_mono (member "SCA" ms) (member "SCA" ns) (member "LLM" ms) (member "LLM" ns)
        (member "RUNTIME" ms) (member "RUNTIME" ns) b c (subset-member "SCA" ms ns h)
        (subset-member "LLM" ms ns h) (subset-member "RUNTIME" ms ns h) at_b at_c in
    (le, severity_for_mono change b c le)
