-- ===== src/Domain/Impact.antt =====
-- `severity_for` of domain/impact.py.
pub mod Monotone
use lineage_collection.Prelude.{ℕ, Bool, true, false, ◌&&◌, leb, if◌then◌else◌}
use lineage_collection.Domain.Confidence.{Band, lowest, single, medium, high, highest}

-- The texts that pass the two checks; any other raises.
pub data ChangeType : Type 0 where
  column_drop column_type_change dataset_removal column_rename transform_change fingerprint_drift :
      ChangeType

-- `BAND_ORDER`
unfoldable pub band_order : Band → ℕ
band_order lowest = 0
band_order single = 1
band_order medium = 2
band_order high = 3
band_order highest = 4

-- Membership in `DESTRUCTIVE_CHANGES`
unfoldable pub destructive : ChangeType → Bool
destructive column_drop = true
destructive column_type_change = true
destructive dataset_removal = true
destructive _ = false

pub data Severity : Type 0 where
  info warn block : Severity

unfoldable pub severity_for : ChangeType → Band → Severity
severity_for change band =
    if destructive change && leb (band_order high) (band_order band)
    then block
    else if leb (band_order medium) (band_order band)
    then warn
    else info
