-- ===== src/Run/Summary.antt =====
-- `_merge_run_error_summary` of run_coordinator.py: the JSON column `error_summary`. Of a value the
-- model keeps that its key is there.
use sf_bulk_loader.Prelude.{Bool, true, false}

pub data SummaryKey : Type 0 where
  preflight_warnings output_storage_error auth_error storage_error : SummaryKey
  unexpected_exception circuit_breaker unknown_exit : SummaryKey

-- NULL or an empty text; an object, by its keys; any other text, valid JSON or not.
pub data SummaryColumn : Type 0 where
  null : SummaryColumn
  object : (SummaryKey → Bool) → SummaryColumn
  not_object : SummaryColumn

unfoldable pub same_key : SummaryKey → SummaryKey → Bool
same_key preflight_warnings preflight_warnings = true
same_key output_storage_error output_storage_error = true
same_key auth_error auth_error = true
same_key storage_error storage_error = true
same_key unexpected_exception unexpected_exception = true
same_key circuit_breaker circuit_breaker = true
same_key unknown_exit unknown_exit = true
same_key _ _ = false

unfoldable pub existing_keys : SummaryColumn → SummaryKey → Bool
existing_keys null k = false
existing_keys (object keys) k = keys k
existing_keys not_object k = false

-- `existing.update(updates)` for an update of one key.
unfoldable pub merge_summary : SummaryKey → SummaryColumn → SummaryColumn
unfolding existing_keys same_key
merge_summary k column =
    object λ j. elim (same_key k j) [ true ↦ true | false ↦ existing_keys column j ]
