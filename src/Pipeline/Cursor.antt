-- ===== src/Pipeline/Cursor.antt =====
-- packages/ingest/src/pipeline/persist-cursor.ts.
use wtfoc.Prelude.{
  String, Bool, ◌&&◌, Option, none, some, or_else, if◌then◌else◌, ◌==◌, text_has_eq,
}
use wtfoc.Prelude.Text.{units, text_ltb}
use wtfoc.Schema.{truthy}

pub record CursorDecisionInput : Type 0 where
  pub is_partial_run : Bool
  pub repo_head_sha : Option String
  pub max_timestamp : String
  pub existing_cursor_value : Option String

pub data CursorReason : Type 0 where
  partial_run repo_head no_data existing_cursor_no_regression max_time : CursorReason

pub record CursorDecision : Type 0 where
  pub cursor_value : Option String
  pub reason : CursorReason

unfoldable pub decide_cursor_value : CursorDecisionInput → CursorDecision
decide_cursor_value i =
    if i.is_partial_run
    then record { cursor_value = none; reason = partial_run }
    else (if truthy i.repo_head_sha
        then record { cursor_value = i.repo_head_sha; reason = repo_head }
        else (if i.max_timestamp == ""
            then record { cursor_value = none; reason = no_data }
            else (if truthy i.existing_cursor_value
                  && text_ltb (units i.max_timestamp) (units (or_else i.existing_cursor_value ""))
                then record {
                  cursor_value = i.existing_cursor_value;
                  reason = existing_cursor_no_regression;
                }
                else record { cursor_value = some (i.max_timestamp); reason = max_time })))
