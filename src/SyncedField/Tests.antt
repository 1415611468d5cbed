-- ===== src/SyncedField/Tests.antt =====
-- The field of useServerSyncedField.ts at concrete renders.
use full_stack_resume.Common.{String, ◌≡◌, refl, true, false, none, some}
use full_stack_resume.SyncedField.{FieldInput, synced_value}

abbrev editing : String → FieldInput
editing server = record {
  change_token = none;
  is_dirty = true;
  local_value = "mine";
  server_value = server;
}

-- A clean field takes the server's value.
clean_test :
    synced_value
      (record { change_token = none; is_dirty = false; local_value = "old"; server_value = "new" })
    ≡ some "new"
unfolding synced_value
clean_test = refl
