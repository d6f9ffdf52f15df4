-- ===== src/Database/Operations/RunSheet.antt =====
-- The run sheet: `saveRunSheetItem` and `deleteRunSheetItem`.
use lovechapter.Prelude.{ℕ, Bool, true, false, ◌∷◌, any}
use lovechapter.Prelude.Result.{database_error, ok, ◌>>=◌, ◌>>◌, throw_if}
use lovechapter.Auth.Tables.{update_where, delete_where, first_where}
use lovechapter.Database.Rows.{Scope, RunSheetDetails, RunSheetRow, keyed}
use lovechapter.Database.Operations.{Method, authorized, require_row}

abbrev pub item_at : ℕ → ℕ → RunSheetRow → Bool
item_at w id i = keyed w id i.wedding_id i.id

unfoldable pub save_run_sheet_item : Scope → ℕ → RunSheetDetails → Bool → Method RunSheetRow
save_run_sheet_item s id input true db = do
  authorized s db
  throw_if (any (item_at s.wedding_id id) db.run_sheet) (database_error "duplicate key")
  let row : RunSheetRow = record { wedding_id = s.wedding_id; id = id; details = input }
  ok (row, record db { run_sheet = row ∷ db.run_sheet })
save_run_sheet_item s id input false db = do
  authorized s db
  row ← require_row "Schedule item not found" (first_where (item_at s.wedding_id id) db.run_sheet)
  ok (
    record row { details = input },
    record db {
      run_sheet =
          update_where (item_at s.wedding_id id) (λ i. record i { details = input }) db.run_sheet;
    },
  )

unfoldable pub delete_run_sheet_item : Scope → ℕ → Method (Unit {0})
delete_run_sheet_item s id db = do
  authorized s db
  _ ← require_row "Schedule item not found" (first_where (item_at s.wedding_id id) db.run_sheet)
  ok (tt, record db { run_sheet = delete_where (item_at s.wedding_id id) db.run_sheet })
