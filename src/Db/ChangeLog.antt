-- ===== src/Db/ChangeLog.antt =====
-- The statements on `change_log` and `sync_seq_counter` (server/internal/db/queries.go).
use stok_sync.Common.{some, Bool, not, ◌&&◌, List, [], ◌∷◌, ◌++◌, any_some, if◌then◌else◌, ◌==◌}
use stok_sync.Common.Int.{ℤ, pos, pos_part, ◌+ℤ◌, ltb_ℤ, leb_ℤ, eq_ℤ}
use stok_sync.Common.Lists.{exists_row, where_rows, sort_by, take}
use stok_sync.Errors.{row_limit}
use stok_sync.Db.Types.{
  Database, ChangeLogEntry, AppendChangeLogParams, InsertChangeLogParams, ListChangeLogParams,
}
use stok_sync.Db.Tx.{
  Outcome, row, no_row, violation, Tx, statement, select_one, select_rows, fail, ◌>>=◌,
}
use stok_sync.Db.Products.{owns_device}

unfoldable pub allocate_change_sequence_sql : Database → Outcome ℤ
allocate_change_sequence_sql db =
    row (db.last_seq +ℤ pos 1) (record db { last_seq = db.last_seq +ℤ pos 1 })

abbrev pub logged : InsertChangeLogParams → Database → ChangeLogEntry
logged params db = record {
  seq = params.seq;
  user_id = params.user_id;
  entity = params.entity;
  entity_id = params.entity_id;
  op = params.op;
  payload = db.jsonb params.payload;
  origin_device_id = params.origin_device_id;
  created_at = db.clock;
}

unfoldable pub insert_change_log_sql : InsertChangeLogParams → Database → Outcome ChangeLogEntry
insert_change_log_sql params db =
    if any_some (λ device. not (owns_device params.user_id device db.devices))
      params.origin_device_id
    then no_row
    else if exists_row (λ e. eq_ℤ e.seq params.seq) db.change_log
    then violation "change_log_pkey"
    else row (logged params db) (record db { change_log = db.change_log ++ logged params db ∷ [] })

abbrev pub after_cursor : ListChangeLogParams → ChangeLogEntry → Bool
after_cursor params e = e.user_id == params.user_id && ltb_ℤ params.after_seq e.seq

abbrev pub seq_order : ChangeLogEntry → ChangeLogEntry → Bool
seq_order a b = leb_ℤ a.seq b.seq

-- ORDER BY seq ASC LIMIT $3.
unfoldable pub list_change_log_sql : ListChangeLogParams → Database → List ChangeLogEntry
list_change_log_sql params db =
    take (pos_part params.max_changes)
      (sort_by seq_order (where_rows (after_cursor params) db.change_log))

unfoldable pub allocate_change_sequence : Tx ℤ
unfolding statement allocate_change_sequence_sql
allocate_change_sequence = statement allocate_change_sequence_sql

unfoldable pub current_change_sequence : Tx ℤ
unfolding select_one
current_change_sequence = select_one (λ db. some db.last_seq)

unfoldable pub insert_change_log : InsertChangeLogParams → Tx ChangeLogEntry
unfolding statement insert_change_log_sql
insert_change_log params = statement (insert_change_log_sql params)

unfoldable pub append_change_log : AppendChangeLogParams → Tx ChangeLogEntry
unfolding allocate_change_sequence insert_change_log
append_change_log params = do
  seq ← allocate_change_sequence
  insert_change_log (record {
    seq = seq;
    user_id = params.user_id;
    entity = params.entity;
    entity_id = params.entity_id;
    op = params.op;
    payload = params.payload;
    origin_device_id = params.origin_device_id;
  })

unfoldable pub list_change_log : ListChangeLogParams → Tx (List ChangeLogEntry)
unfolding select_rows list_change_log_sql
list_change_log params =
    if leb_ℤ params.max_changes (pos 0)
    then fail row_limit
    else select_rows (list_change_log_sql params)
