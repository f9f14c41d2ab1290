-- ===== src/Store/Parts.antt =====
-- internal/store/store.go: the transfer parts. `(job_id, part_key)` names a row.
use tor_boxarr.Base.{
  pos, Str, Bool, not, ◌&&◌, List, [], ◌∷◌, ◌++◌, filter, any, add64, if◌then◌else◌, lit, str_eq,
}
use tor_boxarr.Model.{TransferPart}
use tor_boxarr.World.{Env, M, with_text}
use tor_boxarr.Torbox.Client.{ok, err, wrap, new_error}
use tor_boxarr.Store.Retry.{Statement, exec_write, query}

abbrev pub same_part : TransferPart → TransferPart → Bool
same_part part row = str_eq row.job_id part.job_id && str_eq row.part_key part.part_key

-- `DO UPDATE SET`: the row keeps its id, its keys and `created_at`.
abbrev pub replaced : TransferPart → TransferPart → TransferPart
replaced part row = record part {
  id = row.id;
  job_id = row.job_id;
  part_key = row.part_key;
  created_at = row.created_at;
}

unfoldable pub replace_part : TransferPart → List TransferPart → List TransferPart
replace_part part [] = []
replace_part part (row ∷ rows) =
    (if same_part part row then replaced part row else row) ∷ replace_part part rows

unfoldable pub upsert_part : TransferPart → Statement (Unit {0})
upsert_part part t =
    if not (any (λ row. str_eq row.id part.job_id) t.jobs)
    then err (new_error (lit "constraint failed"))
    else if any (same_part part) t.parts
    then ok (tt, record t { parts = replace_part part t.parts })
    else ok (
      tt,
      record t {
        parts = t.parts ++ (record part { id = t.next_part } ∷ []);
        next_part = add64 t.next_part (pos 1);
      },
    )

unfoldable pub upsert_transfer_part : Env → TransferPart → M (Unit {0})
upsert_transfer_part e part =
    with_text (wrap (lit "upsert transfer part")) (exec_write e (upsert_part part))

-- `ORDER BY id ASC`: the rows stand in the order of their ids.
unfoldable pub list_transfer_parts : Env → Str → M (List TransferPart)
list_transfer_parts e job_id = query e (λ t. filter (λ row. str_eq row.job_id job_id) t.parts)

unfoldable pub delete_transfer_parts : Env → Str → M (Unit {0})
delete_transfer_parts e job_id = with_text (wrap (lit "delete transfer parts")) (
    exec_write e
      λ t. ok (tt, record t { parts = filter (λ row. not (str_eq row.job_id job_id)) t.parts }))
