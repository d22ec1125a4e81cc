-- ===== src/Api/Blocks.antt =====
-- src/api/v2/handlers.rs: what is answered of a block, its header and its data.
use smallgod.Prelude.{ℕ, Bool, Option, none, some, List, [], Result, ok, err, ◌>>=◌, ok_or}
use smallgod.Prelude.Text.{Bytes}
use smallgod.ClientState.{State}
use smallgod.Api.{BlockStatus, unavailable, pending, verifying_header, finished, block_status}
use smallgod.Api.Messages.{DataField, DataTransaction, filter_fields, data_transactions}

pub data ApiError : Type 0 where
  not_found bad_request_unknown internal_server_error : ApiError
  bad_request : ℕ → ApiError

-- The database, whose errors are the outer `none`; the conversions of a header and of an extrinsic;
-- and the confidence in floating point.
pub record Stored : Type 1 where
  pub Header : Type 0
  pub Confidence : Type 0
  pub Converted : Type 0
  pub get_header : ℕ → Option (Option Header)
  pub get_cell_count : ℕ → Option (Option ℕ)
  pub get_app_data : ℕ → ℕ → Option (Option (List Bytes))
  pub has_extension : Header → Bool
  pub convert : Header → Option Converted
  pub decode_app_data : Bytes → Option (Option Bytes)
  pub calculate_confidence : ℕ → Confidence

-- `query.fields`, where they are given
unfoldable pub select_fields : Option (List DataField) → List DataTransaction → List DataTransaction
select_fields none transactions = transactions
select_fields (some fields) transactions = filter_fields transactions fields

module _ (db : Stored) (start : Option ℕ) (s : State) (n : ℕ) where
  unfoldable pub status_of_stored : Option (Option db.Header) → Result ApiError BlockStatus
  status_of_stored none = err internal_server_error
  status_of_stored (some none) = err not_found
  status_of_stored (some (some header)) =
      ok_or not_found (block_status start s n (db.has_extension header))

  unfoldable with_count :
      BlockStatus → Option (Option ℕ) → Result ApiError (BlockStatus × Option db.Confidence)
  with_count status none = err internal_server_error
  with_count status (some none) = ok (status, none)
  with_count status (some (some count)) = ok (status, some (db.calculate_confidence count))

  -- `block`
  pub block : Result ApiError (BlockStatus × Option db.Confidence)
  unfolding status_of_stored with_count
  block = status_of_stored (db.get_header n) >>= λ status. with_count status (db.get_cell_count n)

  unfoldable pub converted : Option (Option db.Header) → Result ApiError db.Converted
  converted none = err internal_server_error
  converted (some none) = err internal_server_error
  converted (some (some header)) = ok_or internal_server_error (db.convert header)

  unfoldable pub header_with : BlockStatus → Result ApiError db.Converted
  unfolding converted
  header_with unavailable = err bad_request_unknown
  header_with pending = err bad_request_unknown
  header_with verifying_header = err bad_request_unknown
  header_with _ = converted (db.get_header n)

  unfoldable pub block_header : Result ApiError db.Converted
  unfolding status_of_stored header_with
  block_header = status_of_stored (db.get_header n) >>= header_with

  unfoldable pub decoded :
      Option (List DataField)
      → Option (List DataTransaction)
      → Result ApiError (List DataTransaction)
  unfolding select_fields
  decoded fields none = err internal_server_error
  decoded fields (some transactions) = ok (select_fields fields transactions)

  unfoldable pub data_with :
      Option (List DataField)
      → Option (Option (List Bytes))
      → Result ApiError (List DataTransaction)
  unfolding decoded
  data_with fields none = err internal_server_error
  data_with fields (some none) = ok []
  data_with fields (some (some stored)) =
      decoded fields (data_transactions db.decode_app_data stored)

  unfoldable pub finished_only :
      Option (List DataField) → ℕ → BlockStatus → Result ApiError (List DataTransaction)
  unfolding data_with
  finished_only fields app_id finished = data_with fields (db.get_app_data app_id n)
  finished_only fields app_id _ = err bad_request_unknown

  unfoldable pub block_data :
      Option (List DataField) → Option ℕ → Result ApiError (List DataTransaction)
  unfolding status_of_stored finished_only
  block_data fields none = err not_found
  block_data fields (some app_id) =
      status_of_stored (db.get_header n) >>= finished_only fields app_id

-- What runs at concrete inputs unfolds.
unfoldable pub block_methods : Unit {0}
unfolding status_of_stored with_count block converted header_with block_header decoded data_with
    finished_only block_data select_fields
block_methods = tt
