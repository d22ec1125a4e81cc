-- ===== src/Api/Answers.antt =====
-- What the answers of the handlers say of the ranges of the state.
use smallgod.Prelude.{
  ltb, if◌then◌else◌, ℕ, ◌≡◌, refl, sym, subst, Bool, true, false, ◌||◌, Option, none, some, List,
  [], ◌⊎◌, inl, inr, ok, >>=-eq-ok, ok_or-eq-ok, arith,
}
use smallgod.Prelude.Text.{Bytes}
use smallgod.ClientState.{State, contains}
use smallgod.Api.{
  BlockStatus, unavailable, pending, verifying_header, verifying_confidence, verifying_data,
  incomplete, finished, block_status, status_of, sync_status, head_status, reported, unwrap_or,
}
use smallgod.Api.Messages.{DataField, DataTransaction, data_transactions}
use smallgod.Api.Fields.{SelectedBy, select_fields-SelectedBy}
use smallgod.Api.Blocks.{
  Stored, not_found, internal_server_error, select_fields, status_of_stored, converted, header_with,
  block_header, decoded, data_with, finished_only, block_data,
}

status_of-finished : (d c h l : Bool) → status_of d c h l ≡ finished → d ≡ true
unfolding status_of
status_of-finished d c h l e = ground arith

-- A status of a block whose header is verified.
unfoldable HasHeader : BlockStatus → Type 0
HasHeader finished = Unit
HasHeader verifying_data = Unit
HasHeader verifying_confidence = Unit
HasHeader _ = ⊥

status_of-HasHeader : (d c h l : Bool) → HasHeader (status_of d c h l) → (d || c || h) ≡ true
unfolding status_of HasHeader
status_of-HasHeader true c h l e = refl
status_of-HasHeader false true h l e = refl
status_of-HasHeader false false true l e = refl
status_of-HasHeader false false false true e = absurd e
status_of-HasHeader false false false false e = absurd e

status_of-incomplete : (d c h l : Bool) → ¬ (status_of d c h l ≡ incomplete)
unfolding status_of
status_of-incomplete d c h l e = ground arith

chosen :
    (too_late too_early has_extension is_behind : Bool) (sync head : BlockStatus)
    {status : BlockStatus}
    → (if too_late
        then none
        else if too_early
        then some unavailable
        else if has_extension
        then (if is_behind then some sync else some head)
        else some incomplete)
      ≡ some status
    → (status ≡ unavailable)
      ⊎ ((status ≡ incomplete) × (has_extension ≡ false))
      ⊎ (sync ≡ status)
      ⊎ (head ≡ status)
chosen true too_early has_extension is_behind sync head e = absurd cc
chosen false true has_extension is_behind sync head e = inl cc
chosen false false false is_behind sync head e = inr (inl (cc, refl))
chosen false false true true sync head e = inr (inr (inl cc))
chosen false false true false sync head e = inr (inr (inr cc))

reported-cases :
    (start : Option ℕ) (latest first n : ℕ) (has_extension : Bool) (sync head : BlockStatus)
    {status : BlockStatus}
    → reported start latest first n has_extension sync head ≡ some status
    → (status ≡ unavailable)
      ⊎ ((status ≡ incomplete) × (has_extension ≡ false))
      ⊎ (sync ≡ status)
      ⊎ (head ≡ status)
unfolding reported
reported-cases start latest first n has_extension sync head e =
    chosen (ltb latest n) (ltb n (unwrap_or first start)) has_extension (ltb n first) sync head e

module _ (db : Stored) (start : Option ℕ) (s : State) (n : ℕ) where
  -- The data of the block are verified, or its header is, in one of the two parts of the range.
  abbrev pub HasData : Type 0
  HasData = (contains n s.sync_data_verified ≡ true) ⊎ (contains n s.data_verified ≡ true)

  abbrev pub IsSeen : Type 0
  IsSeen =
      ((contains n s.sync_data_verified
          || contains n s.sync_confidence_achieved
          || contains n s.sync_header_verified)
        ≡ true)
      ⊎ ((contains n s.data_verified
            || contains n s.confidence_achieved
            || contains n s.header_verified)
          ≡ true)

  block_status-finished :
      (has_extension : Bool) → block_status start s n has_extension ≡ some finished → HasData
  unfolding block_status sync_status head_status
  block_status-finished has_extension e =
      elim (reported-cases start s.latest _ n has_extension (sync_status s n) (head_status s n) e) [
        | inl other ↦ absurd cc
        | inr (inl (other, missing)) ↦ absurd cc
        | inr (inr (inl sync)) ↦ inl (status_of-finished _ _ _ _ sync)
        | inr (inr (inr head)) ↦ inr (status_of-finished _ _ _ _ head)
      ]

  block_status-HasHeader :
      (has_extension : Bool) (status : BlockStatus)
      → block_status start s n has_extension ≡ some status
      → HasHeader status
      → IsSeen
  unfolding block_status sync_status head_status HasHeader
  block_status-HasHeader has_extension status e h =
      elim (reported-cases start s.latest _ n has_extension (sync_status s n) (head_status s n) e) [
        | inl other ↦ absurd (subst HasHeader other h)
        | inr (inl (other, missing)) ↦ absurd (subst HasHeader other h)
        | inr (inr (inl sync)) ↦ inl (status_of-HasHeader _ _ _ _ (subst HasHeader (sym sync) h))
        | inr (inr (inr head)) ↦ inr (status_of-HasHeader _ _ _ _ (subst HasHeader (sym head) h))
      ]

  status_of_stored-ok :
      (found : Option (Option db.Header)) {status : BlockStatus}
      → status_of_stored db start s n found ≡ ok status
      → (header : db.Header) × (found ≡ some (some header))
        × (block_status start s n (db.has_extension header) ≡ some status)
  unfolding status_of_stored
  status_of_stored-ok none e = cc
  status_of_stored-ok (some none) e = cc
  status_of_stored-ok (some (some header)) e = (header, refl, ok_or-eq-ok not_found _ e)

  -- What is stored, decoded and selected.
  pub IsStoredData :
      Option (List DataField) → Option (Option (List Bytes)) → List DataTransaction → Type 0
  IsStoredData fields none transactions = ⊥
  IsStoredData fields (some none) transactions = transactions ≡ []
  IsStoredData fields (some (some stored)) transactions =
      (all : List DataTransaction) × (data_transactions db.decode_app_data stored ≡ some all)
      × SelectedBy fields all transactions

  decoded-ok :
      (fields : Option (List DataField)) (found : Option (List DataTransaction))
      {transactions : List DataTransaction}
      → decoded db start s n fields found ≡ ok transactions
      → (all : List DataTransaction) × (found ≡ some all) × SelectedBy fields all transactions
  unfolding decoded
  decoded-ok fields none e = cc
  decoded-ok fields (some all) {transactions} e =
      let same : select_fields fields all ≡ transactions = cc in
      (all, refl, subst (SelectedBy fields all) same (select_fields-SelectedBy fields all))

  data_with-ok :
      (fields : Option (List DataField)) (found : Option (Option (List Bytes)))
      {transactions : List DataTransaction}
      → data_with db start s n fields found ≡ ok transactions
      → IsStoredData fields found transactions
  unfolding data_with IsStoredData
  data_with-ok fields none e = cc
  data_with-ok fields (some none) e = cc
  data_with-ok fields (some (some stored)) e = decoded-ok fields _ e

  finished_only-ok :
      (fields : Option (List DataField)) (app_id : ℕ) (status : BlockStatus) (header : db.Header)
      {transactions : List DataTransaction}
      → block_status start s n (db.has_extension header) ≡ some status
      → finished_only db start s n fields app_id status ≡ ok transactions
      → HasData × IsStoredData fields (db.get_app_data app_id n) transactions
  unfolding finished_only
  finished_only-ok fields app_id finished header reported_as e = (
    block_status-finished (db.has_extension header) reported_as,
    data_with-ok fields (db.get_app_data app_id n) e,
  )
  finished_only-ok fields app_id unavailable header reported_as e = cc
  finished_only-ok fields app_id pending header reported_as e = cc
  finished_only-ok fields app_id verifying_header header reported_as e = cc
  finished_only-ok fields app_id verifying_confidence header reported_as e = cc
  finished_only-ok fields app_id verifying_data header reported_as e = cc
  finished_only-ok fields app_id incomplete header reported_as e = cc

  -- Data are answered of a block only when they are verified. They are none where none are stored for
  -- the application; otherwise what is stored is decoded, each transaction in its order. If the query
  -- names no fields, the transactions are answered whole. If it does, each has its extrinsic if
  -- extrinsics are named, and none otherwise, and has its data if data are named or extrinsics are
  -- not, and none otherwise.
  pub block_data-IsVerified :
      (fields : Option (List DataField)) (app_id : ℕ) {transactions : List DataTransaction}
      → block_data db start s n fields (some app_id) ≡ ok transactions
      → HasData × IsStoredData fields (db.get_app_data app_id n) transactions
  unfolding block_data
  block_data-IsVerified fields app_id e =
      let (status, read, rest) = >>=-eq-ok (status_of_stored db start s n (db.get_header n)) _ e in
      let (header, found, reported_as) = status_of_stored-ok (db.get_header n) read in
      finished_only-ok fields app_id status header reported_as rest

  block_status-incomplete :
      (has_extension : Bool)
      → block_status start s n has_extension ≡ some incomplete
      → has_extension ≡ false
  unfolding block_status sync_status head_status
  block_status-incomplete has_extension e =
      elim (reported-cases start s.latest _ n has_extension (sync_status s n) (head_status s n) e) [
        | inl other ↦ absurd cc
        | inr (inl (same, missing)) ↦ missing
        | inr (inr (inl sync)) ↦ absurd (status_of-incomplete _ _ _ _ sync)
        | inr (inr (inr head)) ↦ absurd (status_of-incomplete _ _ _ _ head)
      ]

  stored-ok :
      (header : db.Header) {answer : db.Converted}
      → db.get_header n ≡ some (some header)
      → converted db start s n (db.get_header n) ≡ ok answer
      → db.convert header ≡ some answer
  unfolding converted
  stored-ok header {answer} found e =
      ok_or-eq-ok internal_server_error (db.convert header)
        (subst (λ o. converted db start s n o ≡ ok answer) found e)

  header_with-ok :
      (status : BlockStatus) (header : db.Header) {answer : db.Converted}
      → db.get_header n ≡ some (some header)
      → block_status start s n (db.has_extension header) ≡ some status
      → header_with db start s n status ≡ ok answer
      → (db.convert header ≡ some answer) × (IsSeen ⊎ (db.has_extension header ≡ false))
  unfolding header_with HasHeader
  header_with-ok unavailable header found reported_as e = cc
  header_with-ok pending header found reported_as e = cc
  header_with-ok verifying_header header found reported_as e = cc
  header_with-ok verifying_confidence header found reported_as e =
      (stored-ok header found e, inl (block_status-HasHeader _ verifying_confidence reported_as tt))
  header_with-ok verifying_data header found reported_as e =
      (stored-ok header found e, inl (block_status-HasHeader _ verifying_data reported_as tt))
  header_with-ok finished header found reported_as e =
      (stored-ok header found e, inl (block_status-HasHeader _ finished reported_as tt))
  header_with-ok incomplete header found reported_as e =
      (stored-ok header found e, inr (block_status-incomplete _ reported_as))

  -- A header is answered of a block only when the block is in the range of the verified headers, the
  -- achieved confidence or the verified data, of the sync or of the new blocks, or when it is stored
  -- without an extension; it is the header that is stored for the block, converted.
  pub block_header-IsVerified :
      {answer : db.Converted}
      → block_header db start s n ≡ ok answer
      → (header : db.Header) × (db.get_header n ≡ some (some header))
        × (db.convert header ≡ some answer)
        × (IsSeen ⊎ (db.has_extension header ≡ false))
  unfolding block_header
  block_header-IsVerified e =
      let (status, read, rest) = >>=-eq-ok (status_of_stored db start s n (db.get_header n)) _ e in
      let (header, found, reported_as) = status_of_stored-ok (db.get_header n) read in
      let (converts, seen) = header_with-ok status header found reported_as rest in
      (header, found, converts, seen)
