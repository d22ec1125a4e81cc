-- ===== src/Api/V1.antt =====
-- src/api/v1/handlers.rs: the confidence of a block, the status, and the latest block.
use smallgod.Prelude.{
  ℕ, ◌≡◌, Bool, false, Option, none, some, List, [], ◌∷◌, refl, ap, subst, ◌==◌, leb, if◌then◌else◌,
}
use smallgod.Prelude.Text.{Bytes}
use smallgod.ClientState.{BlockRange, State, last_block}

-- `ClientResponse`
pub data ClientResponse (A : Type 0) : Type 0 where
  normal : A → ClientResponse A
  not_found not_finalized in_process error : ClientResponse A

-- `db.get(Key::VerifiedCellCount(n))`: an error is the outer `none`. The confidence in floating point
-- and the cell count for the configured confidence are parameters.
pub record Handlers : Type 1 where
  pub get_cell_count : ℕ → Option (Option ℕ)
  pub cell_count_for_confidence : ℕ
  pub Confidence : Type 0
  pub calculate_confidence : ℕ → Confidence
  -- `db.get(Key::AppData(app_id, n))`, the decoding of an extrinsic, its submitted data, and Base64
  pub get_app_data : ℕ → ℕ → Option (Option (List Bytes))
  pub Extrinsic : Type 0
  pub decode : Bytes → Option Extrinsic
  pub submitted_data : Extrinsic → Option Bytes
  pub encode : Bytes → Bytes

module _ (c : Handlers) where
  -- `is_synced`
  is_synced : ℕ → Option BlockRange → Bool
  is_synced n none = false
  is_synced n (some range) = leb n range.last

  -- `confidence`, with the block's number; `serialised_confidence` is made of both.
  cell_count : ℕ → State → Option (Option ℕ) → ClientResponse (ℕ × c.Confidence)
  unfolding is_synced
  cell_count n s (some (some count)) = normal (n, c.calculate_confidence count)
  cell_count n s (some none) =
      if is_synced n s.confidence_achieved
      then normal (n, c.calculate_confidence c.cell_count_for_confidence)
      else not_finalized
  cell_count n s none = error

  pub confidence : ℕ → State → ClientResponse (ℕ × c.Confidence)
  unfolding cell_count
  confidence n s = cell_count n s (c.get_cell_count n)

  -- `status`: the last block whose confidence was achieved, its confidence, and the application
  status_at : Option ℕ → ℕ → Option (Option ℕ) → ClientResponse (ℕ × c.Confidence × Option ℕ)
  status_at app_id last none = error
  status_at app_id last (some none) = not_found
  status_at app_id last (some (some count)) = normal (last, c.calculate_confidence count, app_id)

  status_of_last : Option ℕ → Option ℕ → ClientResponse (ℕ × c.Confidence × Option ℕ)
  unfolding status_at
  status_of_last app_id none = not_found
  status_of_last app_id (some last) = status_at app_id last (c.get_cell_count last)

  client_status : Option ℕ → State → ClientResponse (ℕ × c.Confidence × Option ℕ)
  unfolding status_of_last
  client_status app_id s = status_of_last app_id (last_block s.confidence_achieved)

  latest_of : Option ℕ → ClientResponse ℕ
  latest_of none = not_found
  latest_of (some n) = normal n

  latest_block : State → ClientResponse ℕ
  unfolding latest_of
  latest_block s = latest_of (last_block s.confidence_achieved)

  -- `Extrinsics`: the extrinsics themselves, or the data that they submit
  data Extrinsics : Type 0 where
    encoded_extrinsics : List c.Extrinsic → Extrinsics
    decoded_data : List Bytes → Extrinsics

  decode_all : List Bytes → Option (List c.Extrinsic)
  decode_all [] = some []
  decode_all (raw ∷ raws) = elim (c.decode raw) [
    | none ↦ none
    | some x ↦ elim (decode_all raws) [ none ↦ none | some xs ↦ some (x ∷ xs) ]
  ]

  data_of : List c.Extrinsic → List Bytes
  data_of [] = []
  data_of (x ∷ xs) =
      let rest = data_of xs in
      elim (c.submitted_data x) [ none ↦ rest | some bytes ↦ c.encode bytes ∷ rest ]

  app_data_from :
      ℕ → Bool → Option ℕ → Option (Option (List Bytes)) → ClientResponse (ℕ × Extrinsics)
  unfolding decode_all data_of
  app_data_from n decoded last none = error
  app_data_from n decoded none (some none) = not_found
  app_data_from n decoded (some last) (some none) = if n == last then in_process else not_found
  app_data_from n decoded last (some (some raws)) = elim (decode_all raws) [
    | none ↦ error
    | some xs ↦ normal (n, if decoded then decoded_data (data_of xs) else encoded_extrinsics xs)
  ]

  -- `appdata`; the application is 0 where none is configured, and `decode` is false where it is not
  -- given.
  appdata : ℕ → Bool → Option ℕ → State → ClientResponse (ℕ × Extrinsics)
  unfolding app_data_from
  appdata n decoded none s =
      app_data_from n decoded (last_block s.confidence_achieved) (c.get_app_data 0 n)
  appdata n decoded (some app_id) s =
      app_data_from n decoded (last_block s.confidence_achieved) (c.get_app_data app_id n)

  status_at-latest :
      (app_id : Option ℕ) (last : ℕ) (count : Option (Option ℕ)) {b : ℕ} {x : c.Confidence}
      {a : Option ℕ}
      → status_at app_id last count ≡ normal (b, x, a)
      → (last ≡ b) × (n : ℕ) × (count ≡ some (some n)) × (c.calculate_confidence n ≡ x)
  unfolding status_at
  status_at-latest app_id last none e = cc
  status_at-latest app_id last (some none) e = cc
  status_at-latest app_id last (some (some count)) e = (cc, count, refl, cc)

  -- The block that the status reports is the latest one, with the confidence of its stored count.
  client_status-latest_block :
      (app_id : Option ℕ) (last : Option ℕ) {b : ℕ} {x : c.Confidence} {a : Option ℕ}
      → status_of_last app_id last ≡ normal (b, x, a)
      → (latest_of last ≡ normal b)
        × ((n : ℕ) × (c.get_cell_count b ≡ some (some n)) × (c.calculate_confidence n ≡ x))
  unfolding status_of_last latest_of
  client_status-latest_block app_id none e = cc
  client_status-latest_block app_id (some last) e =
      let (same, count, found, confident) =
        status_at-latest app_id last (c.get_cell_count last) e in
      (
        ap normal same,
        (count, subst (λ n. c.get_cell_count n ≡ some (some count)) same found, confident),
      )
