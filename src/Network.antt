-- ===== src/Network.antt =====
-- src/network.rs and src/proof.rs: cells that are fetched from the DHT, with a node as fallback,
-- and verified; with the calls of src/network/p2p/client.rs and src/network/rpc/client.rs.
pub mod Distinct
pub mod Verified
pub mod Parts
pub mod Fetch
pub mod Sample
mod Tests
use smallgod.Prelude.{
  ℕ, Bool, true, false, not, ite, Option, none, some, List, [], ◌∷◌, ◌++◌, map, filter, any, length,
  get_elem?, if◌then◌else◌, Result, ok, err, panic, ◌>>=◌,
}

-- What the code takes from kate_recovery and dusk_plonk, and the bytes of a DHT record and of a
-- node's answer as the 80 bytes of a cell.
pub record Kate : Type 1 where
  pub Position : Type 0
  pub Position_discrete : Discrete Position
  pub row : Position → ℕ
  pub Content : Type 0
  pub Commitment : Type 0
  pub Dimensions : Type 0
  -- `kate_recovery::proof::verify`: `none` is an error.
  pub verify_proof : Dimensions → Commitment → Position → Content → Option Bool
  pub Value : Type 0
  -- `value.try_into()`
  pub to_content : Value → Option Content
  pub Proof : Type 0
  -- `concat_content`
  pub concat_content : Proof → Option Content

pub data FetchError : Type 0 where
  proof_error rpc_error : FetchError

module _ (k : Kate) where
  -- `kate_recovery::data::Cell`
  pub record Cell : Type 0 where
    pub position : k.Position
    pub content : k.Content

  abbrev pub Outcome : Type 0 → Type 0
  Outcome A = Result FetchError A

  -- The network, for one block: the DHT and the node, where `none` is a call that fails; and the
  -- order in which the tasks that verify cells complete.
  pub record Network : Type 0 where
    pub get_kad_record : k.Position → Option k.Value
    pub query_proof : List k.Position → Option (List k.Proof)
    pub completed : List (k.Position × Bool) → List (k.Position × Bool)

  -- A task of `proof::verify`.
  pub verify_task : k.Dimensions → List k.Commitment → Cell → Outcome (k.Position × Bool)
  verify_task d commitments cell = elim (get_elem? commitments (k.row cell.position)) [
    | none ↦ panic
    | some commitment ↦ elim (k.verify_proof d commitment cell.position cell.content) [
      | none ↦ err proof_error
      | some is_verified ↦ ok (cell.position, is_verified)
    ]
  ]

  -- Whether there is a commitment for the row of every cell: `commitments[cell.position.row]` is taken
  -- while the tasks are spawned, before the first result.
  pub are_spawned : List k.Commitment → List Cell → Bool
  are_spawned commitments [] = true
  are_spawned commitments (cell ∷ cells) = elim (get_elem? commitments (k.row cell.position)) [
    | none ↦ false
    | some _ ↦ are_spawned commitments cells
  ]

  -- The results of the tasks, up to an error.
  pub join_tasks : k.Dimensions → List k.Commitment → List Cell → Outcome (List (k.Position × Bool))
  join_tasks d commitments [] = ok []
  join_tasks d commitments (cell ∷ cells) =
      verify_task d commitments cell >>= λ r. join_tasks d commitments cells >>= λ rs. ok (r ∷ rs)

  pub verify_tasks :
      k.Dimensions → List k.Commitment → List Cell → Outcome (List (k.Position × Bool))
  unfolding are_spawned join_tasks
  verify_tasks d commitments cells =
      if are_spawned commitments cells then join_tasks d commitments cells else panic

  -- The two sides of `partition_map`.
  pub verified_positions : List (k.Position × Bool) → List k.Position
  verified_positions rs = map (λ r. r.0) (filter (λ r. r.1) rs)

  pub unverified_positions : List (k.Position × Bool) → List k.Position
  unverified_positions rs = map (λ r. r.0) (filter (λ r. not r.1) rs)

  -- The cells of an answer: as many as there are both positions and proofs; a proof of a wrong
  -- length panics.
  pub zip_cells : List k.Position → List k.Proof → Outcome (List Cell)
  zip_cells [] proofs = ok []
  zip_cells (p ∷ ps) [] = ok []
  zip_cells (p ∷ ps) (proof ∷ proofs) = elim (k.concat_content proof) [
    | none ↦ panic
    | some content ↦
        zip_cells ps proofs >>= λ cells. ok (record { position = p; content = content } ∷ cells)
  ]

  -- `fetched.retain(|cell| verified.contains(&cell.position))`
  pub retain_verified : List k.Position → List Cell → List Cell
  retain_verified verified cells =
      filter (λ c. any (λ p. ite (k.Position_discrete p c.position) true false) verified) cells

  -- The cells that are fetched, the positions that are not, what was fetched from the DHT and, if
  -- it was asked, from the node, and the cells that are then inserted into the DHT.
  pub record Fetched : Type 0 where
    pub fetched : List Cell
    pub unfetched : List k.Position
    pub dht_fetched : ℕ
    pub rpc_fetched : Option ℕ
    pub inserted : List Cell

  module _ (net : Network) where
    -- `proof::verify`: the verified and the unverified positions.
    pub verify :
        k.Dimensions → List k.Commitment → List Cell → Outcome (List k.Position × List k.Position)
    unfolding verify_tasks are_spawned join_tasks verify_task verified_positions
        unverified_positions
    verify d commitments [] = ok ([], [])
    verify d commitments (cell ∷ cells) = verify_tasks d commitments (cell ∷ cells) >>= λ rs.
        ok (verified_positions (net.completed rs), unverified_positions (net.completed rs))

    pub fetch_cell_from_dht : k.Position → Option Cell
    fetch_cell_from_dht p = elim (net.get_kad_record p) [
      | none ↦ none
      | some value ↦ elim (k.to_content value) [
        | none ↦ none
        | some content ↦ some (record { position = p; content = content })
      ]
    ]

    -- The cells that are found, and the positions of the others. The chunks, which only bound the
    -- number of requests at a time, are joined in order.
    pub fetch_cells_from_dht : List k.Position → List Cell × List k.Position
    unfolding fetch_cell_from_dht
    fetch_cells_from_dht [] = ([], [])
    fetch_cells_from_dht (p ∷ ps) =
        let rest = fetch_cells_from_dht ps in
        elim (fetch_cell_from_dht p) [
          | none ↦ (rest.0, p ∷ rest.1)
          | some cell ↦ (cell ∷ rest.0, rest.1)
        ]

    pub request_kate_proof : List k.Position → Outcome (List Cell)
    unfolding zip_cells
    request_kate_proof positions = elim (net.query_proof positions) [
      | none ↦ err rpc_error
      | some proofs ↦ zip_cells positions proofs
    ]

    pub fetch_verified_from_dht :
        k.Dimensions → List k.Commitment → List k.Position → Outcome (List Cell × List k.Position)
    unfolding verify fetch_cells_from_dht retain_verified
    fetch_verified_from_dht d commitments positions =
        let (fetched, unfetched) = fetch_cells_from_dht positions in
        verify d commitments fetched >>= λ v. ok (retain_verified v.0 fetched, unfetched ++ v.1)

    pub fetch_verified_from_rpc :
        k.Dimensions → List k.Commitment → List k.Position → Outcome (List Cell × List k.Position)
    unfolding verify request_kate_proof retain_verified
    fetch_verified_from_rpc d commitments positions = request_kate_proof positions >>= λ fetched.
        verify d commitments fetched >>= λ v. ok (retain_verified v.0 fetched, v.1)

    pub fetch_verified : Bool → k.Dimensions → List k.Commitment → List k.Position → Outcome Fetched
    unfolding fetch_verified_from_dht fetch_verified_from_rpc
    fetch_verified disable_rpc d commitments positions =
        fetch_verified_from_dht d commitments positions >>= λ dht. elim disable_rpc [
          | true ↦ ok (record {
            fetched = dht.0;
            unfetched = dht.1;
            dht_fetched = length dht.0;
            rpc_fetched = none;
            inserted = [];
          })
          | false ↦ fetch_verified_from_rpc d commitments dht.1 >>= λ rpc. ok (record {
            fetched = dht.0 ++ rpc.0;
            unfetched = rpc.1;
            dht_fetched = length dht.0;
            rpc_fetched = some (length rpc.0);
            inserted = rpc.0;
          })
        ]

-- The functions of this file, for a run of the fetch.
unfoldable pub methods : Unit {0}
unfolding verify_task are_spawned join_tasks verify_tasks verified_positions unverified_positions
    verify fetch_cell_from_dht fetch_cells_from_dht zip_cells request_kate_proof retain_verified
    fetch_verified_from_dht fetch_verified_from_rpc fetch_verified
methods = tt
