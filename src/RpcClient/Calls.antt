-- ===== src/RpcClient/Calls.antt =====
-- The calls of src/network/rpc/client.rs, each of which goes through `with_retries`.
use smallgod.Prelude.{
  ℕ, Option, none, some, List, [], ◌∷◌, ◌++◌, map, take, Result, ok, err, panic, ok_or,
}
use smallgod.Prelude.Text.{Bytes}
use smallgod.RpcClient.{Hash, RpcError, not_found, set_id_missing, Rpc, Action}
use smallgod.RpcClient.Retry.{Client, Outcome, with_retries}

module _ (rpc : Rpc) where
  -- The requests of subxt and of the Avail node on one connection.
  pub record Requests : Type 1 where
    pub Header : Type 0
    pub Public : Type 0
    pub Scalar : Type 0
    pub chain_get_block_hash : rpc.Connection → ℕ → Action rpc (Option Hash)
    pub block_header : rpc.Connection → Hash → Action rpc (Option Header)
    pub grandpa_authorities : rpc.Connection → Hash → Action rpc (List (Public × ℕ))
    pub chain_get_finalized_head : rpc.Connection → Action rpc Hash
    pub current_set_id : rpc.Connection → Hash → Action rpc (Option ℕ)
    pub query_rows : rpc.Connection → List ℕ → Hash → Action rpc (List (List Scalar))
    -- `Rows::try_from`, which fails for too many rows
    pub fits_rows : List ℕ → Option (List ℕ)
    -- `to_big_endian` into 32 bytes
    pub to_big_endian : Scalar → Bytes
    pub call_system_version : rpc.Connection → Action rpc Bytes
    pub Account : Type 0
    pub Events : Type 0
    pub Signed : Type 0
    pub session_validators : rpc.Connection → Hash → Action rpc (Option (List Account))
    pub session_key_owner : rpc.Connection → Hash → Public → Action rpc (Option Account)
    -- all keys under a prefix
    pub fetch_raw_keys : rpc.Connection → Bytes → Hash → Action rpc (List Bytes)
    pub prove_finality : rpc.Connection → ℕ → Action rpc Bytes
    -- `submit_data` of data that is signed, or `submit_and_watch` of an extrinsic, and the events of
    -- the finalized block
    pub submit : rpc.Connection → Signed → Action rpc Events

  -- `?` on the result of a call, with the client as the call left it.
  module _ {A B : Type 0} where
    unfoldable pub then_call :
        Outcome rpc A → (A → Client rpc → rpc.World → Outcome rpc B) → Outcome rpc B
    then_call (panic, s, w) next = (panic, s, w)
    then_call (err why, s, w) next = (err why, s, w)
    then_call (ok a, s, w) next = next a s w

    -- `map` and `ok_or_else` on the result of a call.
    unfoldable pub then_pure : Outcome rpc A → (A → Result RpcError B) → Outcome rpc B
    then_pure (panic, s, w) next = (panic, s, w)
    then_pure (err why, s, w) next = (err why, s, w)
    then_pure (ok a, s, w) next = (next a, s, w)

    -- The rest of an action on the same connection.
    unfoldable pub then_answer :
        Result RpcError A × rpc.World → (A → Result RpcError B) → Result RpcError B × rpc.World
    then_answer (panic, w) next = (panic, w)
    then_answer (err why, w) next = (err why, w)
    then_answer (ok a, w) next = (next a, w)

  module _ (q : Requests) where
    abbrev Call : Type 0 → Type 0
    Call A = Client rpc → rpc.World → Outcome rpc A

    unfoldable pub get_block_hash : ℕ → Call Hash
    unfolding then_pure
    get_block_hash block_number s w =
        then_pure (with_retries rpc s (λ client. q.chain_get_block_hash client block_number) w)
          (ok_or not_found)

    -- A header that is missing is an error inside the retries, so that another node is asked for it.
    unfoldable pub get_header_by_hash : Hash → Call q.Header
    unfolding then_answer
    get_header_by_hash block_hash s w =
        with_retries rpc s
          (λ client w1. then_answer (q.block_header client block_hash w1) (ok_or not_found)) w

    unfoldable pub get_validator_set_by_hash : Hash → Call (List q.Public)
    unfolding then_pure
    get_validator_set_by_hash block_hash s w =
        then_pure (with_retries rpc s (λ client. q.grandpa_authorities client block_hash) w)
          (λ authorities. ok (map (λ e. e.0) authorities))

    unfoldable pub get_finalized_head_hash : Call Hash
    get_finalized_head_hash s w = with_retries rpc s q.chain_get_finalized_head w

    unfoldable pub get_chain_head_header : Call q.Header
    unfolding then_call get_finalized_head_hash get_header_by_hash
    get_chain_head_header s w = then_call (get_finalized_head_hash s w) get_header_by_hash

    -- The bytes of a row, 32 of each cell.
    unfoldable row_bytes : List q.Scalar → Bytes
    row_bytes [] = []
    row_bytes (cell ∷ row) = q.to_big_endian cell ++ row_bytes row

    -- `unwrap` of the rows that do not fit panics.
    unfoldable pub query_fitting : Option (List ℕ) → Hash → Call (List Bytes)
    unfolding then_answer row_bytes
    query_fitting none block_hash s w = (panic, s, w)
    query_fitting (some rows) block_hash s w =
        with_retries rpc s
          (λ client w1.
            then_answer (q.query_rows client rows block_hash w1)
              (λ found. ok (map row_bytes found)))
          w

    unfoldable pub request_kate_rows : List ℕ → Hash → Call (List Bytes)
    unfolding query_fitting
    request_kate_rows rows block_hash s w = query_fitting (q.fits_rows rows) block_hash s w

    unfoldable pub get_system_version : Call Bytes
    get_system_version s w = with_retries rpc s q.call_system_version w

    -- The version and the genesis hash are those that the connection holds; the second is read without
    -- a call.
    unfoldable pub get_runtime_version : Call ℕ
    get_runtime_version s w = with_retries rpc s (λ client w1. (ok (rpc.spec_version client), w1)) w

    pub get_genesis_hash : Client rpc → Hash
    get_genesis_hash s = rpc.genesis_hash s.subxt_client

    unfoldable pub get_validator_set_by_block_number : ℕ → Call (List q.Public)
    unfolding then_call get_block_hash get_validator_set_by_hash
    get_validator_set_by_block_number block_num s w =
        then_call (get_block_hash block_num s w) get_validator_set_by_hash

    unfoldable pub fetch_set_id_at : Hash → Call ℕ
    unfolding then_pure
    fetch_set_id_at block_hash s w =
        then_pure (with_retries rpc s (λ client. q.current_set_id client block_hash) w)
          (ok_or set_id_missing)

    unfoldable pub get_current_set_id_by_block_number : ℕ → Call ℕ
    unfolding then_call get_block_hash fetch_set_id_at
    get_current_set_id_by_block_number block_num s w =
        then_call (get_block_hash block_num s w) fetch_set_id_at

    unfoldable pub get_header_by_block_number : ℕ → Call (q.Header × Hash)
    unfolding then_call then_pure get_block_hash get_header_by_hash
    get_header_by_block_number block_num s w =
        then_call (get_block_hash block_num s w)
          (λ hash s1 w1. then_pure (get_header_by_hash hash s1 w1) (λ header. ok (header, hash)))

    unfoldable pub get_validator_set_at : Hash → Call (Option (List q.Account))
    get_validator_set_at block_hash s w =
        with_retries rpc s (λ client. q.session_validators client block_hash) w

    unfoldable pub get_session_key_owner_at : Hash → q.Public → Call (Option q.Account)
    get_session_key_owner_at block_hash public_key s w =
        with_retries rpc s (λ client. q.session_key_owner client block_hash public_key) w

    unfoldable pub get_paged_storage_keys : Bytes → ℕ → Hash → Call (List Bytes)
    unfolding then_answer
    get_paged_storage_keys key count hash s w =
        with_retries rpc s
          (λ client w1.
            then_answer (q.fetch_raw_keys client key hash w1) (λ keys. ok (take count keys)))
          w

    unfoldable pub request_finality_proof : ℕ → Call Bytes
    request_finality_proof block_number s w =
        with_retries rpc s (λ client. q.prove_finality client block_number) w

    unfoldable pub submit_and_wait_for_finalized : q.Signed → Call q.Events
    submit_and_wait_for_finalized signed s w =
        with_retries rpc s (λ client. q.submit client signed) w

    -- The calls, as values.
    pub data Request : Type 0 where
      block_hash_of : ℕ → Request
      header_of validators_of set_id_of : Hash → Request
      finalized_head chain_head system_version runtime_version : Request
      rows_of : List ℕ → Hash → Request
      validators_at set_id_at header_at finality_proof : ℕ → Request
      session_validators_at : Hash → Request
      key_owner_at : Hash → q.Public → Request
      storage_keys : Bytes → ℕ → Hash → Request
      submission : q.Signed → Request

    unfoldable pub after : {A : Type 0} → Outcome rpc A → Client rpc × rpc.World
    after (r, s, w) = (s, w)

    -- What a call leaves of the client.
    unfoldable pub client_after : Request → Client rpc → rpc.World → Client rpc × rpc.World
    unfolding after get_block_hash get_header_by_hash get_validator_set_by_hash fetch_set_id_at
        get_finalized_head_hash get_chain_head_header get_system_version get_runtime_version
        request_kate_rows get_validator_set_by_block_number get_current_set_id_by_block_number
        get_header_by_block_number request_finality_proof get_validator_set_at
        get_session_key_owner_at get_paged_storage_keys submit_and_wait_for_finalized
    client_after (block_hash_of n) s w = after (get_block_hash n s w)
    client_after (header_of h) s w = after (get_header_by_hash h s w)
    client_after (validators_of h) s w = after (get_validator_set_by_hash h s w)
    client_after (set_id_of h) s w = after (fetch_set_id_at h s w)
    client_after finalized_head s w = after (get_finalized_head_hash s w)
    client_after chain_head s w = after (get_chain_head_header s w)
    client_after system_version s w = after (get_system_version s w)
    client_after runtime_version s w = after (get_runtime_version s w)
    client_after (rows_of rows h) s w = after (request_kate_rows rows h s w)
    client_after (validators_at n) s w = after (get_validator_set_by_block_number n s w)
    client_after (set_id_at n) s w = after (get_current_set_id_by_block_number n s w)
    client_after (finality_proof n) s w = after (request_finality_proof n s w)
    client_after (session_validators_at h) s w = after (get_validator_set_at h s w)
    client_after (key_owner_at h key) s w = after (get_session_key_owner_at h key s w)
    client_after (storage_keys key n h) s w = after (get_paged_storage_keys key n h s w)
    client_after (submission signed) s w = after (submit_and_wait_for_finalized signed s w)
    client_after (header_at n) s w = after (get_header_by_block_number n s w)

    unfoldable pub clients_after : List Request → Client rpc → rpc.World → Client rpc × rpc.World
    unfolding client_after
    clients_after [] s w = (s, w)
    clients_after (r ∷ rs) s w = clients_after rs (client_after r s w).0 (client_after r s w).1

-- What runs at concrete inputs unfolds.
unfoldable pub calls : Unit {0}
unfolding then_call then_pure then_answer get_block_hash get_header_by_hash
    get_header_by_block_number
calls = tt
