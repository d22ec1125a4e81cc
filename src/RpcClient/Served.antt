-- ===== src/RpcClient/Served.antt =====
-- Any calls keep the client connected to the node that the state names.
use smallgod.Prelude.{
  ℕ, ◌≡◌, refl, sym, subst, Option, none, some, List, [], ◌∷◌, Result, ok, err, panic,
}
use smallgod.RpcClient.{Hash, RpcError, Rpc, Action}
use smallgod.RpcClient.Retry.{Client, Outcome, with_retries}
use smallgod.RpcClient.Retries.{IsLibrary, IsConnected, with_retries-IsConnected}
use smallgod.RpcClient.Calls.{
  Requests, then_call, then_pure, get_block_hash, get_header_by_hash, get_validator_set_by_hash,
  get_finalized_head_hash, get_chain_head_header, request_kate_rows, query_fitting,
  get_system_version, get_runtime_version, get_validator_set_by_block_number, fetch_set_id_at,
  get_current_set_id_by_block_number, get_header_by_block_number, request_finality_proof,
  get_validator_set_at, get_session_key_owner_at, get_paged_storage_keys,
  submit_and_wait_for_finalized, Request, after, client_after, clients_after,
}

module _ (rpc : Rpc) (library : IsLibrary rpc) (q : Requests rpc) where
  then_call-IsConnected :
      {A B : Type 0} (out : Outcome rpc A) (next : A → Client rpc → rpc.World → Outcome rpc B)
      → IsConnected rpc out.1
      → ((a : A) (s : Client rpc) (w : rpc.World)
          → IsConnected rpc s
          → IsConnected rpc (next a s w).1)
      → IsConnected rpc (then_call rpc out next).1
  unfolding then_call
  then_call-IsConnected (panic, s, w) next h keep = h
  then_call-IsConnected (err why, s, w) next h keep = h
  then_call-IsConnected (ok a, s, w) next h keep = keep a s w h

  then_pure-client :
      {A B : Type 0} (out : Outcome rpc A) (next : A → Result RpcError B)
      → (then_pure rpc out next).1 ≡ out.1
  unfolding then_pure
  then_pure-client (panic, s, w) next = refl
  then_pure-client (err why, s, w) next = refl
  then_pure-client (ok a, s, w) next = refl

  then_pure-IsConnected :
      {A B : Type 0} (out : Outcome rpc A) (next : A → Result RpcError B)
      → IsConnected rpc out.1
      → IsConnected rpc (then_pure rpc out next).1
  then_pure-IsConnected out next h = subst (IsConnected rpc) (sym (then_pure-client out next)) h

  module _ (s : Client rpc) (w : rpc.World) (h : IsConnected rpc s) where
    retried_call :
        {A : Type 0} (f : rpc.Connection → Action rpc A)
        → IsConnected rpc (with_retries rpc s f w).1
    retried_call f = with_retries-IsConnected rpc library f s w h

    pub hash-IsConnected : (n : ℕ) → IsConnected rpc (get_block_hash rpc q n s w).1
    unfolding get_block_hash
    hash-IsConnected n = then_pure-IsConnected (with_retries rpc s _ w) _ (retried_call _)

    header-IsConnected : (hash : Hash) → IsConnected rpc (get_header_by_hash rpc q hash s w).1
    unfolding get_header_by_hash
    header-IsConnected hash = retried_call _

    validators-IsConnected :
        (hash : Hash) → IsConnected rpc (get_validator_set_by_hash rpc q hash s w).1
    unfolding get_validator_set_by_hash
    validators-IsConnected hash = then_pure-IsConnected (with_retries rpc s _ w) _ (retried_call _)

    set_id-IsConnected : (hash : Hash) → IsConnected rpc (fetch_set_id_at rpc q hash s w).1
    unfolding fetch_set_id_at
    set_id-IsConnected hash = then_pure-IsConnected (with_retries rpc s _ w) _ (retried_call _)

    fitting-IsConnected :
        (rows : Option (List ℕ)) (hash : Hash)
        → IsConnected rpc (query_fitting rpc q rows hash s w).1
    unfolding query_fitting
    fitting-IsConnected none hash = h
    fitting-IsConnected (some rows) hash = retried_call _

    rows-IsConnected :
        (rows : List ℕ) (hash : Hash) → IsConnected rpc (request_kate_rows rpc q rows hash s w).1
    unfolding request_kate_rows
    rows-IsConnected rows hash = fitting-IsConnected (q.fits_rows rows) hash

  client_after-IsConnected :
      (r : Request rpc q) (s : Client rpc) (w : rpc.World)
      → IsConnected rpc s
      → IsConnected rpc (client_after rpc q r s w).0
  unfolding client_after after get_finalized_head_hash get_chain_head_header get_system_version
      get_runtime_version get_validator_set_by_block_number get_current_set_id_by_block_number
      get_header_by_block_number request_finality_proof get_validator_set_at
      get_session_key_owner_at get_paged_storage_keys submit_and_wait_for_finalized
  client_after-IsConnected (Request.block_hash_of n) s w h = hash-IsConnected s w h n
  client_after-IsConnected (Request.header_of hash) s w h = header-IsConnected s w h hash
  client_after-IsConnected (Request.validators_of hash) s w h = validators-IsConnected s w h hash
  client_after-IsConnected (Request.set_id_of hash) s w h = set_id-IsConnected s w h hash
  client_after-IsConnected Request.finalized_head s w h = retried_call s w h _
  client_after-IsConnected Request.chain_head s w h =
      then_call-IsConnected (with_retries rpc s _ w) _ (retried_call s w h _)
        (λ hash s1 w1 h1. header-IsConnected s1 w1 h1 hash)
  client_after-IsConnected Request.system_version s w h = retried_call s w h _
  client_after-IsConnected Request.runtime_version s w h = retried_call s w h _
  client_after-IsConnected (Request.rows_of rows hash) s w h = rows-IsConnected s w h rows hash
  client_after-IsConnected (Request.validators_at n) s w h =
      then_call-IsConnected (get_block_hash rpc q n s w) _ (hash-IsConnected s w h n)
        (λ hash s1 w1 h1. validators-IsConnected s1 w1 h1 hash)
  client_after-IsConnected (Request.set_id_at n) s w h =
      then_call-IsConnected (get_block_hash rpc q n s w) _ (hash-IsConnected s w h n)
        (λ hash s1 w1 h1. set_id-IsConnected s1 w1 h1 hash)
  client_after-IsConnected (Request.finality_proof n) s w h = retried_call s w h _
  client_after-IsConnected (Request.session_validators_at hash) s w h = retried_call s w h _
  client_after-IsConnected (Request.key_owner_at hash key) s w h = retried_call s w h _
  client_after-IsConnected (Request.storage_keys key n hash) s w h = retried_call s w h _
  client_after-IsConnected (Request.submission signed) s w h = retried_call s w h _
  client_after-IsConnected (Request.header_at n) s w h =
      then_call-IsConnected (get_block_hash rpc q n s w) _ (hash-IsConnected s w h n)
        (λ hash s1 w1 h1.
          then_pure-IsConnected (get_header_by_hash rpc q hash s1 w1) _
            (header-IsConnected s1 w1 h1 hash))

  -- Any sequence of the modelled calls keeps the client on a connection that has passed the checks, to
  -- the node that the state names, one of the configured.
  pub clients_after-IsConnected :
      (rs : List (Request rpc q)) (s : Client rpc) (w : rpc.World)
      → IsConnected rpc s
      → IsConnected rpc (clients_after rpc q rs s w).0
  unfolding clients_after
  clients_after-IsConnected [] s w h = h
  clients_after-IsConnected (r ∷ rs) s w h =
      clients_after-IsConnected rs _ _ (client_after-IsConnected r s w h)
