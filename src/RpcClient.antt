-- ===== src/RpcClient.antt =====
-- src/network/rpc.rs and src/network/rpc/client.rs: the nodes, the connection to one of them, and
-- `with_retries`, which every call of the RPC client goes through and which changes to another node.
-- src/consts.rs: the versions of the nodes that are expected.
mod Connect
mod Retry
mod Retries
mod Calls
mod Served
mod Answers
mod Tests
mod Race
use smallgod.Prelude.{
  ℕ, ◌≡◌, refl, Bool, true, false, not, ◌&&◌, ◌||◌, Option, none, some, List, [], ◌∷◌, map, filter,
  replicate, length, leb, ◌==◌, ite, if◌then◌else◌, Result, ok, err, panic, ok_or, ℕ_discrete,
}
use smallgod.Prelude.Text.{Bytes, starts_with}

abbrev pub Hash : Type 0
Hash = Bytes

-- Two texts are equal where their first bytes and the rest are.
unfoldable both_same :
    (x y : ℕ) (xs ys : Bytes)
    → Dec (x ≡ y)
    → Dec (Path Bytes xs ys)
    → Dec (Path Bytes (x ∷ xs) (y ∷ ys))
both_same x y xs ys (yes same) (yes rest) = yes cc
both_same x y xs ys (yes same) (no apart) = no (λ e. apart cc)
both_same x y xs ys (no apart) rest = no (λ e. apart cc)

pub bytes_discrete : Discrete Bytes
unfolding both_same
bytes_discrete [] [] = yes refl
bytes_discrete [] (y ∷ ys) = no (λ e. absurd cc)
bytes_discrete (x ∷ xs) [] = no (λ e. absurd cc)
bytes_discrete (x ∷ xs) (y ∷ ys) = both_same x y xs ys (ℕ_discrete x y) (bytes_discrete xs ys)

-- `ExpectedNodeVariant` holds the list of its `system_version`; `matches`.
pub matches : List Bytes → Bytes → Bool
unfolding starts_with
matches [] system_version = false
matches (supported ∷ rest) system_version =
    starts_with supported system_version || matches rest system_version

-- `EXPECTED_SYSTEM_VERSION`, the only one of which is 2.1
abbrev pub expected_system_version : List Bytes
expected_system_version = (b'2' ∷ b'.' ∷ b'1' ∷ []) ∷ []

pub record Node : Type 0 where
  pub host : Bytes
  pub system_version : Bytes
  pub spec_version : ℕ
  pub genesis_hash : Hash

-- `Nodes::new`: what is not known of a node is its type's default.
pub nodes_of : List Bytes → List Node
nodes_of [] = []
nodes_of (host ∷ hosts) =
    record { host = host; system_version = []; spec_version = 0; genesis_hash = replicate 32 0 }
    ∷ nodes_of hosts

-- The errors that the code returns, with what their texts name.
pub data RpcError : Type 0 where
  not_connected wrong_genesis_hash : Bytes → RpcError
  invalid_genesis_hash : Bytes → RpcError
  unexpected_version : Bytes → RpcError
  no_working_node : RpcError
  halted_by_shutdown : Bytes → RpcError
  failed not_found invalid_proof_length set_id_missing : RpcError

-- What `with_cancel` of a `Retry` ends with: the reason of the shutdown, or the last attempt's result.
pub data Ended (A : Type 0) : Type 0 where
  halted : Bytes → Ended A
  returned : Result RpcError A → Ended A

-- What is not under src: the connections, the random order, the retries, and `from_hex`. The world is
-- all that the answers depend on.
pub record Rpc : Type 1 where
  pub World : Type 0
  pub Connection : Type 0
  pub from_hex : Bytes → Option Bytes
  pub new_insecure : Bytes → World → Option Connection × World
  pub genesis_hash : Connection → Hash
  pub spec_version : Connection → ℕ
  pub system_version : Connection → World → Option Bytes × World
  pub shuffled : List Node → World → List Node × World
  pub retried : {A : Type 0} → (World → Result RpcError A × World) → World → Ended A × World

module _ (rpc : Rpc) where
  abbrev pub Action : Type 0 → Type 0
  Action A = rpc.World → Result RpcError A × rpc.World

  module _ {A B : Type 0} where
    -- The rest runs on a result that is not an error.
    unfoldable pub and_then :
        Result RpcError A × rpc.World → (A → Action B) → Result RpcError B × rpc.World
    and_then (panic, w) next = (panic, w)
    and_then (err why, w) next = (err why, w)
    and_then (ok a, w) next = next a w

  -- `Nodes::shuffle`: a single node stays, and the current host is left out otherwise.
  pub other_hosts : Bytes → List Node → List Node
  other_hosts current_host [] = []
  other_hosts current_host (n ∷ ns) =
      let rest = other_hosts current_host ns in
      ite (bytes_discrete n.host current_host) rest (n ∷ rest)

  pub shuffle : List Node → Bytes → rpc.World → List Node × rpc.World
  unfolding other_hosts
  shuffle nodes current_host w =
      if leb (length nodes) 1 then (nodes, w) else rpc.shuffled (other_hosts current_host nodes) w

  -- The configured genesis hash, where it is one of 32 bytes.
  pub configured_hash : Bytes → Option Hash
  configured_hash configured = elim (rpc.from_hex configured) [
    | none ↦ none
    | some bytes ↦ if length bytes == 32 then some bytes else none
  ]

  -- The check of the genesis hash: a text that is no hash must have the flag of the development.
  pub check_against : Bytes → Bytes → Hash → Option Hash → Result RpcError (Unit {0})
  unfolding starts_with
  check_against host configured found (some hash) =
      ite (bytes_discrete found hash) (ok tt) (err (wrong_genesis_hash host))
  check_against host configured found none =
      if starts_with (b'D' ∷ b'E' ∷ b'V' ∷ []) configured
      then ok tt
      else err (invalid_genesis_hash configured)

  pub check_version :
      Bytes → List Bytes → rpc.Connection → Option Bytes → Result RpcError (rpc.Connection × Node)
  unfolding matches
  check_version host expected client none = err failed
  check_version host expected client (some version) =
      if matches expected version
      then ok (
        client,
        record {
          host = host;
          system_version = version;
          spec_version = rpc.spec_version client;
          genesis_hash = rpc.genesis_hash client;
        },
      )
      else err (unexpected_version version)

  pub check_client :
      Bytes → List Bytes → Bytes → Option rpc.Connection → Action (rpc.Connection × Node)
  unfolding and_then configured_hash check_against check_version
  check_client host expected configured none w = (err (not_connected host), w)
  check_client host expected configured (some client) w =
      and_then
        (check_against host configured (rpc.genesis_hash client) (configured_hash configured), w)
        (λ _ w1. (
          check_version host expected client (rpc.system_version client w1).0,
          (rpc.system_version client w1).1,
        ))

  pub create_subxt_client : Bytes → List Bytes → Bytes → Action (rpc.Connection × Node)
  unfolding check_client
  create_subxt_client host expected configured w =
      check_client host expected configured (rpc.new_insecure host w).0 (rpc.new_insecure host w).1

  module _ {A : Type 0} where
    -- An error of a node is logged, and the next one is tried.
    pub skip_error : Result RpcError A × rpc.World → Action A → Result RpcError A × rpc.World
    skip_error (panic, w) next = (panic, w)
    skip_error (err why, w) next = next w
    skip_error (ok a, w) next = (ok a, w)

  module _ {A : Type 0} (expected : List Bytes) (configured : Bytes)
      (f : rpc.Connection → Action A) where
    pub execute_on : Bytes → Action (rpc.Connection × Node × A)
    unfolding and_then create_subxt_client
    execute_on host w =
        and_then (create_subxt_client host expected configured w)
          (λ made w1. and_then (f made.0 w1) (λ a w2. (ok (made.0, made.1, a), w2)))

    pub try_connect_and_execute : List Node → Action (rpc.Connection × Node × A)
    unfolding skip_error execute_on
    try_connect_and_execute [] w = (err no_working_node, w)
    try_connect_and_execute (n ∷ ns) w =
        skip_error (execute_on n.host w) (λ w1. try_connect_and_execute ns w1)

-- What runs at concrete inputs unfolds.
unfoldable pub methods : Unit {0}
unfolding both_same bytes_discrete starts_with matches nodes_of and_then other_hosts shuffle
    configured_hash check_against check_version check_client create_subxt_client skip_error
    execute_on try_connect_and_execute
methods = tt
