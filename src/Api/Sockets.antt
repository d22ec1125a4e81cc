-- ===== src/Api/Sockets.antt =====
-- src/api/v2/ws.rs: the requests on a web socket and their answers; and `Status::new` and the modes of
-- src/api/v2/types.rs, with `Node::network` of src/network/rpc.rs.
use smallgod.Prelude.{
  ℕ, Bool, true, false, Option, none, some, List, [], ◌∷◌, ◌++◌, Result, ok, err,
}
use smallgod.Prelude.Text.{Bytes, print}
use smallgod.ClientState.{BlockRange, State}
use smallgod.RpcClient.{Node}
use smallgod.Api.Blocks.{ApiError, bad_request_unknown, bad_request, internal_server_error}

pub data Mode : Type 0 where
  light app partition : Mode

-- `From<&RuntimeConfig> for Vec<Mode>`, of the application id and the partition
unfoldable modes_of {ℓ} : {P : Type ℓ} → Option ℕ → Option P → List Mode
modes_of none none = light ∷ []
modes_of none (some p) = light ∷ partition ∷ []
modes_of (some a) none = light ∷ app ∷ []
modes_of (some a) (some p) = light ∷ app ∷ partition ∷ []

pub network : Node → Bytes
network node = node.host ++ b'/' ∷ node.system_version ++ b'/' ∷ print node.spec_version

record HistoricalSync : Type 0 where
  pub synced : Bool
  available : Option BlockRange
  pub app_data : Option BlockRange

pub record Blocks : Type 0 where
  pub latest : ℕ
  available : Option BlockRange
  pub app_data : Option BlockRange
  historical_sync : Option HistoricalSync

-- What is left of the configuration, and the print of a hash.
pub record Config : Type 1 where
  pub Partition : Type 0
  pub app_id : Option ℕ
  pub block_matrix_partition : Option Partition
  pub show_hash : Bytes → Bytes

module _ (config : Config) where
  pub record Status : Type 0 where
    modes : List Mode
    pub app_id : Option ℕ
    pub genesis_hash : Bytes
    network_of : Bytes
    pub blocks : Blocks
    partition_of : Option config.Partition

  unfoldable historical_sync_of : State → Option Bool → Option HistoricalSync
  historical_sync_of s none = none
  historical_sync_of s (some synced) = some (record {
    synced = synced;
    available = s.sync_confidence_achieved;
    app_data = s.sync_data_verified;
  })

  -- `Status::new`, with the connected node of the state
  pub status : State → Node → Status
  unfolding modes_of network historical_sync_of
  status s node = record {
    modes = modes_of config.app_id config.block_matrix_partition;
    app_id = config.app_id;
    genesis_hash = config.show_hash node.genesis_hash;
    network_of = network node;
    blocks = record {
      latest = s.latest;
      available = s.confidence_achieved;
      app_data = s.data_verified;
      historical_sync = historical_sync_of s s.synced;
    };
    partition_of = config.block_matrix_partition;
  }

pub data Transaction : Type 0 where
  data_transaction extrinsic_transaction : Bytes → Transaction

pub is_empty : Transaction → Bool
is_empty (data_transaction []) = true
is_empty (data_transaction (b ∷ bytes)) = false
is_empty (extrinsic_transaction []) = true
is_empty (extrinsic_transaction (b ∷ bytes)) = false

pub data Payload : Type 0 where
  version_payload status_payload : Payload
  submit_payload : Transaction → Payload

pub record Request : Type 0 where
  pub payload : Payload
  pub request_id : ℕ

-- The messages of a socket, the parsing of JSON, and the submission, which fails for `none`.
pub record Socket : Type 1 where
  pub Text : Type 0
  pub Version : Type 0
  pub SubmitResponse : Type 0
  pub parse_request : Text → Option Request
  pub version : Version
  pub submit : Option (Transaction → Option SubmitResponse)

module _ (config : Config) (socket : Socket) where
  pub data WsResponse : Type 0 where
    version_response : ℕ → socket.Version → WsResponse
    status_response : ℕ → Status config → WsResponse
    data_transaction_submitted : ℕ → socket.SubmitResponse → WsResponse

  -- The transactions that are submitted, and the answer.
  abbrev pub Answer : Type 0
  Answer = List Transaction × Result ApiError WsResponse

  unfoldable pub submitted : ℕ → Transaction → Option socket.SubmitResponse → Answer
  submitted id transaction none = (transaction ∷ [], err internal_server_error)
  submitted id transaction (some response) =
      (transaction ∷ [], ok (data_transaction_submitted id response))

  unfoldable pub submit_with :
      ℕ → Transaction → Option (Transaction → Option socket.SubmitResponse) → Bool → Answer
  unfolding submitted
  submit_with id transaction none empty = ([], err (bad_request id))
  submit_with id transaction (some submit) true = ([], err (bad_request id))
  submit_with id transaction (some submit) false = submitted id transaction (submit transaction)

  unfoldable pub handle_payload : State → Node → ℕ → Payload → Answer
  unfolding submit_with status is_empty
  handle_payload s node id version_payload = ([], ok (version_response id socket.version))
  handle_payload s node id status_payload = ([], ok (status_response id (status config s node)))
  handle_payload s node id (submit_payload transaction) =
      submit_with id transaction socket.submit (is_empty transaction)

  unfoldable pub handle_parsed : State → Node → Option Request → Answer
  unfolding handle_payload
  handle_parsed s node none = ([], err bad_request_unknown)
  handle_parsed s node (some request) = handle_payload s node request.request_id request.payload

  unfoldable pub handle_request : State → Node → socket.Text → Answer
  unfolding handle_parsed
  handle_request s node message = handle_parsed s node (socket.parse_request message)

  -- What comes in on the socket, with the state and the node at the time.
  pub data Incoming : Type 0 where
    receive_failed other_message : Incoming
    text_message : State → Node → socket.Text → Incoming

  -- The loop of `connect`: what is submitted, and what is answered.
  unfoldable pub connect : List Incoming → List Transaction × List (Result ApiError WsResponse)
  unfolding handle_request
  connect [] = ([], [])
  connect (receive_failed ∷ incoming) = connect incoming
  connect (other_message ∷ incoming) = connect incoming
  connect (text_message s node message ∷ incoming) =
      let (transactions, answers) = connect incoming in
      (
        (handle_request s node message).0 ++ transactions,
        (handle_request s node message).1 ∷ answers,
      )
