-- ===== src/Api/Tests.antt =====
-- A client that started at block 5: of block 6 the confidence is achieved, and then the data.
use smallgod.Prelude.{
  ◌+◌, ℕ_discrete, List, [], ◌∷◌, Option, ok, ℕ, ◌≤◌, ◌≡◌, ◌⊎◌, refl, true, false, none, some,
  arith,
}
use smallgod.ClientState.{State, first_block, contains}
use smallgod.Api.{block_status, verifying_data, finished, unavailable, api_methods}
use mathlib.Core.List.{Memᴰ}
use smallgod.Prelude.Text.{Bytes}
use smallgod.RpcClient.{methods, Node}
use smallgod.Api.Messages.{
  header_verified, data_verified, Subscription, data_field, PublishMessage, data_message, addressed,
  message_methods,
}
use smallgod.Api.Subscribers.{
  Operation, subscribing, attaching, operate_all, subscriber_methods, addressed-IsSubscribed,
}
use smallgod.Api.Fields.{IsFiltered}
use smallgod.Api.Blocks.{Stored, block_data, block_header, block_methods}
use smallgod.Api.Answers.{
  HasData, IsStoredData, IsSeen, block_data-IsVerified, block_header-IsVerified,
}
use smallgod.Api.Sockets.{
  Config, Socket, Request, version_payload, submit_payload, data_transaction, text_message,
  other_message, Incoming,
}
use smallgod.Api.Progress.{IsReported, rank_of, block_status-le}

abbrev before : State
before = record {
  synced = none;
  latest = 7;
  header_verified = some (record { first = 5; last = 7 });
  confidence_achieved = some (record { first = 5; last = 6 });
  data_verified = some (record { first = 5; last = 5 });
  sync_latest = none;
  sync_header_verified = none;
  sync_confidence_achieved = none;
  sync_data_verified = none;
  finality_synced = true;
}

abbrev after : State
after = record before { latest = 8; data_verified = some (record { first = 5; last = 6 }) }

status_before : block_status none before 6 true ≡ some verifying_data
unfolding api_methods contains
status_before = refl

status_after : block_status none after 6 true ≡ some finished
unfolding api_methods contains
status_after = refl

status_of_old : block_status none after 4 true ≡ some unavailable
unfolding api_methods contains
status_of_old = refl

-- The witness.
block_status-le_example :
    IsReported none before 6 true (block_status none before 6 true)
    × (rank_of (block_status none before 6 true) ≤ rank_of (block_status none after 6 true))
unfolding contains api_methods first_block
block_status-le_example = block_status-le none before after 6 true (record {
  latest = omega arith;
  first = refl;
  headers = λ h. h;
  confidence = λ h. h;
  verified = λ h. refl;
  sync_headers = λ h. h;
  sync_confidence = λ h. h;
  sync_verified = λ h. h;
})

-- A client subscribes to the data, with the field of the data, and connects its socket 3.
abbrev wanted : Subscription
wanted = record { topics = data_verified ∷ []; data_fields = data_field ∷ [] }

abbrev operations : List (Operation ℕ)
operations = subscribing (b'x' ∷ []) wanted ∷ attaching (b'x' ∷ []) 3 ∷ attaching (b'y' ∷ []) 4 ∷ []

abbrev published : PublishMessage ℕ ℕ
published = data_message 6 (record { app_data = some (1 ∷ []); extrinsic = some (2 ∷ []) } ∷ [])

abbrev received : PublishMessage ℕ ℕ
received = data_message 6 (record { app_data = some (1 ∷ []); extrinsic = none } ∷ [])

addressed_once :
    addressed ℕ ℕ ℕ data_verified published (operate_all ℕ operations []) ≡ (3, received) ∷ []
unfolding message_methods subscriber_methods methods ℕ_discrete
addressed_once = refl

addressed_not : addressed ℕ ℕ ℕ header_verified published (operate_all ℕ operations []) ≡ []
unfolding message_methods subscriber_methods methods ℕ_discrete
addressed_not = refl

addressed-IsSubscribed_example :
    (id : Bytes) × (subscription : Subscription) × Memᴰ (subscribing id subscription) operations
    × Memᴰ (attaching id 3) operations
    × Memᴰ data_verified subscription.topics
    × IsFiltered ℕ ℕ subscription.data_fields published received
unfolding message_methods subscriber_methods methods ℕ_discrete
addressed-IsSubscribed_example =
    addressed-IsSubscribed ℕ ℕ ℕ operations data_verified published (3, received) (Memᴰ.head refl)

-- Block 6 is stored with the data of application 1.
abbrev stored : Stored
stored = record {
  Header = ℕ;
  Confidence = ℕ;
  Converted = ℕ;
  get_header = λ n. some (some n);
  get_cell_count = λ n. some (some 5);
  get_app_data = λ app_id n. some (some ((7 ∷ []) ∷ []));
  has_extension = λ header. true;
  convert = λ header. some (header + 100);
  decode_app_data = λ bytes. some (some bytes);
  calculate_confidence = λ count. count;
}

data_of_6 :
    block_data stored none after 6 (some (data_field ∷ [])) (some 1)
    ≡ ok (record { app_data = some (7 ∷ []); extrinsic = none } ∷ [])
unfolding block_methods api_methods contains message_methods
data_of_6 = refl

block_data-IsVerified_example :
    HasData stored none after 6
    × IsStoredData stored none after 6
        (some (data_field ∷ []))
        (stored.get_app_data 1 6)
        (record { app_data = some (7 ∷ []); extrinsic = none } ∷ [])
block_data-IsVerified_example =
    block_data-IsVerified stored none after 6 (some (data_field ∷ [])) 1 data_of_6

header_of_6 : block_header stored none before 6 ≡ ok 106
unfolding block_methods api_methods contains
header_of_6 = refl

block_header-IsVerified_example :
    (header : ℕ) × (stored.get_header 6 ≡ some (some header))
    × (stored.convert header ≡ some 106)
    × (IsSeen stored none before 6 ⊎ (stored.has_extension header ≡ false))
block_header-IsVerified_example = block_header-IsVerified stored none before 6 header_of_6

-- A socket whose texts are the requests; the submission of data gives their first byte.
abbrev config : Config
config = record {
  Partition = ℕ;
  app_id = some 1;
  block_matrix_partition = none;
  show_hash = λ h. h;
}

abbrev socket : Socket
socket = record {
  Text = Option Request;
  Version = ℕ;
  SubmitResponse = ℕ;
  parse_request = λ text. text;
  version = 2;
  submit = some (λ transaction. some 9);
}

abbrev node : Node
node = record { host = b'h' ∷ []; system_version = b'2' ∷ []; spec_version = 1; genesis_hash = [] }

abbrev incoming : List (Incoming config socket)
incoming =
    text_message before node (some (record { payload = version_payload; request_id = 10 }))
    ∷ other_message
    ∷ text_message before node none
    ∷ text_message before node
        (some (record { payload = submit_payload (data_transaction []); request_id = 11 }))
    ∷ []
