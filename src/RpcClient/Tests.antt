-- ===== src/RpcClient/Tests.antt =====
-- Two nodes, of which the second one answers and the first one only connects; a retry is one attempt.
use smallgod.Prelude.{
  ℕ, ◌≡◌, refl, some, none, List, [], ◌∷◌, Result, ok, err, if◌then◌else◌, ◌==◌, ite, ℕ_discrete,
}
use smallgod.Prelude.Text.{Bytes}
use smallgod.RpcClient.{bytes_discrete, Node, RpcError, failed, Rpc, returned, nodes_of}
use smallgod.RpcClient.Retry.{retry_methods, Client, with_retries, new_client}
use smallgod.RpcClient.Retries.{
  IsLibrary, IsConnected, IsAnswered, with_retries-IsAnswered, new_client-IsConnected,
}
use smallgod.RpcClient.Calls.{calls, Requests, Request, clients_after, get_header_by_block_number}
use smallgod.RpcClient.Served.{clients_after-IsConnected}
use smallgod.RpcClient.Race.{concurrent_switches, Update, run_schedule, IsOfPairs}

abbrev version : Bytes
version = b'2' ∷ b'.' ∷ b'1' ∷ b'.' ∷ b'0' ∷ []

abbrev development : Bytes
development = b'D' ∷ b'E' ∷ b'V' ∷ []

abbrev rpc : Rpc
rpc = record {
  World = Unit;
  Connection = ℕ;
  from_hex = λ text. none;
  new_insecure = λ host w. (ite (bytes_discrete host (b'a' ∷ [])) (some 1) (some 2), w);
  genesis_hash = λ c. c ∷ [];
  spec_version = λ c. c;
  system_version = λ c w. (some version, w);
  shuffled = λ ns w. (ns, w);
  retried = λ action w. (returned (action w).0, (action w).1);
}

library : IsLibrary rpc
library = record { kept = λ ns w n m. m; attempted = λ action w r e. (w, cc) }

abbrev node : Bytes → ℕ → Node
node host c = record {
  host = host;
  system_version = version;
  spec_version = c;
  genesis_hash = c ∷ [];
}

abbrev client : Client rpc
client = record {
  subxt_client = 1;
  connected_node = node (b'a' ∷ []) 1;
  nodes = nodes_of ((b'a' ∷ []) ∷ (b'b' ∷ []) ∷ []);
  expected_genesis_hash = development;
}

-- Only the second connection answers.
abbrev answers : {A : Type 0} → A → ℕ → Unit {0} → Result RpcError A × Unit {0}
answers a c w = (if c == 2 then ok a else err failed, w)

abbrev requests : Requests rpc
requests = record {
  Header = ℕ;
  Public = ℕ;
  Scalar = ℕ;
  chain_get_block_hash = λ c n. answers (some (n ∷ [])) c;
  block_header = λ c hash. answers (some 5) c;
  grandpa_authorities = λ c hash. answers [] c;
  chain_get_finalized_head = answers (7 ∷ []);
  current_set_id = λ c hash. answers (some 0) c;
  query_rows = λ c rows hash. answers [] c;
  fits_rows = some;
  to_big_endian = λ x. x ∷ [];
  call_system_version = answers version;
  Account = ℕ;
  Events = ℕ;
  Signed = ℕ;
  session_validators = λ c hash. answers none c;
  session_key_owner = λ c hash key. answers none c;
  fetch_raw_keys = λ c key hash. answers [] c;
  prove_finality = λ c n. answers [] c;
  submit = λ c signed. answers signed c;
}

-- `Client::new` connects to the first node.
new_client_first : (new_client rpc client.nodes development tt).0 ≡ ok client
unfolding retry_methods ℕ_discrete
new_client_first = refl

client-IsConnected : IsConnected rpc client
client-IsConnected = new_client-IsConnected rpc library client.nodes development tt new_client_first

abbrev nine : ℕ → Unit {0} → Result RpcError ℕ × Unit {0}
nine = answers 9

-- The call fails on the first node and switches to the second one.
abbrev switched_client : Client rpc
switched_client = record client { subxt_client = 2; connected_node = node (b'b' ∷ []) 2 }

with_retries_switches : with_retries rpc client nine tt ≡ (ok 9, switched_client, tt)
unfolding retry_methods ℕ_discrete
with_retries_switches = refl

with_retries-IsAnswered_example :
    IsAnswered rpc nine client
      (returned (err failed))
      (returned (ok (2, switched_client.connected_node, 9)))
      (ok 9)
      switched_client
unfolding retry_methods ℕ_discrete
with_retries-IsAnswered_example = with_retries-IsAnswered rpc library nine client tt

clients_after-IsConnected_example :
    IsConnected rpc
      (clients_after rpc requests (Request.chain_head ∷ Request.header_at 3 ∷ []) client tt).0
clients_after-IsConnected_example =
    clients_after-IsConnected rpc library requests (Request.chain_head ∷ Request.header_at 3 ∷ [])
      client tt client-IsConnected

header_at_3 : (get_header_by_block_number rpc requests 3 client tt).0 ≡ ok (5, 3 ∷ [])
unfolding retry_methods calls ℕ_discrete
header_at_3 = refl

concurrent_switches_example :
    ((schedule : List ℕ)
      → IsOfPairs rpc
          ((1, node (b'a' ∷ []) 1) ∷ (2, node (b'b' ∷ []) 2) ∷ (3, node (b'c' ∷ []) 3) ∷ [])
          (run_schedule rpc schedule
            (Update.write_both 2 (node (b'b' ∷ []) 2)
              ∷ Update.write_both 3 (node (b'c' ∷ []) 3)
              ∷ [])
            client).1)
    × ((schedule : List ℕ) × (run_schedule rpc schedule
            (Update.write_both 2 (node (b'b' ∷ []) 2)
              ∷ Update.write_both 3 (node (b'c' ∷ []) 3)
              ∷ [])
            client
          ≡ (
            Update.written ∷ Update.written ∷ [],
            record client { subxt_client = 3; connected_node = node (b'b' ∷ []) 2 },
          )))
concurrent_switches_example =
    concurrent_switches rpc client 2 3 (node (b'b' ∷ []) 2) (node (b'c' ∷ []) 3)
