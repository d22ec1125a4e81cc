-- ===== src/SyncClient/Tests.antt =====
-- Two blocks behind the latest one: of the first all sampled cells are fetched, of the second, for
-- which the node does not answer, only one.
use mathlib.Core.List.{Memᴰ}
use smallgod.Prelude.{
  ℕ, ◌≡◌, ◌≤◌, ◌<◌, ◌⊎◌, refl, true, false, none, some, [], ◌∷◌, ◌==◌, if◌then◌else◌, ok,
  ℕ_discrete,
}
use smallgod.ClientState.{set_block, contains}
use smallgod.Network
use smallgod.Network.{Fetched, fetch_verified}
use smallgod.Network.Verified.{IsComplete}
use smallgod.Network.Sample.{kate, net, requested, requested-IsDistinct}
use smallgod.LightClient.{LightClient, block_header, verified_cell_count}
use smallgod.SyncClient.{SyncClient, Sync, BlockVerified, run, methods}
use smallgod.SyncClient.Ranges.{run-contains}
use smallgod.SyncClient.Sampled.{IsGood, run-IsNew}

program : Unit {0}
unfolding methods Network.methods ℕ_discrete set_block
program = tt

-- A header is its block's number, and the commitments are those of the sample.
abbrev light : LightClient kate
light = record {
  Header = ℕ;
  number = λ h. h;
  Extension = Unit;
  extract_kate = λ h. some tt;
  dimensions = λ e. some tt;
  cols = λ d. 4;
  commitments = λ e. some (100 ∷ 200 ∷ []);
  random_cells = λ d. requested;
  Confidence = ℕ;
  calculate_confidence = λ n. n;
  network = λ n. if n == 4 then net else record net { query_proof = λ ps. some [] };
  disable_rpc = false;
}

abbrev client : SyncClient kate light
client = record {
  get_block_header = λ stored n. if n == 5 then some (some 5) else some none;
  is_confidence_stored = λ stored n. some false;
  accepts = λ stored put. true;
  request_header = λ n. some n;
  app_lookup_is_empty = λ e. some false;
  is_last_step = true;
}

abbrev start : Sync kate light
start = record {
  state = record {
    synced = none;
    latest = 8;
    header_verified = none;
    confidence_achieved = none;
    data_verified = none;
    sync_latest = none;
    sync_header_verified = none;
    sync_confidence_achieved = none;
    sync_data_verified = none;
    finality_synced = true;
  };
  stored = [];
  sent = [];
}

abbrev message : BlockVerified kate light
message = record { block_num = 4; extension = some (tt, 100 ∷ 200 ∷ []); confidence = some 3 }

abbrev end : Sync kate light
end = record {
  state = record start.state {
    synced = some true;
    sync_latest = some 5;
    sync_header_verified = some (record { first = 4; last = 5 });
    sync_confidence_achieved = some (record { first = 4; last = 5 });
  };
  stored = block_header 4 4 ∷ verified_cell_count 4 3 ∷ [];
  sent = message ∷ [];
}

runs : run kate light client 4 6 start ≡ some end
unfolding program
runs = refl

run-IsNew_example :
    Memᴰ (verified_cell_count 4 3) start.stored ⊎ IsGood kate light client (verified_cell_count 4 3)
run-IsNew_example =
    run-IsNew kate light client
      (λ n.
        elim (n == 4)
          as (λ b.
            IsComplete kate (if b then net else record net { query_proof = λ ps. some [] })) [
              | true ↦ record { same = λ rs r m. m; once = λ rs d. d }
              | false ↦ record { same = λ rs r m. m; once = λ rs d. d }
            ])
      (λ d. requested-IsDistinct) 4 6 start end runs (verified_cell_count 4 3)
      (Memᴰ.tail (Memᴰ.head refl))

-- The confidence of block 5, whose cells are not all fetched, is achieved too.
run-contains_example : (4 ≤ 5) × (5 < 6) × (contains 5 end.state.sync_header_verified ≡ true)
unfolding contains
run-contains_example = run-contains kate light client 4 6 start end 5 refl refl runs refl

abbrev part : Fetched kate
part = record {
  fetched = record { position = 3; content = 103 } ∷ [];
  unfetched = [];
  dht_fetched = 1;
  rpc_fetched = some 0;
  inserted = [];
}

few : fetch_verified kate (light.network 5) false tt (100 ∷ 200 ∷ []) requested ≡ ok part
unfolding program
few = refl
