-- ===== src/LightClient/Tests.antt =====
-- A block with three sampled positions, in two rows.
use smallgod.Prelude.{
  ℕ, ◌≡◌, ◌≤◌, refl, true, false, none, some, List, [], ◌∷◌, ok, length, ℕ_discrete,
}
use smallgod.ClientState.{set_block}
use smallgod.Network
use smallgod.Network.Sample.{kate, net, requested, requested-IsDistinct}
use smallgod.LightClient.{
  LightClient, Store, block_header, verified_cell_count, process_block, methods,
}
use smallgod.LightClient.Sampled.{IsSampled, StoresCount, process_block-IsSampled}

program : Unit {0}
unfolding methods Network.methods ℕ_discrete set_block
program = tt

-- A header is its block's number, and the commitments are those of the sample.
abbrev client : LightClient kate
client = record {
  Header = ℕ;
  number = λ h. h;
  Extension = Unit;
  extract_kate = λ h. some tt;
  dimensions = λ e. some tt;
  cols = λ d. 4;
  commitments = λ e. some (100 ∷ 200 ∷ []);
  random_cells = λ d. requested;
  Confidence = ℕ;
  calculate_confidence = λ n. n;
  network = λ n. net;
  disable_rpc = false;
}

abbrev start : Store kate client
start = record {
  state = record {
    synced = none;
    latest = 8;
    header_verified = none;
    confidence_achieved = none;
    data_verified = none;
    sync_latest = none;
    sync_header_verified = none;
    sync_confidence_achieved = none;
    sync_data_verified = none;
    finality_synced = true;
  };
  stored = [];
}

abbrev end : Store kate client
end = record {
  state = record start.state { confidence_achieved = some (record { first = 8; last = 8 }) };
  stored = verified_cell_count 8 3 ∷ block_header 8 8 ∷ [];
}

runs : process_block kate client (λ w p. true) 8 start ≡ (end, ok (some 3))
unfolding program
runs = refl

process_block-IsSampled_example :
    (extension : client.Extension) × (d : kate.Dimensions) × (commitments : List kate.Commitment)
    × (some tt ≡ some extension)
    × (some tt ≡ some d)
    × (client.commitments extension ≡ some commitments)
    × (3 ≤ client.cols d)
    × IsSampled kate client d commitments
    × StoresCount kate client (λ w p. true) 8 (length requested) start end 3
process_block-IsSampled_example =
    process_block-IsSampled kate client (λ w p. true) 8 start end 3
      (record { same = λ rs r m. m; once = λ rs d. d }) (λ d. requested-IsDistinct) runs
