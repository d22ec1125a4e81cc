-- ===== src/SyncFinality/Tests.antt =====
-- `sync` from genesis over three blocks, the second of which changes the authorities.
use smallgod.Prelude.{
  ℕ, ◌+◌, ◌-◌, ◌≡◌, ◌≢◌, refl, true, none, some, List, [], ◌∷◌, ◌++◌, length, replicate, ok, arith,
  ◌==◌, if◌then◌else◌, ℕ_discrete,
}
use smallgod.Chain.{Justification}
use smallgod.Chain.Sample.{SampleHeader, sample}
use smallgod.Finality.{Vote, methods}
use smallgod.Utils.{filter_auth_set_changes}
use smallgod.SyncFinality.{
  Progress, Client, verify_change, link_header, round, sync_loop, genesis_validators, init, sync,
}
use smallgod.SyncFinality.Genesis.{GenesisNode, get_valset_at_genesis}
use smallgod.SyncFinality.Loop.{Synced, done, plain, change, trace}
use smallgod.SyncFinality.Run.{sync-Synced, sync_succeeds}

program : Unit {0}
unfolding methods ℕ_discrete filter_auth_set_changes verify_change link_header round sync_loop
    genesis_validators init sync get_valset_at_genesis
program = tt

-- The account of a key is its number plus 50.
abbrev node : GenesisNode ℕ ℕ ℕ
node = record {
  get_validator_set_at = λ h. some (some (51 ∷ 52 ∷ 53 ∷ []));
  get_paged_storage_keys = λ prefix count h. some (
      (prefix ++ b'g' ∷ b'r' ∷ b'a' ∷ b'n' ∷ replicate 32 1)
      ∷ (prefix ++ b'b' ∷ b'a' ∷ b'b' ∷ b'e' ∷ replicate 32 9)
      ∷ (prefix ++ b'g' ∷ b'r' ∷ b'a' ∷ b'n' ∷ replicate 32 2)
      ∷ (prefix ++ b'g' ∷ b'r' ∷ b'a' ∷ b'n' ∷ replicate 32 7)
      ∷ []);
  get_session_key_owner_at = λ h key. some (some (key + 50));
  twox_128 = λ s. 7 ∷ 7 ∷ [];
  from_raw = λ bytes. elim bytes [ [] ↦ 0 | x ∷ _ ↦ x ];
}

abbrev vote : ℕ → Vote sample
vote signer = record {
  precommit = record { target_hash = 102; target_number = 2 };
  signature = (signer, 12);
  id = signer;
}

abbrev justification : Justification sample
justification = record {
  round = 5;
  commit = record { target_hash = 102; target_number = 2; precommits = vote 1 ∷ vote 2 ∷ [] };
  votes_ancestries = [];
}

abbrev block_of : ℕ → SampleHeader
block_of h = record {
  number = h - 100;
  parent = h - 1;
  authorities = if h == 102 then 4 ∷ 5 ∷ [] else [];
}

abbrev client : Client sample ℕ
client = record {
  get_genesis_hash = some 100;
  get_checkpoint = some none;
  AccountId_discrete = ℕ_discrete;
  node = node;
  fetch_set_id_at = λ h. some 12;
  get_block_hash = λ n. some (n + 100);
  get_header_by_hash = λ h. some (block_of h);
  request_finality_proof =
      λ n. if n == 2 then some (record { block = 102; justification = justification }) else none;
  stores = λ w p. true;
}

abbrev header : ℕ → List ℕ → SampleHeader
header n authorities = record { number = n; parent = n + 99; authorities = authorities }

abbrev start : Progress sample
start = record { number = 1; prev_hash = 100; set_id = 12; validators = 1 ∷ 2 ∷ [] }

abbrev end : Progress sample
end = record { number = 4; prev_hash = 103; set_id = 13; validators = 4 ∷ 5 ∷ [] }

abbrev headers : List SampleHeader
headers = header 1 [] ∷ header 2 (4 ∷ 5 ∷ []) ∷ header 3 [] ∷ []

starts : init sample ℕ client ≡ ok start
unfolding program
starts = refl

ran : Synced sample ℕ client start headers end
unfolding program
ran = plain (header 1 []) refl refl (
    change (header 2 (4 ∷ 5 ∷ [])) ((4, 1) ∷ (5, 1) ∷ []) [] refl refl
      (record { block = 102; justification = justification }, refl, refl)
      (plain (header 3 []) refl refl done))

sync-Synced_example :
    ((sync sample ℕ client 9 3).1 ≢ none)
    × ((t : Progress sample)
        → (sync sample ℕ client 9 3).1 ≡ some (ok t)
        → (hs : List SampleHeader) × Synced sample ℕ client start hs t
          × ((sync sample ℕ client 9 3).0 ≡ trace sample start hs)
          × (start.number + length hs ≡ 4))
sync-Synced_example =
    sync-Synced sample ℕ client 9 3 start starts (omega arith) (omega arith) (omega arith)

sync_succeeds_example : (sync sample ℕ client 9 3).1 ≡ some (ok end)
sync_succeeds_example =
    sync_succeeds sample ℕ client 9 3 start end headers starts
      (record { stores = λ w p. refl; proof_headers = λ n p e. (block_of p.block, refl) })
      ((101, refl, refl), ((102, refl, refl), ((103, refl, refl), tt))) ran refl (omega arith)
      (omega arith)
