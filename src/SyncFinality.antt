-- ===== src/SyncFinality.antt =====
-- src/sync_finality.rs: the check of every change of the validator set from a checkpoint, or from
-- genesis, up to a block. The node and the database are parameters: a call answers, or fails.
pub mod Genesis
pub mod Loop
pub mod Run
mod Tests
use smallgod.Prelude.{
  ℕ, zero, suc, ◌+◌, ◌-◌, ◌%◌, ◌^◌, Bool, true, false, Option, none, some, List, [], ◌∷◌, ◌++◌, map,
  ite, ◌==◌, if◌then◌else◌, Result, ok, err, panic, ok_or, ◌>>=◌,
}
use smallgod.Chain.{ValidatorSet, Primitives, Justification}
use smallgod.Finality.{FinalityError, check_finality}
use smallgod.SyncFinality.Genesis.{GenesisNode, GenesisError, get_valset_at_genesis}
use smallgod.Utils.{filter_auth_set_changes}

-- `data::FinalitySyncCheckpoint`
pub record FinalitySyncCheckpoint (P : Type 0) : Type 0 where
  pub number : ℕ
  pub set_id : ℕ
  pub validator_set : List P

-- A `put` of the database.
pub data Write (D P : Type 0) : Type 0 where
  block_header : ℕ → D → Write D P
  checkpoint : FinalitySyncCheckpoint P → Write D P

-- `rpc::FinalityProof`, without the headers that the code does not read
pub record FinalityProof (H J : Type 0) : Type 0 where
  pub block : H
  pub justification : J

-- The calls of `sync`, by what they ask for; `finality` carries the error of the check.
pub data SyncError (P : Type 0) : Type 0 where
  no_genesis_hash no_checkpoint no_set_id no_hash no_header : SyncError P
  genesis : GenesisError → SyncError P
  not_stored no_proof no_proof_header : SyncError P
  finality : FinalityError P → SyncError P

abbrev pub u32_mod : ℕ
u32_mod = 2 ^ 32

module _ (c : Primitives) where
  abbrev pub Put : Type 0
  Put = Write c.Header c.Public

  -- The variables of the loop: `curr_block_num`, `prev_hash`, `set_id` and `validator_set`.
  pub record Progress : Type 0 where
    pub number : ℕ
    pub prev_hash : c.H256
    pub set_id : ℕ
    pub validators : List c.Public

  abbrev pub Outcome : Type 0
  Outcome = Result (SyncError c.Public) Progress

  -- The variables after a block without a change, and after a change.
  abbrev pub same_set : Progress → c.Header → Progress
  same_set s h = record s { number = (s.number + 1) % u32_mod; prev_hash = c.header_hash h }

  abbrev pub next_set : Progress → c.Header → List (c.Public × ℕ) → Progress
  next_set s h authorities = record {
    number = (s.number + 1) % u32_mod;
    prev_hash = c.header_hash h;
    set_id = (s.set_id + 1) % 2 ^ 64;
    validators = map (λ a. a.0) authorities;
  }

  abbrev pub checkpoint_of : Progress → Put
  checkpoint_of s =
      checkpoint (record { number = s.number; set_id = s.set_id; validator_set = s.validators })

module _ (c : Primitives) (AccountId : Type 0) where
  -- `sync_finality::Client`: `none` is a call that fails. Whether a `put` succeeds may depend on
  -- what was written before.
  pub record Client : Type 0 where
    pub get_genesis_hash : Option c.H256
    pub get_checkpoint : Option (Option (FinalitySyncCheckpoint c.Public))
    pub AccountId_discrete : Discrete AccountId
    pub node : GenesisNode c.H256 c.Public AccountId
    pub fetch_set_id_at : c.H256 → Option ℕ
    pub get_block_hash : ℕ → Option c.H256
    pub get_header_by_hash : c.H256 → Option c.Header
    pub request_finality_proof : ℕ → Option (FinalityProof c.H256 (Justification c))
    pub stores : List (Put c) → Put c → Bool

  module _ (client : Client) where
    -- The part of a round behind the request of a finality proof.
    pub verify_change :
        Progress c → c.Header → List (c.Public × ℕ) → List (Put c) → List (Put c) × Outcome c
    verify_change s h authorities written = elim (client.request_finality_proof s.number) [
      | none ↦ (written, err no_proof)
      | some proof ↦ elim (client.get_header_by_hash proof.block) [
        | none ↦ (written, err no_proof_header)
        | some _ ↦
            elim (check_finality c (record { set_id = s.set_id; validator_set = s.validators })
              proof.justification) [
                | err e ↦ (written, err (finality e))
                | panic ↦ (written, panic)
                | ok _ ↦
                    let s' = next_set c s h authorities in
                    if client.stores written (checkpoint_of c s')
                    then (written ++ checkpoint_of c s' ∷ [], ok s')
                    else (written, err not_stored)
              ]
      ]
    ]

    -- The part of a round behind the write of the header: `assert_eq!` panics.
    pub link_header : Progress c → c.Header → List (Put c) → List (Put c) × Outcome c
    link_header s h written = elim (c.H256_discrete (c.parent_hash h) s.prev_hash) [
      | no _ ↦ (written, panic)
      | yes _ ↦ elim (filter_auth_set_changes c h) [
        | [] ↦ (written, ok (same_set c s h))
        | authorities ∷ _ ↦ verify_change s h authorities written
      ]
    ]

    -- A round of the loop: what is written so far, and the variables after it.
    pub round : Progress c → List (Put c) → List (Put c) × Outcome c
    round s written = elim (client.get_block_hash s.number) [
      | none ↦ (written, err no_hash)
      | some hash ↦ elim (client.get_header_by_hash hash) [
        | none ↦ (written, err no_header)
        | some h ↦
            if client.stores written (block_header s.number h)
            then link_header s h (written ++ block_header s.number h ∷ [])
            else (written, err not_stored)
      ]
    ]

    -- The loop, with fuel: `none` means that it ran out.
    pub sync_loop : ℕ → ℕ → Progress c → List (Put c) → List (Put c) × Option (Outcome c)
    sync_loop zero last s written = (written, none)
    sync_loop (suc fuel) last s written = elim (s.number == (last + 1) % u32_mod) [
      | true ↦ (written, some (ok s))
      | false ↦ elim (round s written).1 [
        | ok s' ↦ sync_loop fuel last s' (round s written).0
        | err e ↦ ((round s written).0, some (err e))
        | panic ↦ ((round s written).0, some panic)
      ]
    ]

    -- `get_valset_at_genesis(&client, gen_hash)?`
    pub genesis_validators : c.H256 → Result (SyncError c.Public) (List c.Public)
    genesis_validators gen_hash =
        elim (get_valset_at_genesis client.AccountId_discrete client.node gen_hash) [
          | ok keys ↦ ok keys
          | err e ↦ err (genesis e)
          | panic ↦ panic
        ]

    -- The variables before the loop.
    pub init : Result (SyncError c.Public) (Progress c)
    init = do
      gen_hash ← ok_or no_genesis_hash client.get_genesis_hash
      found ← ok_or no_checkpoint client.get_checkpoint
      (number, set_id, validators) ← elim found [
        | some ch ↦ ok (ch.number, ch.set_id, ch.validator_set)
        | none ↦ do
          validators ← genesis_validators gen_hash
          set_id ← ok_or no_set_id (client.fetch_set_id_at gen_hash)
          ok (1, set_id, validators)
      ]
      prev_hash ← ok_or no_hash (client.get_block_hash ((number + u32_mod - 1) % u32_mod))
      ok (record {
        number = number;
        prev_hash = prev_hash;
        set_id = set_id;
        validators = validators;
      })

    -- `sync`: the writes, and the outcome; `ok` sets `finality_synced`.
    pub sync : ℕ → ℕ → List (Put c) × Option (Outcome c)
    sync fuel last = elim init [
      | err e ↦ ([], some (err e))
      | panic ↦ ([], some panic)
      | ok s ↦ sync_loop fuel last s []
    ]
