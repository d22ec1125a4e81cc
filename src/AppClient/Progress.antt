-- ===== src/AppClient/Progress.antt =====
-- The state that the loop keeps for the blocks whose data are verified.
use mathlib.Core.List.{append_assoc, append-nil}
use smallgod.Prelude.{
  ℕ, ◌≡◌, refl, sym, ap, ◌∙◌, subst, ◌⊎◌, inl, inr, true, false, none, some, List, [], ◌∷◌, ◌++◌,
  All, All-append, ok, err, panic, ◌>>=◌, arith, Bool-cases, Option-cases, Result-cases,
}
use smallgod.ClientState.{State, set_block}
use smallgod.Network.{Kate}
use smallgod.AppClient.{App, AppError, missing_extension, not_stored, Block}
use smallgod.AppClient.Process.{
  SyncRange, in_range, is_last, set_data_verified_state, Run, run_block, run, process_block,
  verified_rows, app_data,
}

-- A block in the range to sync counts for that range and any other for the range of new blocks;
-- and if the sync is under way, the last block of the range, and no other, completes it.
pub set_data_verified_state_lem :
    (r : SyncRange) (n : ℕ) (s : State)
    → (in_range n r ≡ true
        → (set_data_verified_state r n s).sync_data_verified ≡ set_block n s.sync_data_verified)
      × (in_range n r ≡ false
          → (set_data_verified_state r n s).data_verified ≡ set_block n s.data_verified)
      × (s.synced ≡ some false → (set_data_verified_state r n s).synced ≡ some (is_last n r))
      × (s.synced ≡ some true → (set_data_verified_state r n s).synced ≡ some true)
unfolding set_data_verified_state
set_data_verified_state_lem r n s = elim (Bool-cases (in_range n r)) [
  | inl inside ↦
      (λ h. ground arith, λ h. absurd (ground arith), λ h. ground arith, λ h. ground arith)
  | inr outside ↦
      (λ h. absurd (ground arith), λ h. ground arith, λ h. ground arith, λ h. ground arith)
]

module _ (k : Kate) (a : App k) where
  -- What was stored and sent between two states: the same data in the same order, each to receivers,
  -- but that the last data stored were not sent if there was no receiver for them.
  abbrev pub Heard : ℕ × a.AppData → Type 0
  Heard x = a.has_receivers x.0 ≡ true

  abbrev pub IsDelivered : Run k a → Run k a → Type 0
  IsDelivered s t =
      (xs : List (ℕ × a.AppData)) × (rest : List (ℕ × a.AppData)) × (t.sent ≡ s.sent ++ xs)
      × (t.stored ≡ s.stored ++ (xs ++ rest))
      × All Heard xs
      × ((rest ≡ []) ⊎ ((x : ℕ × a.AppData) × (rest ≡ x ∷ []) × (a.has_receivers x.0 ≡ false)))

  process_block-stored :
      (b : Block k a) (stored : List (ℕ × a.AppData))
      → ((x : a.AppData) × ((process_block k a b stored).1 ≡ ok x)
          × ((process_block k a b stored).0 ≡ stored ++ (b.block_num, x) ∷ []))
        ⊎ ((((why : AppError) × ((process_block k a b stored).1 ≡ err why))
              ⊎ ((process_block k a b stored).1 ≡ panic))
            × ((process_block k a b stored).0 ≡ stored))
  unfolding process_block
  process_block-stored b stored = elim (Option-cases b.extension) [
    | inl missing ↦ inr (inl (missing_extension, ground arith), ground arith)
    | inr (e, given) ↦
        elim (Result-cases (verified_rows k a b.block_num e >>= app_data k a b.block_num e)) [
          | inr (inl (why, failed)) ↦ inr (inl (why, ground arith), ground arith)
          | inr (inr panicked) ↦ inr (inr (ground arith), ground arith)
          | inl (x, made) ↦ elim (Bool-cases (a.stores stored (b.block_num, x))) [
            | inl accepted ↦ inl (x, ground arith, ground arith)
            | inr refused ↦ inr (inl (not_stored, ground arith), ground arith)
          ]
        ]
  ]

  -- A round that goes on has sent what it stored, if anything.
  run_block-IsDelivered :
      (r : SyncRange) (b : Block k a) (s : Run k a)
      → IsDelivered s (run_block k a r b s).0
        × ((run_block k a r b s).1 ≡ none
            → (xs : List (ℕ × a.AppData)) × ((run_block k a r b s).0.sent ≡ s.sent ++ xs)
              × ((run_block k a r b s).0.stored ≡ s.stored ++ xs)
              × All Heard xs)
  unfolding run_block
  run_block-IsDelivered r b s = elim (Option-cases b.extension) [
    | inl missing ↦ (
      (
        [],
        [],
        ground (arith, append-nil s.sent),
        ground (arith, append-nil s.stored),
        tt,
        inl refl,
      ),
      λ h. ([], ground (arith, append-nil s.sent), ground (arith, append-nil s.stored), tt),
    )
    | inr (e, given) ↦ elim (Bool-cases (a.has_app e.lookup)) [
      | inr other ↦ (
        (
          [],
          [],
          ground (arith, append-nil s.sent),
          ground (arith, append-nil s.stored),
          tt,
          inl refl,
        ),
        λ h. ([], ground (arith, append-nil s.sent), ground (arith, append-nil s.stored), tt),
      )
      | inl ours ↦ elim (process_block-stored b s.stored) [
        | inr (inl (why, failed), same) ↦ (
          (
            [],
            [],
            ground (arith, append-nil s.sent),
            ground (arith, append-nil s.stored),
            tt,
            inl refl,
          ),
          λ h. absurd (ground arith),
        )
        | inr (inr panicked, same) ↦ (
          (
            [],
            [],
            ground (arith, append-nil s.sent),
            ground (arith, append-nil s.stored),
            tt,
            inl refl,
          ),
          λ h. absurd (ground arith),
        )
        | inl (x, made, stored) ↦ elim (Bool-cases (a.has_receivers b.block_num)) [
          | inl heard ↦ (
            ((b.block_num, x) ∷ [], [], ground arith, ground arith, (heard, tt), inl refl),
            λ h. ((b.block_num, x) ∷ [], ground arith, ground arith, (heard, tt)),
          )
          | inr unheard ↦ (
            (
              [],
              (b.block_num, x) ∷ [],
              ground (arith, append-nil s.sent),
              ground arith,
              tt,
              inr ((b.block_num, x), refl, unheard),
            ),
            λ h. absurd (ground arith),
          )
        ]
      ]
    ]
  ]

  -- Over any blocks that are received, the data that are sent are the data that are stored, in the
  -- same order, and each has receivers when it is sent; but the data that are stored last may be left
  -- unsent, and then there are no receivers for them.
  pub run-IsDelivered :
      (r : SyncRange) (bs : List (Block k a)) (s : Run k a) → IsDelivered s (run k a r bs s).0
  unfolding run
  run-IsDelivered r [] s =
      ([], [], ground (arith, append-nil s.sent), ground (arith, append-nil s.stored), tt, inl refl)
  run-IsDelivered r (b ∷ bs) s =
      let (delivered, goes_on) = run_block-IsDelivered r b s in
      elim (Option-cases (run_block k a r b s).1) [
        | inr (why, ended) ↦
            let same : run k a r (b ∷ bs) s ≡ ((run_block k a r b s).0, why) = ground arith in
            subst (λ x. IsDelivered s x.0) (sym same) delivered
        | inl more ↦
            let u = (run_block k a r b s).0 in
            let (xs, sent, stored, heard) = goes_on more in
            let (ys, rest, sent', stored', heard', last) = run-IsDelivered r bs u in
            let same : run k a r (b ∷ bs) s ≡ run k a r bs u = ground arith in
            subst (λ x. IsDelivered s x.0) (sym same)
              (
                xs ++ ys,
                rest,
                sent' ∙ ap (λ z. z ++ ys) sent ∙ append_assoc s.sent xs ys,
                stored'
                    ∙ ap (λ z. z ++ (ys ++ rest)) stored
                    ∙ append_assoc s.stored xs (ys ++ rest)
                    ∙ ap (λ z. s.stored ++ z) (sym (append_assoc xs ys rest)),
                All-append Heard xs ys heard heard',
                last,
              )
      ]
