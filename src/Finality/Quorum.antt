-- ===== src/Finality/Quorum.antt =====
-- The supermajority test of `check_finality`.
use smallgod.Prelude.{ℕ, ◌*◌, ◌^◌, ◌<◌, ◌≡◌, ◌↔◌, true, arith}
use smallgod.Finality.{is_signed_by_supermajority}

-- For fewer than 2^63 validators the test holds exactly if the signatures are more than two thirds
-- of the validators.
pub is_signed_by_supermajority_iff :
    (num_signatures validator_set_size : ℕ)
    → validator_set_size < 2 ^ 63
    → (is_signed_by_supermajority num_signatures validator_set_size ≡ true)
      ↔ (validator_set_size * 2 < num_signatures * 3)
unfolding is_signed_by_supermajority
is_signed_by_supermajority_iff n m h = (λ e. ground arith, λ e. ground arith)
