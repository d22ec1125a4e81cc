-- ===== src/Api/Progress.antt =====
-- What the status of a block says of what is achieved.
use smallgod.Prelude.{
  ℕ, ◌≤◌, ◌≡◌, refl, subst, Bool, true, false, Option, none, some, ◌==◌, ltb, if◌then◌else◌, arith,
}
use smallgod.ClientState.{BlockRange, State, first_block, contains}
use smallgod.Api.{
  BlockStatus, unavailable, pending, verifying_header, verifying_confidence, verifying_data,
  incomplete, finished, unwrap_or, status_of, sync_status, head_status, is_sync_latest, reported,
  block_status,
}

-- How much of a block is achieved: nothing, the header, the confidence, or the data.
abbrev rank : BlockStatus → ℕ
rank verifying_confidence = 1
rank verifying_data = 2
rank finished = 3
rank _ = 0

abbrev pub rank_of : Option BlockStatus → ℕ
rank_of none = 0
rank_of (some status) = rank status

-- The second range has the block if the first has.
abbrev pub Keeps : ℕ → Option BlockRange → Option BlockRange → Type 0
Keeps n r r' = contains n r ≡ true → contains n r' ≡ true

-- The later state is not behind in any of the ranges, and the first block is the same.
pub record IsLater (n : ℕ) (s s' : State) : Type 0 where
  pub latest : s.latest ≤ s'.latest
  pub first :
      unwrap_or s.latest (first_block s.header_verified)
      ≡ unwrap_or s'.latest (first_block s'.header_verified)
  pub headers : Keeps n s.header_verified s'.header_verified
  pub confidence : Keeps n s.confidence_achieved s'.confidence_achieved
  pub verified : Keeps n s.data_verified s'.data_verified
  pub sync_headers : Keeps n s.sync_header_verified s'.sync_header_verified
  pub sync_confidence : Keeps n s.sync_confidence_achieved s'.sync_confidence_achieved
  pub sync_verified : Keeps n s.sync_data_verified s'.sync_data_verified

status_of-le :
    (d c h l d' c' h' l' : Bool)
    → (d ≡ true → d' ≡ true)
    → (c ≡ true → c' ≡ true)
    → (h ≡ true → h' ≡ true)
    → rank (status_of d c h l) ≤ rank (status_of d' c' h' l')
unfolding status_of
status_of-le d c h l d' c' h' l' hd hc hh = ground arith

reported-le :
    (start : Option ℕ) (latest latest' first n : ℕ) (has_extension : Bool)
    (sync head sync' head' : BlockStatus)
    → latest ≤ latest'
    → rank sync ≤ rank sync'
    → rank head ≤ rank head'
    → rank_of (reported start latest first n has_extension sync head)
      ≤ rank_of (reported start latest' first n has_extension sync' head')
unfolding reported
reported-le start latest latest' first n has_extension sync head sync' head' le les leh =
    ground arith

-- When each status is reported, for the tests whether the block is above the latest one, before the
-- start, has an extension, and whether its data, confidence and header are achieved or it is the
-- latest one.
IsReportedFor :
    (above before has_extension has_data has_confidence has_header is_latest : Bool)
    → Option BlockStatus
    → Type 0
IsReportedFor a b e d c h l none = a ≡ true
IsReportedFor a b e d c h l (some unavailable) = (a ≡ false) × (b ≡ true)
IsReportedFor a b e d c h l (some incomplete) = (a ≡ false) × (b ≡ false) × (e ≡ false)
IsReportedFor a b e d c h l (some finished) = (a ≡ false) × (b ≡ false) × (e ≡ true) × (d ≡ true)
IsReportedFor a b e d c h l (some verifying_data) =
    (a ≡ false) × (b ≡ false) × (e ≡ true) × (d ≡ false) × (c ≡ true)
IsReportedFor a b e d c h l (some verifying_confidence) =
    (a ≡ false) × (b ≡ false) × (e ≡ true) × (d ≡ false) × (c ≡ false) × (h ≡ true)
IsReportedFor a b e d c h l (some verifying_header) =
    (a ≡ false) × (b ≡ false) × (e ≡ true) × (d ≡ false) × (c ≡ false) × (h ≡ false) × (l ≡ true)
IsReportedFor a b e d c h l (some pending) =
    (a ≡ false) × (b ≡ false) × (e ≡ true) × (d ≡ false) × (c ≡ false) × (h ≡ false) × (l ≡ false)

status_of-IsReportedFor :
    (d c h l : Bool) → IsReportedFor false false true d c h l (some (status_of d c h l))
unfolding status_of IsReportedFor
status_of-IsReportedFor true c h l = (refl, refl, refl, refl)
status_of-IsReportedFor false true h l = (refl, refl, refl, refl, refl)
status_of-IsReportedFor false false true l = (refl, refl, refl, refl, refl, refl)
status_of-IsReportedFor false false false true = (refl, refl, refl, refl, refl, refl, refl)
status_of-IsReportedFor false false false false = (refl, refl, refl, refl, refl, refl, refl)

tests-IsReportedFor :
    (above before extension old : Bool) (d c h l d' c' h' l' : Bool)
    → IsReportedFor above before extension
        (if old then d else d')
        (if old then c else c')
        (if old then h else h')
        (if old then l else l')
        (if above
          then none
          else if before
          then some unavailable
          else if extension
          then (if old then some (status_of d c h l) else some (status_of d' c' h' l'))
          else some incomplete)
unfolding IsReportedFor
tests-IsReportedFor true before extension old d c h l d' c' h' l' = refl
tests-IsReportedFor false true extension old d c h l d' c' h' l' = (refl, refl)
tests-IsReportedFor false false false old d c h l d' c' h' l' = (refl, refl, refl)
tests-IsReportedFor false false true true d c h l d' c' h' l' = status_of-IsReportedFor d c h l
tests-IsReportedFor false false true false d c h l d' c' h' l' = status_of-IsReportedFor d' c' h' l'

-- What is achieved of a block is read in the ranges of the sync for a block before the first one that
-- was seen, and in the others for any other.
pub IsReported : Option ℕ → State → ℕ → Bool → Option BlockStatus → Type 0
IsReported start s n has_extension =
    let first = unwrap_or s.latest (first_block s.header_verified) in
    let old = ltb n first in
    IsReportedFor (ltb s.latest n) (ltb n (unwrap_or first start)) has_extension
      (if old then contains n s.sync_data_verified else contains n s.data_verified)
      (if old then contains n s.sync_confidence_achieved else contains n s.confidence_achieved)
      (if old then contains n s.sync_header_verified else contains n s.header_verified)
      (if old then is_sync_latest n s.sync_latest else s.latest == n)

-- A block above the latest one has no status. Any other is unavailable if it is before the start of
-- the sync, or, where none is configured, before the first block whose header was verified (the
-- latest block, if there is none), and otherwise incomplete if it has no extension. Of a block with an
-- extension the report is the most that is achieved: that its data are verified (finished), or else
-- its confidence (verifying_data), or else its header (verifying_confidence), or else that it is the
-- latest block (verifying_header), or else nothing (pending), read in the ranges of the sync for a
-- block before that first one, and in those of the new blocks for any other. And while the ranges only
-- grow and that first block stays the same, no later report of a block is of less.
pub block_status-le :
    (start : Option ℕ) (s s' : State) (n : ℕ) (has_extension : Bool)
    → IsLater n s s'
    → IsReported start s n has_extension (block_status start s n has_extension)
      × (rank_of (block_status start s n has_extension)
          ≤ rank_of (block_status start s' n has_extension))
unfolding IsReported block_status reported sync_status head_status
block_status-le start s s' n has_extension later =
    let sync =
      status_of-le (contains n s.sync_data_verified) (contains n s.sync_confidence_achieved)
        (contains n s.sync_header_verified) (is_sync_latest n s.sync_latest)
        (contains n s'.sync_data_verified) (contains n s'.sync_confidence_achieved)
        (contains n s'.sync_header_verified) (is_sync_latest n s'.sync_latest) later.sync_verified
        later.sync_confidence later.sync_headers in
    let head =
      status_of-le (contains n s.data_verified) (contains n s.confidence_achieved)
        (contains n s.header_verified) (s.latest == n) (contains n s'.data_verified)
        (contains n s'.confidence_achieved) (contains n s'.header_verified) (s'.latest == n)
        later.verified later.confidence later.headers in
    let first = unwrap_or s.latest (first_block s.header_verified) in
    (
      tests-IsReportedFor (ltb s.latest n) (ltb n (unwrap_or first start)) has_extension
          (ltb n first) (contains n s.sync_data_verified) (contains n s.sync_confidence_achieved)
          (contains n s.sync_header_verified) (is_sync_latest n s.sync_latest)
          (contains n s.data_verified) (contains n s.confidence_achieved)
          (contains n s.header_verified) (s.latest == n),
      subst
          (λ first.
            rank_of (block_status start s n has_extension)
            ≤ rank_of (
                reported start s'.latest first n has_extension (sync_status s' n)
                  (head_status s' n)))
          later.first
          (reported-le start s.latest s'.latest _ n has_extension _ _ _ _ later.latest sync head),
    )
