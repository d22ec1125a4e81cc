-- ===== src/Api/Fields.antt =====
-- What a transaction keeps of its fields, said apart from `filter_fields` of src/api/v2/types.rs.
use mathlib.Core.List.{Memᴰ}
use smallgod.Prelude.{
  ◌≡◌, refl, sym, subst, true, false, Option, none, some, List, [], ◌∷◌, ◌⊎◌, inl, inr, map, arith,
}
use smallgod.Prelude.Text.{Bytes}
use smallgod.Api.Messages.{
  Topic, header_verified, confidence_achieved, data_verified, is_topic, has_topic, DataField,
  data_field, extrinsic_field, is_field, has_field, DataTransaction, without_extrinsic,
  without_data, filter_fields, PublishMessage, header_message, confidence_message, data_message,
  apply_filter,
}
use smallgod.Api.Blocks.{select_fields}

-- A field that is asked for is as it was, and any other is left out.
abbrev IsKept : Type 0 → Option Bytes → Option Bytes → Type 0
IsKept Asked original kept = (Asked × (kept ≡ original)) ⊎ ((¬ Asked) × (kept ≡ none))

-- The extrinsic is there only if it is asked for; the data are left out only if the extrinsic alone is
-- asked for.
pub record IsSelected (fields : List DataField) (original kept : DataTransaction) : Type 0 where
  pub extrinsic_kept : IsKept (Memᴰ extrinsic_field fields) original.extrinsic kept.extrinsic
  pub data_kept :
      IsKept
        (Memᴰ data_field fields ⊎ (¬ Memᴰ extrinsic_field fields))
        original.app_data
        kept.app_data

-- The same transactions in the same order, each with the fields that are asked for.
pub AllSelected : List DataField → List DataTransaction → List DataTransaction → Type 0
AllSelected fields [] [] = Unit
AllSelected fields (t ∷ ts) (t' ∷ ts') = IsSelected fields t t' × AllSelected fields ts ts'
AllSelected fields _ _ = ⊥

-- Where no fields are named, the transactions are as they were.
pub SelectedBy : Option (List DataField) → List DataTransaction → List DataTransaction → Type 0
SelectedBy none all kept = kept ≡ all
SelectedBy (some fields) all kept = AllSelected fields all kept

has_field-cases :
    (f : DataField) (fields : List DataField)
    → ((has_field f fields ≡ true) × Memᴰ f fields)
      ⊎ ((has_field f fields ≡ false) × (¬ Memᴰ f fields))
unfolding has_field is_field
has_field-cases f [] = inr (refl, λ m. elim m [ ])
has_field-cases data_field (data_field ∷ fields) = inl (refl, Memᴰ.head refl)
has_field-cases extrinsic_field (extrinsic_field ∷ fields) = inl (refl, Memᴰ.head refl)
has_field-cases data_field (extrinsic_field ∷ fields) = elim (has_field-cases data_field fields) [
  | inl (e, m) ↦ inl (e, Memᴰ.tail m)
  | inr (e, other) ↦ inr (e, λ m. elim m [ Memᴰ.head h ↦ absurd cc | Memᴰ.tail t ↦ other t ])
]
has_field-cases extrinsic_field (data_field ∷ fields) =
    elim (has_field-cases extrinsic_field fields) [
      | inl (e, m) ↦ inl (e, Memᴰ.tail m)
      | inr (e, other) ↦ inr (e, λ m. elim m [ Memᴰ.head h ↦ absurd cc | Memᴰ.tail t ↦ other t ])
    ]

-- A change of every transaction that keeps the right fields.
map-AllSelected :
    (fields : List DataField) (f : DataTransaction → DataTransaction)
    → ((t : DataTransaction) → IsSelected fields t (f t))
    → (ts : List DataTransaction) → AllSelected fields ts (map f ts)
unfolding AllSelected
map-AllSelected fields f each [] = tt
map-AllSelected fields f each (t ∷ ts) = (each t, map-AllSelected fields f each ts)

same-AllSelected :
    (fields : List DataField)
    → ((t : DataTransaction) → IsSelected fields t t)
    → (ts : List DataTransaction) → AllSelected fields ts ts
unfolding AllSelected
same-AllSelected fields each [] = tt
same-AllSelected fields each (t ∷ ts) = (each t, same-AllSelected fields each ts)

pub filter_fields-AllSelected :
    (fields : List DataField) (ts : List DataTransaction)
    → AllSelected fields ts (filter_fields ts fields)
unfolding filter_fields
filter_fields-AllSelected fields ts = elim (has_field-cases extrinsic_field fields) [
  | inr (no_extrinsic, unasked) ↦
      let same : filter_fields ts fields ≡ map without_extrinsic ts = ground arith in
      subst (AllSelected fields ts) (sym same) (
        map-AllSelected fields without_extrinsic
          (λ t. record {
            extrinsic_kept = inr (unasked, refl);
            data_kept = inl (inr unasked, refl);
          })
          ts)
  | inl (extrinsic, asked) ↦ elim (has_field-cases data_field fields) [
    | inl (data_too, asked') ↦
        let same : filter_fields ts fields ≡ ts = ground arith in
        subst (AllSelected fields ts) (sym same) (
          same-AllSelected fields
            (λ t. record { extrinsic_kept = inl (asked, refl); data_kept = inl (inl asked', refl) })
            ts)
    | inr (no_data, unasked) ↦
        let same : filter_fields ts fields ≡ map without_data ts = ground arith in
        subst (AllSelected fields ts) (sym same) (
          map-AllSelected fields without_data
            (λ t. record {
              extrinsic_kept = inl (asked, refl);
              data_kept = inr (
                λ either. elim either [ inl m ↦ unasked m | inr none_asked ↦ none_asked asked ],
                refl,
              );
            })
            ts)
  ]
]

pub select_fields-SelectedBy :
    (fields : Option (List DataField)) (ts : List DataTransaction)
    → SelectedBy fields ts (select_fields fields ts)
unfolding select_fields SelectedBy
select_fields-SelectedBy none ts = refl
select_fields-SelectedBy (some fields) ts = filter_fields-AllSelected fields ts

pub has_topic-Mem :
    (topic : Topic) (topics : List Topic) → has_topic topic topics ≡ true → Memᴰ topic topics
unfolding has_topic is_topic
has_topic-Mem topic [] e = absurd cc
has_topic-Mem header_verified (header_verified ∷ ts) e = Memᴰ.head refl
has_topic-Mem header_verified (confidence_achieved ∷ ts) e =
    Memᴰ.tail (has_topic-Mem header_verified ts e)
has_topic-Mem header_verified (data_verified ∷ ts) e =
    Memᴰ.tail (has_topic-Mem header_verified ts e)
has_topic-Mem confidence_achieved (confidence_achieved ∷ ts) e = Memᴰ.head refl
has_topic-Mem confidence_achieved (header_verified ∷ ts) e =
    Memᴰ.tail (has_topic-Mem confidence_achieved ts e)
has_topic-Mem confidence_achieved (data_verified ∷ ts) e =
    Memᴰ.tail (has_topic-Mem confidence_achieved ts e)
has_topic-Mem data_verified (data_verified ∷ ts) e = Memᴰ.head refl
has_topic-Mem data_verified (header_verified ∷ ts) e = Memᴰ.tail (has_topic-Mem data_verified ts e)
has_topic-Mem data_verified (confidence_achieved ∷ ts) e =
    Memᴰ.tail (has_topic-Mem data_verified ts e)

module _ (Header Confidence : Type 0) where
  -- Headers and confidences are sent as they are, and of data each transaction with its fields.
  pub IsFiltered :
      List DataField → PublishMessage Header Confidence → PublishMessage Header Confidence → Type 0
  IsFiltered fields (header_message n header) sent = sent ≡ header_message n header
  IsFiltered fields (confidence_message n confidence) sent = sent ≡ confidence_message n confidence
  IsFiltered fields (data_message n ts) sent =
      (ts' : List DataTransaction) × (sent ≡ data_message n ts') × AllSelected fields ts ts'

  pub apply_filter-IsFiltered :
      (fields : List DataField) (message : PublishMessage Header Confidence)
      → IsFiltered fields message (apply_filter Header Confidence message fields)
  unfolding apply_filter IsFiltered
  apply_filter-IsFiltered fields (header_message n header) = refl
  apply_filter-IsFiltered fields (confidence_message n confidence) = refl
  apply_filter-IsFiltered fields (data_message n ts) =
      (filter_fields ts fields, refl, filter_fields-AllSelected fields ts)
