-- ===== src/Database/Sample.antt =====
-- A database that is a map from places to bytes.
use smallgod.Prelude.{◌≡◌, sym, ap, ◌∙◌, true, some, ℕ_discrete}
use smallgod.Prelude.Maps
use smallgod.Prelude.Text.{Bytes}
use smallgod.Database.{RocksKey, Rocks}
use smallgod.Database.Stored.{IsStore}

pub place_discrete : Discrete RocksKey
place_discrete = hlevel ℕ_discrete

abbrev pub rocks : Rocks
rocks = record {
  Db = Maps.HashMap RocksKey Bytes;
  has_column_family = λ cf. true;
  put_at = λ cf key bytes db. some (Maps.insert place_discrete (cf, key) bytes db);
  get_at = λ cf key db. some (Maps.get place_discrete (cf, key) db);
  delete_at = λ cf key db. some (Maps.remove place_discrete (cf, key) db);
}

pub store : IsStore rocks
store = record {
  put_same = λ p bytes db {db'} e.
      let made : Maps.insert place_discrete p bytes db ≡ db' = cc in
      ap some (
        ap (Maps.get place_discrete p) (sym made) ∙ Maps.get-insert_self place_discrete p bytes db);
  put_other = λ p q bytes db {db'} e apart.
      let made : Maps.insert place_discrete p bytes db ≡ db' = cc in
      ap some (
        ap (Maps.get place_discrete q) (sym made)
        ∙ Maps.get-insert_ne place_discrete p q bytes db apart);
  delete_same = λ p db {db'} e.
      let made : Maps.remove place_discrete p db ≡ db' = cc in
      ap some
        (ap (Maps.get place_discrete p) (sym made) ∙ Maps.get-remove_self place_discrete p db);
  delete_other = λ p q db {db'} e apart.
      let made : Maps.remove place_discrete p db ≡ db' = cc in
      ap some (
        ap (Maps.get place_discrete q) (sym made) ∙ Maps.get-remove_ne place_discrete p q db apart);
}
