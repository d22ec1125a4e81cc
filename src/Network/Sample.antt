-- ===== src/Network/Sample.antt =====
-- A concrete network, at which the theorems are applied: the DHT has a good cell and a bad one of
-- the positions that are requested, and the node has all good ones.
use mathlib.Core.List.Memᴰ
use smallgod.Prelude.{
  ℕ, ◌+◌, some, none, List, [], ◌∷◌, map, ◌==◌, ltb, if◌then◌else◌, ℕ_discrete, arith,
}
use smallgod.Network.{Kate, Network}
use smallgod.Network.Distinct.{IsDistinct}

-- A position is ten times its row, plus its column; the content is right if it is the sum of the
-- commitment and the position.
abbrev pub kate : Kate
kate = record {
  Position = ℕ;
  Position_discrete = ℕ_discrete;
  row = λ p. if ltb p 10 then 0 else 1;
  Content = ℕ;
  Commitment = ℕ;
  Dimensions = Unit;
  verify_proof = λ d commitment p content. some (content == commitment + p);
  Value = ℕ;
  to_content = λ v. some v;
  Proof = ℕ;
  concat_content = λ proof. some proof;
}

abbrev pub net : Network kate
net = record {
  get_kad_record = λ p. if p == 3 then some 103 else if p == 12 then some 7 else none;
  query_proof = λ ps. some (map (λ p. if ltb p 10 then 100 + p else 200 + p) ps);
  completed = λ rs. rs;
}

abbrev pub requested : List ℕ
requested = 3 ∷ 12 ∷ 5 ∷ []

pub requested-IsDistinct : IsDistinct requested
requested-IsDistinct = (
  λ m. elim m [
    | Memᴰ.head e ↦ absurd (omega arith)
    | Memᴰ.tail n ↦ elim n [ Memᴰ.head e ↦ absurd (omega arith) | Memᴰ.tail o ↦ elim o [ ] ]
  ],
  (
    λ m. elim m [ Memᴰ.head e ↦ absurd (omega arith) | Memᴰ.tail n ↦ elim n [ ] ],
    (λ m. elim m [ ], tt),
  ),
)
