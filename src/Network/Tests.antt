-- ===== src/Network/Tests.antt =====
-- Four positions: the DHT has a good cell and a bad one, and the node has two of the others, in
-- good order.
use smallgod.Prelude.{◌≡◌, refl, false, some, [], ◌∷◌, ℕ_discrete, ok}
use smallgod.Network.{Fetched, fetch_verified, methods}
use smallgod.Network.Sample.{kate, net, requested, requested-IsDistinct}
use smallgod.Network.Fetch.{IsFetched, fetch_verified-IsFetched}

program : Unit {0}
unfolding methods ℕ_discrete
program = tt

abbrev out : Fetched kate
out = record {
  fetched =
      record { position = 3; content = 103 }
      ∷ record { position = 5; content = 105 }
      ∷ record { position = 12; content = 212 }
      ∷ [];
  unfetched = [];
  dht_fetched = 1;
  rpc_fetched = some 2;
  inserted = record { position = 5; content = 105 } ∷ record { position = 12; content = 212 } ∷ [];
}

runs : fetch_verified kate net false tt (100 ∷ 200 ∷ []) requested ≡ ok out
unfolding program
runs = refl

fetch_verified-IsFetched_example :
    IsFetched kate net tt (100 ∷ 200 ∷ []) requested out.fetched out.unfetched
fetch_verified-IsFetched_example =
    fetch_verified-IsFetched kate net tt (100 ∷ 200 ∷ []) false requested out
      (record { same = λ rs r m. m; once = λ rs d. d }) requested-IsDistinct runs
