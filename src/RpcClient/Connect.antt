-- ===== src/RpcClient/Connect.antt =====
-- What a connection has passed: the nodes, the genesis hash, and the versions.
use mathlib.Core.List.{Memᴰ}
use smallgod.Prelude.{
  ◌≡◌, refl, sym, true, Option, none, some, List, [], ◌∷◌, Result, ok, err, panic, Bool-cases, ◌⊎◌,
  inl, inr, arith, subst,
}
use smallgod.Prelude.Text.{Bytes, starts_with}
use smallgod.RpcClient.{
  Hash, Node, RpcError, Rpc, matches, bytes_discrete, and_then, configured_hash, check_against,
  check_version, check_client, create_subxt_client, skip_error, execute_on, try_connect_and_execute,
  Action,
}

module _ (rpc : Rpc) where
  -- The genesis hash is the configured one; a configured text that is no hash has the flag `DEV`.
  IsAllowedBy : Bytes → Hash → Option Hash → Type 0
  IsAllowedBy configured found (some hash) = found ≡ hash
  IsAllowedBy configured found none = starts_with (b'D' ∷ b'E' ∷ b'V' ∷ []) configured ≡ true

  abbrev IsAllowed : Bytes → Hash → Type 0
  IsAllowed configured found = IsAllowedBy configured found (configured_hash rpc configured)

  -- The connection is one to the node's host, its genesis hash is allowed, and what is kept of the
  -- node is what it answered.
  pub record IsServing (expected : List Bytes) (configured : Bytes) (c : rpc.Connection)
      (node : Node) : Type 0 where
    pub connected : (w : rpc.World) × ((rpc.new_insecure node.host w).0 ≡ some c)
    same_genesis : node.genesis_hash ≡ rpc.genesis_hash c
    same_spec : node.spec_version ≡ rpc.spec_version c
    allowed : IsAllowed configured node.genesis_hash
    pub version : (w : rpc.World) × ((rpc.system_version c w).0 ≡ some node.system_version)
    expected_version : matches expected node.system_version ≡ true

  module _ {A B : Type 0} where
    and_then-ok :
        (r : Result RpcError A) (w : rpc.World) (next : A → Action rpc B) {b : B}
        → (and_then rpc (r, w) next).0 ≡ ok b
        → (a : A) × (r ≡ ok a) × ((next a w).0 ≡ ok b)
    unfolding and_then
    and_then-ok panic w next e = cc
    and_then-ok (err why) w next e = cc
    and_then-ok (ok a) w next e = (a, refl, e)

  skip_error-ok :
      {A : Type 0} (r : Result RpcError A) (w : rpc.World) (next : Action rpc A) {a : A}
      → (skip_error rpc (r, w) next).0 ≡ ok a
      → (r ≡ ok a) ⊎ ((next w).0 ≡ ok a)
  unfolding skip_error
  skip_error-ok panic w next e = cc
  skip_error-ok (err why) w next e = inr e
  skip_error-ok (ok x) w next e = inl e

  check_against-IsAllowedBy :
      (host configured : Bytes) (found : Hash) (hash : Option Hash) {u : Unit {0}}
      → check_against rpc host configured found hash ≡ ok u
      → IsAllowedBy configured found hash
  unfolding check_against IsAllowedBy
  check_against-IsAllowedBy host configured found (some hash) e = elim (bytes_discrete found hash) [
    | yes same ↦ same
    | no other ↦ absurd (ground arith)
  ]
  check_against-IsAllowedBy host configured found none e =
      elim (Bool-cases (starts_with (b'D' ∷ b'E' ∷ b'V' ∷ []) configured)) [
        | inl flagged ↦ flagged
        | inr not_flagged ↦ absurd (ground arith)
      ]

  check_version-ok :
      (host : Bytes) (expected : List Bytes) (client : rpc.Connection) (v : Option Bytes)
      {made : rpc.Connection × Node}
      → check_version rpc host expected client v ≡ ok made
      → (version : Bytes) × (v ≡ some version)
        × (matches expected version ≡ true)
        × (made ≡ (
          client,
          record {
            host = host;
            system_version = version;
            spec_version = rpc.spec_version client;
            genesis_hash = rpc.genesis_hash client;
          },
        ))
  unfolding check_version
  check_version-ok host expected client none e = cc
  check_version-ok host expected client (some version) e =
      elim (Bool-cases (matches expected version)) [
        | inl good ↦ (version, refl, good, ground arith)
        | inr bad ↦ absurd (ground arith)
      ]

  check_client-ok :
      (host : Bytes) (expected : List Bytes) (configured : Bytes) (found : Option rpc.Connection)
      (w : rpc.World) {made : rpc.Connection × Node}
      → (check_client rpc host expected configured found w).0 ≡ ok made
      → (client : rpc.Connection) × (found ≡ some client)
        × IsAllowed configured (rpc.genesis_hash client)
        × (w1 : rpc.World) × (check_version rpc host expected client
              (rpc.system_version client w1).0
            ≡ ok made)
  unfolding check_client
  check_client-ok host expected configured none w e = cc
  check_client-ok host expected configured (some client) w e =
      let (u, allowed, rest) =
        and_then-ok
          (check_against rpc host configured (rpc.genesis_hash client)
            (configured_hash rpc configured))
          w _ e in
      (client, refl, check_against-IsAllowedBy host configured _ _ allowed, w, rest)

  -- A connection that `create_subxt_client` makes serves its node.
  create_subxt_client-IsServing :
      (host : Bytes) (expected : List Bytes) (configured : Bytes) (w : rpc.World)
      {made : rpc.Connection × Node}
      → (create_subxt_client rpc host expected configured w).0 ≡ ok made
      → IsServing expected configured made.0 made.1 × (made.1.host ≡ host)
  unfolding create_subxt_client
  create_subxt_client-IsServing host expected configured w {made} e =
      let (client, opened, allowed, w1, checked) =
        check_client-ok host expected configured (rpc.new_insecure host w).0
          (rpc.new_insecure host w).1 e in
      let (version, answered, good, shape) = check_version-ok host expected client _ checked in
      subst (λ m. IsServing expected configured m.0 m.1 × (m.1.host ≡ host)) (sym shape)
        (
          record {
            connected = (w, opened);
            same_genesis = refl;
            same_spec = refl;
            allowed = allowed;
            version = (w1, answered);
            expected_version = good;
          },
          refl,
        )

  module _ {A : Type 0} (expected : List Bytes) (configured : Bytes)
      (f : rpc.Connection → Action rpc A) where
    -- What an execution on a node returns is a run of the function on the connection to the node.
    abbrev IsRun : List Node → rpc.Connection × Node × A → Type 0
    IsRun nodes made =
        IsServing expected configured made.0 made.1
        × ((n : Node) × Memᴰ n nodes × (made.1.host ≡ n.host))
        × (w : rpc.World) × ((f made.0 w).0 ≡ ok made.2)

    execute_on-IsRun :
        (n : Node) (nodes : List Node) (w : rpc.World) {made : rpc.Connection × Node × A}
        → (execute_on rpc expected configured f n.host w).0 ≡ ok made
        → IsRun (n ∷ nodes) made
    unfolding execute_on
    execute_on-IsRun n nodes w {made} e =
        let start = create_subxt_client rpc n.host expected configured w in
        let (found, opened, rest) = and_then-ok start.0 start.1 _ e in
        let (serving, same) = create_subxt_client-IsServing n.host expected configured w opened in
        let run = f found.0 start.1 in
        let (a, ran, last) = and_then-ok run.0 run.1 _ rest in
        let shape : (found.0, found.1, a) ≡ made = cc in
        subst (IsRun (n ∷ nodes)) shape (serving, (n, Memᴰ.head refl, same), start.1, ran)

    IsRun-weaken :
        (n : Node) (nodes : List Node) (made : rpc.Connection × Node × A)
        → IsRun nodes made
        → IsRun (n ∷ nodes) made
    IsRun-weaken n nodes made (serving, (m, found, same), w, run) =
        (serving, (m, Memᴰ.tail found, same), w, run)

    pub try_connect_and_execute-IsRun :
        (nodes : List Node) (w : rpc.World) {made : rpc.Connection × Node × A}
        → (try_connect_and_execute rpc expected configured f nodes w).0 ≡ ok made
        → IsRun nodes made
    unfolding try_connect_and_execute
    try_connect_and_execute-IsRun [] w e = cc
    try_connect_and_execute-IsRun (n ∷ nodes) w {made} e =
        elim (skip_error-ok (execute_on rpc expected configured f n.host w).0 _ _ e) [
          | inl first ↦ execute_on-IsRun n nodes w first
          | inr later ↦ IsRun-weaken n nodes made (
              try_connect_and_execute-IsRun nodes (execute_on rpc expected configured f n.host w).1
                later)
        ]
