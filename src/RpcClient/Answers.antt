-- ===== src/RpcClient/Answers.antt =====
-- A header by its number is one that connected nodes answered.
use smallgod.Prelude.{ℕ, ◌≡◌, refl, ap, ◌∙◌, subst, some, Result, ok, err, panic, ok_or-eq-ok}
use smallgod.RpcClient.{Ended, Node, Hash, RpcError, Rpc, Action}
use smallgod.RpcClient.Retry.{Client, Outcome, with_retries}
use smallgod.RpcClient.Retries.{
  IsLibrary, IsConnected, IsAnswered, stayed, switched, failed_with, panicked,
  with_retries-IsAnswered, with_retries-IsConnected,
}
use smallgod.RpcClient.Calls.{
  Requests, then_call, then_pure, then_answer, get_block_hash, get_header_by_hash,
  get_header_by_block_number,
}
use smallgod.RpcClient.Served.{hash-IsConnected}

module _ (rpc : Rpc) (library : IsLibrary rpc) (q : Requests rpc) where
  -- A result of a call is what the function returned on the connection that the client has behind it.
  IsAnswered-ok :
      {A : Type 0} (f : rpc.Connection → Action rpc A) (s s' : Client rpc) (r : Result RpcError A)
      {a : A} {here : Ended A} {other : Ended (rpc.Connection × Node × A)}
      → IsAnswered rpc f s here other r s'
      → r ≡ ok a
      → (w : rpc.World) × ((f s'.subxt_client w).0 ≡ ok a)
  IsAnswered-ok f s s' r (stayed w ran) e = (w, ran ∙ e)
  IsAnswered-ok f s s' r (switched w h elsewhere ran) e = (w, ran ∙ e)
  IsAnswered-ok f s s' r (failed_with why here_failed others_failed) e = cc
  IsAnswered-ok f s s' r (panicked here_failed others_failed) e = cc

  -- A value was answered by a connection that has passed the checks.
  abbrev pub IsServed : {A : Type 0} → (rpc.Connection → Action rpc A) → A → Type 0
  IsServed f a =
      (s : Client rpc) × IsConnected rpc s × (w : rpc.World) × ((f s.subxt_client w).0 ≡ ok a)

  with_retries-IsServed :
      {A : Type 0} (f : rpc.Connection → Action rpc A) (s : Client rpc) (w : rpc.World) {a : A}
      → IsConnected rpc s
      → (with_retries rpc s f w).0 ≡ ok a
      → IsServed f a
  with_retries-IsServed f s w h e =
      let (w1, ran) = IsAnswered-ok f s _ _ (with_retries-IsAnswered rpc library f s w) e in
      ((with_retries rpc s f w).1, with_retries-IsConnected rpc library f s w h, w1, ran)

  then_call-ok :
      {A B : Type 0} (out : Outcome rpc A) (next : A → Client rpc → rpc.World → Outcome rpc B)
      {b : B}
      → (then_call rpc out next).0 ≡ ok b
      → (a : A) × (out.0 ≡ ok a) × ((next a out.1 out.2).0 ≡ ok b)
  unfolding then_call
  then_call-ok (panic, s, w) next e = cc
  then_call-ok (err why, s, w) next e = cc
  then_call-ok (ok a, s, w) next e = (a, refl, e)

  then_pure-ok :
      {A B : Type 0} (out : Outcome rpc A) (next : A → Result RpcError B) {b : B}
      → (then_pure rpc out next).0 ≡ ok b
      → (a : A) × (out.0 ≡ ok a) × (next a ≡ ok b)
  unfolding then_pure
  then_pure-ok (panic, s, w) next e = cc
  then_pure-ok (err why, s, w) next e = cc
  then_pure-ok (ok a, s, w) next e = (a, refl, e)

  then_answer-ok :
      {A B : Type 0} (r : Result RpcError A × rpc.World) (next : A → Result RpcError B) {b : B}
      → (then_answer rpc r next).0 ≡ ok b
      → (a : A) × (r.0 ≡ ok a) × (next a ≡ ok b)
  unfolding then_answer
  then_answer-ok (panic, w) next e = cc
  then_answer-ok (err why, w) next e = cc
  then_answer-ok (ok a, w) next e = (a, refl, e)

  get_block_hash-IsServed :
      (n : ℕ) (s : Client rpc) (w : rpc.World) {hash : Hash}
      → IsConnected rpc s
      → (get_block_hash rpc q n s w).0 ≡ ok hash
      → IsServed (λ c. q.chain_get_block_hash c n) (some hash)
  unfolding get_block_hash
  get_block_hash-IsServed n s w h e =
      let f = λ (c : rpc.Connection). q.chain_get_block_hash c n in
      let (found, answered, some_hash) = then_pure-ok (with_retries rpc s f w) _ e in
      with_retries-IsServed f s w h (answered ∙ ap ok (ok_or-eq-ok _ found some_hash))

  get_header_by_hash-IsServed :
      (hash : Hash) (s : Client rpc) (w : rpc.World) {header : q.Header}
      → IsConnected rpc s
      → (get_header_by_hash rpc q hash s w).0 ≡ ok header
      → IsServed (λ c. q.block_header c hash) (some header)
  unfolding get_header_by_hash
  get_header_by_hash-IsServed hash s w h e =
      let (s1, h1, w1, ran) = with_retries-IsServed _ s w h e in
      let (found, answered, some_header) =
        then_answer-ok (q.block_header s1.subxt_client hash w1) _ ran in
      (s1, h1, w1, answered ∙ ap ok (ok_or-eq-ok _ found some_header))

  -- A header that is returned for a block number was answered for the hash that is returned with it,
  -- and the hash for the number, each by a node that the client was connected to at the time.
  pub get_header_by_block_number-IsServed :
      (n : ℕ) (s : Client rpc) (w : rpc.World) {header : q.Header} {hash : Hash}
      → IsConnected rpc s
      → (get_header_by_block_number rpc q n s w).0 ≡ ok (header, hash)
      → IsServed (λ c. q.chain_get_block_hash c n) (some hash)
        × IsServed (λ c. q.block_header c hash) (some header)
  unfolding get_header_by_block_number
  get_header_by_block_number-IsServed n s w {header} {hash} h e =
      let first = get_block_hash rpc q n s w in
      let (hash0, hashed, rest) = then_call-ok first _ e in
      let (header0, found, shape) =
        then_pure-ok (get_header_by_hash rpc q hash0 first.1 first.2) _ rest in
      let same_hash : hash0 ≡ hash = cc in
      let same_header : header0 ≡ header = cc in
      (
        get_block_hash-IsServed n s w h (hashed ∙ ap ok same_hash),
        get_header_by_hash-IsServed hash first.1 first.2 (hash-IsConnected rpc library q s w h n) (
            subst (λ x. (get_header_by_hash rpc q x first.1 first.2).0 ≡ ok header) same_hash
              (found ∙ ap ok same_header)),
      )
