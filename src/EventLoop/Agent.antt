-- ===== src/EventLoop/Agent.antt =====
-- `AgentVersion` of src/types.rs, which a peer sends when it identifies itself.
use smallgod.Prelude.{Bool, true, false, ◌&&◌, Option, none, some, [], ◌∷◌, ◌==◌}
use smallgod.Prelude.Text.{Bytes, split}
use smallgod.EventLoop.{Libp2p}

pub record AgentVersion : Type 0 where
  pub base_version : Bytes
  pub release_version : Bytes
  pub client_type : Bytes
  pub kademlia_mode : Bytes

-- `<AgentVersion as FromStr>::from_str`
unfoldable pub from_str : Bytes → Option AgentVersion
unfolding split
from_str s = elim (split b'/' s) [
  | base ∷ release ∷ client ∷ mode ∷ [] ↦ some (record {
    base_version = base;
    release_version = release;
    client_type = client;
    kademlia_mode = mode;
  })
  | _ ↦ none
]

-- `MINIMUM_SUPPORTED_VERSION` is 1.9.2.
abbrev minimum_supported_version : Bytes
minimum_supported_version = b'1' ∷ b'.' ∷ b'9' ∷ b'.' ∷ b'2' ∷ []

-- `KademliaMode::Server.to_string()`
abbrev pub server : Bytes
server = b's' ∷ b'e' ∷ b'r' ∷ b'v' ∷ b'e' ∷ b'r' ∷ []

-- `==` on strings
unfoldable pub eq_bytes : Bytes → Bytes → Bool
eq_bytes [] [] = true
eq_bytes (c ∷ s) (d ∷ t) = c == d && eq_bytes s t
eq_bytes _ _ = false

module _ (n : Libp2p) where
  -- `is_supported`
  unfoldable pub is_supported : AgentVersion → Bool
  is_supported a = elim (n.parse_version a.release_version) [
    | none ↦ false
    | some release ↦ elim (n.parse_version minimum_supported_version) [
      | none ↦ false
      | some minimum ↦ n.is_at_least release minimum
    ]
  ]
