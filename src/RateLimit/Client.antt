-- ===== src/RateLimit/Client.antt =====
-- Who a request counts for: `TrustedProxyClientIpResolver` and `_identity`. Addresses are parsed by
-- Python's `ipaddress`, whose results stand here, and the trusted networks are a test on addresses.
use flipradar.Base.{ℕ, Bool, Option, none, some, List, [], ◌∷◌, ◌++◌, if◌then◌else◌}

pub data RateLimitScope : Type 0 where
  client credential global : RateLimitScope

-- A parsed address, by a number.
abbrev pub Address : Type 0
Address = ℕ

pub data Resolved : Type 0 where
  unknown : Resolved
  address : Address → Resolved

-- What `X-Forwarded-For` holds: no header or an empty one, or the entries between its commas, each
-- with the address that it parses to. An empty entry parses to none.
pub data Forwarded : Type 0 where
  missing : Forwarded
  entries : List (Option Address) → Forwarded

unfoldable pub parse_entries : List (Option Address) → Option (List Address)
parse_entries [] = some []
parse_entries (none ∷ parts) = none
parse_entries (some a ∷ parts) = elim (parse_entries parts) [
  | none ↦ none
  | some addresses ↦ some (a ∷ addresses)
]

-- `_parse_forwarded_for`: one entry that does not parse drops the whole header.
unfoldable pub parse_forwarded_for : List (Option Address) → Option (List Address)
unfolding parse_entries
parse_forwarded_for [] = none
parse_forwarded_for (part ∷ parts) = parse_entries (part ∷ parts)

abbrev pub reverse : List Address → List Address
reverse [] = []
reverse (a ∷ xs) = reverse xs ++ (a ∷ [])

module _ (is_trusted : Address → Bool) where
  -- The first address that is not trusted, or else the direct peer.
  unfoldable pub first_untrusted : Address → List Address → Address
  first_untrusted direct_peer [] = direct_peer
  first_untrusted direct_peer (a ∷ rest) =
      let found = first_untrusted direct_peer rest in if is_trusted a then found else a

  -- `resolve`, by the peer of the socket and the header.
  unfoldable pub resolve : Option Address → Forwarded → Resolved
  unfolding first_untrusted parse_forwarded_for
  resolve none forwarded = unknown
  resolve (some direct_peer) missing = address direct_peer
  resolve (some direct_peer) (entries parts) =
      if is_trusted direct_peer
      then elim (parse_forwarded_for parts) [
        | none ↦ address direct_peer
        | some forwarded ↦
            address (first_untrusted direct_peer (reverse (forwarded ++ (direct_peer ∷ []))))
      ]
      else address direct_peer

pub data Identity : Type 0 where
  everyone : Identity
  bearer : ℕ → Identity
  at_address : Resolved → Identity

-- `_identity`. The token is what follows "Bearer " in the header, if there is such a header and
-- something follows; `sha256` is the digest of it.
unfoldable pub identity : (ℕ → ℕ) → RateLimitScope → Option ℕ → Resolved → Identity
identity sha256 global token peer = everyone
identity sha256 credential (some token) peer = bearer (sha256 token)
identity sha256 credential none peer = at_address peer
identity sha256 client token peer = at_address peer
