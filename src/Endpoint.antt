-- ===== src/Endpoint.antt =====
-- `parseEndpoint` and the choice of the listener's address in `serve`,
-- internal/sharedhostpath/server.go.
pub mod Accepts
use csi_sharedhostpath.Base.{
  Bool, true, false, ◌||◌, Option, none, some, List, [], ◌∷◌, ◌++◌, Text, ◌==◌, text_eq,
  if◌then◌else◌,
}
use csi_sharedhostpath.Base.Strings.{codes, is_empty, to_lower, lower, has_prefix, split_n2}

-- A protocol and an address, the error "Invalid endpoint", or the index of a missing part.
pub data Endpoint : Type 0 where
  parsed : Text → Text → Endpoint
  invalid : Endpoint
  panics : Endpoint

abbrev pub has_scheme : Text → Bool
has_scheme ep =
    has_prefix (to_lower ep) (codes "unix://") || has_prefix (to_lower ep) (codes "tcp://")

-- `if s[1] != "" { return s[0], s[1], nil }`
from_parts : List Text → Endpoint
from_parts (proto ∷ addr ∷ rest) = if is_empty addr then invalid else parsed proto addr
from_parts _ = panics

unfoldable pub parse_endpoint : Text → Endpoint
unfolding lower has_prefix split_n2 from_parts
parse_endpoint ep = if has_scheme ep then from_parts (split_n2 ep (codes "://")) else invalid

-- What `serve` listens on for a parsed endpoint: a socket's path is made absolute, and the file
-- at that path is removed first, which the second part names.
unfoldable pub listen_on : Text → Text → (Text × Text) × Option Text
listen_on proto addr =
    if proto == codes "unix"
    then ((proto, b'/' ∷ addr), some (b'/' ∷ addr))
    else ((proto, addr), none)
