-- ===== src/RateLimit/ClientIp.antt =====
-- src/rate-limit/client-ip.ts: the address that a request came from, behind one proxy.
use Prim.Native.String
use nivara_api_nestjs.Shared.{
  [], str_eq, if◌then◌else◌, last?, none, not, trim, some, split_on, ◌∷◌, List, Option, String,
  filter_by, strip_prefix,
}
use Prim.Native.String.{◌∷◌, String}

pub record IncomingMessage : Type 0 where
  pub forwarded_for : Option (List String)
  pub remote_address : Option String

-- `forwarded.join(',')`; a header that came once is a list of one.
unfoldable pub join_commas : List String → String
join_commas [] = ""
join_commas (x ∷ []) = x
join_commas (x ∷ y ∷ ys) = String.◌++◌ x (String.◌++◌ "," (join_commas (y ∷ ys)))

unfoldable pub trim_all : List String → List String
trim_all [] = []
trim_all (x ∷ xs) = trim x ∷ trim_all xs

-- The entries of the header, the empty ones left out.
unfoldable pub chain_of : List String → List String
unfolding trim_all filter_by split_on join_commas
chain_of headers =
    filter_by (λ entry. not (str_eq entry "")) (trim_all (split_on b',' (join_commas headers)))

forwarded_hop : Option (List String) → Option String
unfolding chain_of
forwarded_hop none = none
forwarded_hop (some headers) = last? (chain_of headers)

-- `forwardedHop ?? remoteAddress`
abbrev or_remote : Option String → Option String → Option String
or_remote none remote = remote
or_remote (some hop) remote = some hop

or_self : String → Option String → String
or_self s none = s
or_self s (some rest) = rest

normalise : String → String
unfolding or_self strip_prefix
normalise address = or_self address (strip_prefix "::ffff:" address)

known : Option String → String
unfolding normalise
known none = "unknown"
known (some address) = if str_eq address "" then "unknown" else normalise address

unfoldable pub client_ip : IncomingMessage → String
unfolding forwarded_hop known
client_ip request = known (or_remote (forwarded_hop request.forwarded_for) request.remote_address)
