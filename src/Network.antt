-- ===== src/Network.antt =====
-- http.go: `dial` and the clients; network.go: `GetIPv4Address`. `Net` is what they use of the package net.
pub mod Allowed
pub mod Clients
use juju_utils.Common.{
  ℕ, suc, Bool, true, false, ◌||◌, not, Option, none, some, List, [], ◌∷◌, if◌then◌else◌, ◌==◌,
}
use juju_utils.Common.Bytes.{Bytes, bytes_eq, codes}
use juju_utils.Common.Results.{Result, ok, err}

pub record Net : Type 1 where
  pub Ip : Type 0
  pub Error : Type 0
  pub split_host_port : Bytes → Result Error (Bytes × Bytes)
  pub parse_ip : Bytes → Option Ip
  pub is_loopback : Ip → Bool
  pub parse_cidr : Bytes → Result Error Ip
  pub to4 : Ip → Option Ip
  pub ip_string : Ip → Bytes

-- What `dial` does: it refuses the address with an error, or calls `net.Dial` and returns its result.
pub data Dialled : Type 0 where
  refuses : Bytes → Dialled
  dials : Bytes → Bytes → Dialled

pub data AddressError (E : Type 0) : Type 0 where
  failed : E → AddressError E
  no_addresses_match : AddressError E

module _ (net : Net) where
  open net use {Ip, Error, split_host_port, parse_ip, is_loopback, parse_cidr, to4, ip_string}

  unfoldable pub is_loopback_ip : Option Ip → Bool
  is_loopback_ip none = false
  is_loopback_ip (some ip) = is_loopback ip

  unfoldable pub dial_host : Bytes → Bytes → Result Error (Bytes × Bytes) → Dialled
  unfolding is_loopback_ip
  dial_host network addr (err e) = dials network addr
  dial_host network addr (ok (host, port)) =
      if not (host == codes "localhost")
      then if not (is_loopback_ip (parse_ip host)) then refuses addr else dials network addr
      else dials network addr

  -- `dial`, with `OutgoingAccessAllowed`.
  unfoldable pub dial : Bool → Bytes → Bytes → Dialled
  unfolding dial_host
  dial allowed network addr =
      if not allowed then dial_host network addr (split_host_port addr) else dials network addr

  unfoldable pub if_ipv4 :
      Option Ip → Result (AddressError Error) Bytes → Result (AddressError Error) Bytes
  if_ipv4 none rest = rest
  if_ipv4 (some ip) rest = ok (ip_string ip)

  unfoldable pub parsed_address :
      Result Error Ip → Result (AddressError Error) Bytes → Result (AddressError Error) Bytes
  unfolding if_ipv4
  parsed_address (err e) rest = err (failed e)
  parsed_address (ok ip) rest = if_ipv4 (to4 ip) rest

  -- `GetIPv4Address`, over the texts of the addresses.
  unfoldable pub get_ipv4_address : List Bytes → Result (AddressError Error) Bytes
  unfolding parsed_address
  get_ipv4_address [] = err no_addresses_match
  get_ipv4_address (addr ∷ addrs) =
      let rest = get_ipv4_address addrs in parsed_address (parse_cidr addr) rest

-- A client is that of the package net/http, or the one of this number that was made here, with its transport.
pub record Transport : Type 0 where
  pub insecure_skip_verify : Bool
  pub disable_keep_alives : Bool

pub data Client : Type 0 where
  default_client : Client
  made : ℕ → Transport → Client

-- The variable `insecureClient`, and how many clients have been made.
pub record Insecure : Type 0 where
  pub client : Option Client
  pub count : ℕ

abbrev pub no_client : Insecure
no_client = record { client = none; count = 0 }

-- `NewHttpTLSTransport`, with `InsecureSkipVerify` of its config.
unfoldable pub new_http_tls_transport : Bool → Transport
new_http_tls_transport insecure = record {
  insecure_skip_verify = insecure;
  disable_keep_alives = true;
}

-- `GetNonValidatingHTTPClient`.
unfoldable pub client_or_new : Option Client → ℕ → Client × Insecure
unfolding new_http_tls_transport
client_or_new (some c) n = (c, record { client = some c; count = n })
client_or_new none n =
    let c : Client = made n (new_http_tls_transport true) in
    (c, record { client = some c; count = suc n })

unfoldable pub get_non_validating_http_client : Insecure → Client × Insecure
unfolding client_or_new
get_non_validating_http_client s = client_or_new s.client s.count

-- `GetHTTPClient`, with `true` for `VerifySSLHostnames`.
unfoldable pub get_http_client : Bool → Insecure → Client × Insecure
unfolding get_non_validating_http_client
get_http_client true s = (default_client, s)
get_http_client false s = get_non_validating_http_client s
