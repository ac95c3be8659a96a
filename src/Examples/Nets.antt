-- ===== src/Examples/Nets.antt =====
-- Connections and clients at concrete inputs. An address is known by its text.
use juju_utils.Common.{
  if◌then◌else◌, ℕ, ◌≡◌, ◌↔◌, ◌⊎◌, refl, true, false, Option, none, some, [], ◌∷◌, ◌==◌,
}
use juju_utils.Common.Bytes.{Bytes, bytes_eq, codes}
use juju_utils.Common.Results.{Result, ok, err}
use juju_utils.Text.Cut.{cut}
use juju_utils.Network.{
  Net, dials, refuses, dial, dial_host, is_loopback_ip, no_client, get_http_client,
  get_ipv4_address, parsed_address, if_ipv4,
}
use juju_utils.Network.Allowed.{IsLocal, dial_iff}
use juju_utils.Network.Clients.{get_all, expected}

abbrev host_and_port : Option (Bytes × Bytes) → Result ℕ (Bytes × Bytes)
host_and_port none = err 1
host_and_port (some p) = ok p

abbrev net : Net
net = record {
  Ip = Bytes;
  Error = ℕ;
  split_host_port = λ s. host_and_port (cut b':' s);
  parse_ip = λ s. if s == codes "a" then none else some s;
  is_loopback = λ s. s == codes "127.0.0.1";
  parse_cidr = λ s. if s == [] then err 2 else ok s;
  to4 = λ s. if s == codes "::1" then none else some s;
  ip_string = λ s. s;
}

dial_iff_example :
    (dial net false (codes "tcp") (codes "10.0.0.1:80") ≡ dials (codes "tcp") (codes "10.0.0.1:80"))
    ↔ ((false ≡ true) ⊎ IsLocal net (net.split_host_port (codes "10.0.0.1:80")))
dial_iff_example = dial_iff net false (codes "tcp") (codes "10.0.0.1:80")

refused : dial net false (codes "tcp") (codes "10.0.0.1:80") ≡ refuses (codes "10.0.0.1:80")
unfolding dial dial_host is_loopback_ip cut
refused = refl

let_through :
    dial net false (codes "tcp") (codes "127.0.0.1:80") ≡ dials (codes "tcp") (codes "127.0.0.1:80")
unfolding dial dial_host is_loopback_ip cut
let_through = refl

six_then_four : get_ipv4_address net (codes "::1" ∷ codes "10.0.0.1" ∷ []) ≡ ok (codes "10.0.0.1")
unfolding get_ipv4_address parsed_address if_ipv4
six_then_four = refl

one_client :
    get_all (false ∷ true ∷ false ∷ []) no_client
    ≡ expected false ∷ expected true ∷ expected false ∷ []
unfolding get_http_client
one_client = refl
