-- ===== src/Network/Clients.antt =====
-- Which clients the callers of `GetHTTPClient` share.
use juju_utils.Common.{◌≡◌, refl, Bool, true, false, some, List, [], ◌∷◌, map, ap}
use juju_utils.Network.{Client, made, default_client, Insecure, no_client, get_http_client}

-- The clients that the calls return.
abbrev pub get_all : List Bool → Insecure → List Client
get_all [] s = []
get_all (verify ∷ vs) s = let (c, t) = get_http_client verify s in c ∷ get_all vs t

-- The client of every call with `NoVerifySSLHostnames`.
abbrev pub insecure_client : Client
insecure_client = made 0 (record { insecure_skip_verify = true; disable_keep_alives = true })

abbrev pub expected : Bool → Client
expected true = default_client
expected false = insecure_client

get_all_later :
    (vs : List Bool)
    → get_all vs (record { client = some insecure_client; count = 1 }) ≡ map expected vs
unfolding get_http_client
get_all_later [] = refl
get_all_later (true ∷ vs) = ap (λ (cs : List Client). default_client ∷ cs) (get_all_later vs)
get_all_later (false ∷ vs) = ap (λ (cs : List Client). insecure_client ∷ cs) (get_all_later vs)

-- Whatever calls are made, those that ask for verification get the default client of net/http, and all others
-- get one and the same client, which does not verify and closes its connections.
pub get_http_client_shared : (vs : List Bool) → get_all vs no_client ≡ map expected vs
unfolding get_http_client
get_http_client_shared [] = refl
get_http_client_shared (true ∷ vs) =
    ap (λ (cs : List Client). default_client ∷ cs) (get_http_client_shared vs)
get_http_client_shared (false ∷ vs) =
    ap (λ (cs : List Client). insecure_client ∷ cs) (get_all_later vs)
