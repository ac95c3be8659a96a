-- ===== src/Proxy.antt =====
-- proxy/proxy.go: proxy settings and the environment, which is a function: `os.Getenv` of a variable
-- that is not set is the empty string.
use juju_utils.Common.{◌≡◌, ◌-◌, arith, ◌&&◌, List, [], ◌∷◌, ◌++◌, if◌then◌else◌, leb, ◌==◌}
use juju_utils.Common.Bytes.{Bytes, bytes_eq, bytes_beq_iff, codes}

abbrev pub Environment : Type 0
Environment = Bytes → Bytes

-- `Settings`.
pub record Settings : Type 0 where
  pub http : Bytes
  pub https : Bytes
  pub ftp : Bytes
  pub no_proxy : Bytes

-- `strings.ToUpper`, of the ASCII names that it is called on.
abbrev to_upper : Bytes → Bytes
to_upper [] = []
to_upper (c ∷ s) = (if leb b'a' c && leb c b'z' then c - 32 else c) ∷ to_upper s

abbrev setenv : Bytes → Bytes → Environment → Environment
setenv key value env k = if key == k then value else env k

-- `getSetting`.
unfoldable pub get_setting : Environment → Bytes → Bytes
get_setting env key = let value = env key in if value == [] then env (to_upper key) else value

-- `DetectProxies`.
unfoldable pub detect_proxies : Environment → Settings
unfolding get_setting
detect_proxies env = record {
  http = get_setting env (codes "http_proxy");
  https = get_setting env (codes "https_proxy");
  ftp = get_setting env (codes "ftp_proxy");
  no_proxy = get_setting env (codes "no_proxy");
}

-- `setenv` in `SetEnvironmentValues`.
abbrev set_both : Bytes → Bytes → Environment → Environment
set_both proxy value env = setenv (to_upper proxy) value (setenv proxy value env)

-- `SetEnvironmentValues`.
unfoldable pub set_environment_values : Settings → Environment → Environment
set_environment_values s env = set_both (codes "no_proxy") s.no_proxy (
    set_both (codes "ftp_proxy") s.ftp
      (set_both (codes "https_proxy") s.https (set_both (codes "http_proxy") s.http env)))

-- `addLine` in `AsEnvironmentValues`, and in `AsScriptEnvironment` with a prefix.
abbrev add_line : Bytes → Bytes → Bytes → List Bytes → List Bytes
add_line before proxy value lines =
    if value == []
    then lines
    else lines
      ++ (before ++ (proxy ++ b'=' ∷ value)) ∷ ((before ++ (to_upper proxy ++ b'=' ∷ value)) ∷ [])

abbrev add_lines : Bytes → Settings → List Bytes
add_lines before s = add_line before (codes "no_proxy") s.no_proxy (
    add_line before (codes "ftp_proxy") s.ftp (
      add_line before (codes "https_proxy") s.https
        (add_line before (codes "http_proxy") s.http [])))

-- `AsEnvironmentValues`.
unfoldable pub as_environment_values : Settings → List Bytes
as_environment_values s = add_lines [] s

-- `strings.Join(lines, "\n")`.
abbrev join_lines : List Bytes → Bytes
join_lines [] = []
join_lines (line ∷ []) = line
join_lines (line ∷ next ∷ rest) = line ++ 10 ∷ join_lines (next ∷ rest)

-- `AsScriptEnvironment`.
unfoldable pub as_script_environment : Settings → Bytes
as_script_environment s = join_lines (add_lines (codes "export ") s)

-- What `SetEnvironmentValues` sets is what `DetectProxies` finds, in any environment and for empty
-- values too.
pub detect_proxies-set_environment_values :
    (s : Settings) (env : Environment) → detect_proxies (set_environment_values s env) ≡ s
unfolding detect_proxies get_setting set_environment_values
detect_proxies-set_environment_values s env = ground (
  arith,
  bytes_beq_iff s.http [],
  bytes_beq_iff s.https [],
  bytes_beq_iff s.ftp [],
  bytes_beq_iff s.no_proxy [],
)
