-- ===== src/Examples/Proxies.antt =====
-- Proxy settings at concrete inputs.
use juju_utils.Common.{◌≡◌, refl, [], ◌∷◌}
use juju_utils.Common.Bytes.{codes}
use juju_utils.Proxy.{Settings, Environment, as_environment_values, as_script_environment}

abbrev settings : Settings
settings = record { http = codes "h:80"; https = []; ftp = []; no_proxy = codes "localhost" }

abbrev inherited : Environment
inherited key = codes "old"

values_of_ftp :
    as_environment_values (record { http = []; https = []; ftp = codes "f"; no_proxy = [] })
    ≡ codes "ftp_proxy=f" ∷ codes "FTP_PROXY=f" ∷ []
unfolding as_environment_values
values_of_ftp = refl

script_of_ftp :
    as_script_environment (record { http = []; https = []; ftp = codes "f"; no_proxy = [] })
    ≡ codes "export ftp_proxy=f\nexport FTP_PROXY=f"
unfolding as_script_environment
script_of_ftp = refl
