-- ===== src/Tests/Proxy.antt =====
-- The proxy of the registry.
use d2p_migrator.Prelude.{◌≡◌, ◌≢◌, refl, true, false, List, [], ◌∷◌, some, Str, str}
use d2p_migrator.Prelude.Result.{ok}
use d2p_migrator.Ctrd.Proxy.{Net, Registry, use_proxy, proxy_from_environment}
use d2p_migrator.Ctrd.Proxy.Environment.{no_proxy_env, get_env_once}
use d2p_migrator.Ctrd.Proxy.HostPort.{Url, split_host_port, canonical_addr}
use d2p_migrator.Ctrd.Proxy.HostPort.RoundTrip.{split_host_port-canonical_addr}
use d2p_migrator.Ctrd.Proxy.Environment.{get_env_once-kept}
use d2p_migrator.Ctrd.Proxy.Choice.{
  Bypass, Direct, Parsed, use_proxy-Direct, proxy_from_environment-some,
}
use d2p_migrator.Tests.Everything.{everything}

abbrev net : Net
net = record {
  is_loopback = λ _. false;
  parse_url = λ s. ok (record { scheme = str "http"; hostname = s; port = [] });
  lower = λ c. c;
}

abbrev request : Str → Url
request host = record { scheme = str "http"; hostname = host; port = [] }

abbrev environ : List Str
environ = str "HOME=/root" ∷ str "no_proxy=b.c, .d.e:80" ∷ []

abbrev registry : Registry
registry = record { proxy = str "p:3128"; username = []; secret = [] }

-- Below a domain of the list, and elsewhere.
proxy_tests :
    ((use_proxy net environ (str "a.b.c:80") no_proxy_env).0 ≡ ok false)
    × ((use_proxy net environ (str "d.e:80") no_proxy_env).0 ≡ ok false)
    × ((use_proxy net environ (str "ab.c:80") no_proxy_env).0 ≡ ok true)
    × ((use_proxy net environ (str "localhost:80") no_proxy_env).0 ≡ ok false)
    × (canonical_addr (request (str "::1")) ≡ str "[::1]:80")
unfolding everything
proxy_tests = (refl, refl, refl, refl, refl)

use_proxy-Direct_example :
    Bypass
      ((use_proxy net environ (str "a.b.c:80") no_proxy_env).0)
      (Direct net (str "a.b.c:80") ((get_env_once environ no_proxy_env).0))
use_proxy-Direct_example = use_proxy-Direct net environ (str "a.b.c:80") no_proxy_env

chosen :
    (proxy_from_environment net environ registry (request (str "ab.c")) no_proxy_env).0
    ≡ ok (some (record { scheme = str "http"; hostname = str "p:3128"; port = [] }))
unfolding everything
chosen = refl

proxy_from_environment-some_example :
    (str "http" ≢ str "https")
    × (str "p:3128" ≢ [])
    × (¬ Direct net (canonical_addr (request (str "ab.c"))) ((get_env_once environ no_proxy_env).0))
    × Parsed net (str "p:3128") (record { scheme = str "http"; hostname = str "p:3128"; port = [] })
proxy_from_environment-some_example =
    proxy_from_environment-some net environ registry (request (str "ab.c")) no_proxy_env
      (record { scheme = str "http"; hostname = str "p:3128"; port = [] }) chosen

split_host_port-canonical_addr_example :
    split_host_port (canonical_addr (request (str "::1"))) ≡ some (str "::1")
unfolding everything
split_host_port-canonical_addr_example =
    split_host_port-canonical_addr (request (str "::1")) (refl, refl) (refl, refl) refl

get_env_once-kept_example :
    get_env_once [] ((get_env_once environ no_proxy_env).1) ≡ get_env_once environ no_proxy_env
get_env_once-kept_example = get_env_once-kept environ [] no_proxy_env
