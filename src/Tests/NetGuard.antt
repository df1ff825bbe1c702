-- ===== src/Tests/NetGuard.antt =====
-- crates/himadri-core/src/net_guard.rs on a few URLs and addresses.
use himadri.Common.{◌≡◌, ◌↔◌, ◌<◌, refl, List, ℕ, none, some, true, false, Option, arith}
use himadri.Rbac.Pattern.{codes, eq_codes, strip_prefix}
use himadri.Rbac.Decision.{Any}
use himadri.NetGuard.{
  IpAddr, Ipv4, v4, v6, ip_is_internal, provider_url_is_allowed, ok, err, internal_host, bad_scheme,
  metadata_host, no_host, allow_private_provider_urls,
}
use himadri.Sse.{trim, is_whitespace}
use himadri.NetGuard.Hosts.{
  plain, Url, url_text, IsUrl, Reachable, bare, provider_url_is_allowed_iff,
}
use himadri.NetGuard.Blocks.{InRange, dotted, internal_ranges, ip_is_internal_iff}

abbrev metadata_ip : Ipv4
metadata_ip = record { o0 = 169; o1 = 254; o2 = 169; o3 = 254 }

-- A parser that knows one address.
abbrev knows_one : List ℕ → Option IpAddr
knows_one text = elim (eq_codes text (codes "169.254.169.254")) [
  | true ↦ some (v4 metadata_ip)
  | false ↦ none
]

abbrev url : Url
url = record {
  secure = false;
  user = some (codes "api.openai.com:443@");
  host = plain (codes "169.254.169.254");
  port = some (codes "80");
  path = codes "/latest?x=@y";
}

url-IsUrl : IsUrl url
unfolding IsUrl
url-IsUrl = ground arith

hidden_by_user :
    provider_url_is_allowed knows_one (url_text url) false
    ≡ err (internal_host (codes "169.254.169.254"))
unfolding provider_url_is_allowed strip_prefix url_text eq_codes ip_is_internal
hidden_by_user = refl

other_scheme : provider_url_is_allowed knows_one (codes "file:///etc/passwd") true ≡ err bad_scheme
unfolding provider_url_is_allowed strip_prefix
other_scheme = refl

empty_host : provider_url_is_allowed knows_one (codes "https://user@:80/") true ≡ err no_host
unfolding provider_url_is_allowed strip_prefix
empty_host = refl

upper_case :
    provider_url_is_allowed knows_one (codes "http://MetaData/") false
    ≡ err (metadata_host (codes "MetaData"))
unfolding provider_url_is_allowed strip_prefix eq_codes
upper_case = refl

permitted : allow_private_provider_urls (some (codes " Yes ")) ≡ true
unfolding allow_private_provider_urls eq_codes trim is_whitespace
permitted = refl

-- ::ffff:127.0.0.1, the IPv4 loopback address as an IPv6 one.
mapped_loopback :
    ip_is_internal
      (v6 (record { s0 = 0; s1 = 0; s2 = 0; s3 = 0; s4 = 0; s5 = 65535; s6 = 32512; s7 = 1 }))
    ≡ false
unfolding ip_is_internal
mapped_loopback = refl

provider_url_is_allowed_iff_example :
    (provider_url_is_allowed knows_one (url_text url) false ≡ ok)
    ↔ Reachable knows_one false (bare url.host)
provider_url_is_allowed_iff_example = provider_url_is_allowed_iff knows_one url false url-IsUrl

octet_169 : 169 < 256
octet_169 = omega arith

octet_254 : 254 < 256
octet_254 = omega arith

ip_is_internal_iff_example :
    (ip_is_internal (v4 metadata_ip) ≡ true)
    ↔ Any (InRange (dotted 169 254 169 254)) internal_ranges
ip_is_internal_iff_example = ip_is_internal_iff metadata_ip octet_169 octet_254 octet_169 octet_254
