-- ===== src/NetGuard.antt =====
-- crates/himadri-core/src/net_guard.rs: the guard of the providers' base URLs. A text is the list of
-- its code points. `parse_ip` is the standard library's `str::parse::<IpAddr>`; `var` is the variable
-- of the environment. A refusal is given by its reason, before it is worded.
pub mod Hosts
pub mod Blocks
use himadri.Common.{
  ℕ, ◌+◌, ◌*◌, ◌/◌, ◌%◌, Bool, true, false, ◌&&◌, ◌||◌, List, [], ◌∷◌, ◌++◌, Option, none, some,
  if◌then◌else◌, leb, ◌==◌, map, or_else,
}
use himadri.Rbac.Pattern.{codes, eq_codes, strip_prefix}
use himadri.Sse.{trim}

-- The octets of an IPv4 address, and the eight segments of an IPv6 address.
pub record Ipv4 : Type 0 where
  pub o0 : ℕ
  pub o1 : ℕ
  pub o2 : ℕ
  pub o3 : ℕ

pub record Ipv6 : Type 0 where
  pub s0 : ℕ
  pub s1 : ℕ
  pub s2 : ℕ
  pub s3 : ℕ
  pub s4 : ℕ
  pub s5 : ℕ
  pub s6 : ℕ
  pub s7 : ℕ

pub data IpAddr : Type 0 where
  v4 : Ipv4 → IpAddr
  v6 : Ipv6 → IpAddr

-- `Ipv4Addr::is_private`
abbrev pub is_private : Ipv4 → Bool
is_private ip =
    (ip.o0 == 10)
    || (ip.o0 == 172 && leb 16 ip.o1 && leb ip.o1 31)
    || (ip.o0 == 192 && ip.o1 == 168)

-- `Ipv4Addr::is_documentation`
abbrev pub is_documentation : Ipv4 → Bool
is_documentation ip =
    (ip.o0 == 192 && ip.o1 == 0 && ip.o2 == 2)
    || (ip.o0 == 198 && ip.o1 == 51 && ip.o2 == 100)
    || (ip.o0 == 203 && ip.o1 == 0 && ip.o2 == 113)

-- `n & 0xc0` of an octet, `n & 0xfe00` and `n & 0xffc0` of a segment.
abbrev pub mask_c0 : ℕ → ℕ
mask_c0 n = (n / 64) % 4 * 64

abbrev pub mask_fe00 : ℕ → ℕ
mask_fe00 n = (n / 512) % 128 * 512

abbrev pub mask_ffc0 : ℕ → ℕ
mask_ffc0 n = (n / 64) % 1024 * 64

abbrev pub leading_zeros : Ipv6 → Bool
leading_zeros ip =
    ip.s0 == 0 && ip.s1 == 0 && ip.s2 == 0 && ip.s3 == 0 && ip.s4 == 0 && ip.s5 == 0 && ip.s6 == 0

unfoldable pub ip_is_internal : IpAddr → Bool
ip_is_internal (v4 ip) =
    (ip.o0 == 127)
    || is_private ip
    || (ip.o0 == 169 && ip.o1 == 254)
    || (ip.o0 == 0 && ip.o1 == 0 && ip.o2 == 0 && ip.o3 == 0)
    || (ip.o0 == 255 && ip.o1 == 255 && ip.o2 == 255 && ip.o3 == 255)
    || is_documentation ip
    || (ip.o0 == 100 && mask_c0 ip.o1 == 64)
ip_is_internal (v6 ip) =
    (leading_zeros ip && ip.s7 == 1)
    || (leading_zeros ip && ip.s7 == 0)
    || (mask_fe00 ip.s0 == 64512)
    || (mask_ffc0 ip.s0 == 65152)

-- `split(..).next()`: what stands before the first of the separators.
unfoldable pub before : (ℕ → Bool) → List ℕ → List ℕ
before stop [] = []
before stop (c ∷ cs) = if stop c then [] else c ∷ before stop cs

abbrev pub is_separator : ℕ → Bool
is_separator c = (c == b'/') || (c == b'?') || (c == b'#')

unfoldable pub has : ℕ → List ℕ → Bool
has c [] = false
has c (x ∷ xs) = (x == c) || has c xs

-- `rsplit(c).next()`: what stands after the last `c`, or all of it.
unfoldable pub after_last : ℕ → List ℕ → List ℕ
unfolding has
after_last c [] = []
after_last c (x ∷ xs) =
    let later = after_last c xs in if has c xs then later else if x == c then xs else x ∷ xs

unfoldable pub host_of_port : List ℕ → List ℕ
unfolding before
host_of_port [] = []
host_of_port (c ∷ cs) =
    if c == b'[' then before (λ x. x == b']') cs else before (λ x. x == b':') (c ∷ cs)

-- The host of what follows the scheme.
unfoldable pub host_of : List ℕ → List ℕ
unfolding before after_last host_of_port
host_of rest = host_of_port (after_last b'@' (before is_separator rest))

unfoldable pub to_ascii_lowercase : List ℕ → List ℕ
to_ascii_lowercase text = map (λ c. if leb 65 c && leb c 90 then c + 32 else c) text

pub data UrlDenial : Type 0 where
  bad_scheme : UrlDenial
  no_host : UrlDenial
  metadata_host : (host : List ℕ) → UrlDenial
  internal_host : (host : List ℕ) → UrlDenial

pub data UrlCheck : Type 0 where
  ok : UrlCheck
  err : UrlDenial → UrlCheck

abbrev pub http : List ℕ
http = codes "http://"

abbrev pub https : List ℕ
https = codes "https://"

unfoldable pub is_metadata : List ℕ → Bool
unfolding to_ascii_lowercase
is_metadata host =
    eq_codes (to_ascii_lowercase host) (codes "metadata")
    || eq_codes (to_ascii_lowercase host) (codes "metadata.google.internal")

unfoldable pub allow_private_provider_urls : Option (List ℕ) → Bool
unfolding to_ascii_lowercase
allow_private_provider_urls none = false
allow_private_provider_urls (some var) =
    let v = to_ascii_lowercase (trim var) in
    eq_codes v (codes "1") || eq_codes v (codes "true") || eq_codes v (codes "yes")

module _ (parse_ip : List ℕ → Option IpAddr) where
  abbrev pub check_ip : List ℕ → Option IpAddr → UrlCheck
  check_ip host none = ok
  check_ip host (some ip) = if ip_is_internal ip then err (internal_host host) else ok

  unfoldable pub check_host : List ℕ → Bool → UrlCheck
  unfolding is_metadata
  check_host [] allow_private = err no_host
  check_host (c ∷ cs) allow_private =
      if allow_private
      then ok
      else if is_metadata (c ∷ cs)
      then err (metadata_host (c ∷ cs))
      else check_ip (c ∷ cs) (parse_ip (c ∷ cs))

  abbrev pub check_rest : Bool → Option (List ℕ) → UrlCheck
  check_rest allow_private none = err bad_scheme
  check_rest allow_private (some rest) = check_host (host_of rest) allow_private

  unfoldable pub provider_url_is_allowed : List ℕ → Bool → UrlCheck
  unfolding host_of check_host
  provider_url_is_allowed url allow_private =
      check_rest allow_private (or_else (strip_prefix http url) (strip_prefix https url))
