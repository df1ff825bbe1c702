-- ===== src/NetGuard/Hosts.antt =====
-- crates/himadri-core/src/net_guard.rs, `provider_url_is_allowed`: a URL as the text of its parts.
use himadri.Common.{
  ℕ, ◌≡◌, ◌≢◌, ◌↔◌, ◌⊎◌, inl, inr, refl, ap, sym, ◌∙◌, List, [], ◌∷◌, ◌++◌, Option, none, some,
  Bool, true, false, arith, Bool-cases, ◌==◌, All, or_else,
}
use mathlib.Core.Path.{subst}
use mathlib.Core.Option.{some-injective}
use mathlib.Core.List.{append_assoc, append-nil}
use himadri.Rbac.Pattern.{strip_prefix}
use himadri.NetGuard.{
  IpAddr, ip_is_internal, before, is_separator, has, after_last, host_of_port, host_of, is_metadata,
  check_ip, check_rest, check_host, ok, http, https, provider_url_is_allowed,
}

-- None of the characters is one that the test stops at.
abbrev Without : (ℕ → Bool) → List ℕ → Type 0
Without stop text = All (λ c. stop c ≡ false) text

before-stop :
    (stop : ℕ → Bool) (text rest : List ℕ) (c : ℕ)
    → Without stop text
    → stop c ≡ true
    → before stop (text ++ (c ∷ rest)) ≡ text
unfolding before
before-stop stop [] rest c h s = rw s refl
before-stop stop (x ∷ text) rest c h s = rw (h.0, before-stop stop text rest c h.1 s) refl

before-all : (stop : ℕ → Bool) (text : List ℕ) → Without stop text → before stop text ≡ text
unfolding before
before-all stop [] h = refl
before-all stop (x ∷ text) h = rw (h.0, before-all stop text h.1) refl

has-Without : (c : ℕ) (text : List ℕ) → Without (λ x. x == c) text → has c text ≡ false
unfolding has
has-Without c [] h = refl
has-Without c (x ∷ text) h = rw (h.0, has-Without c text h.1) refl

after_last-none : (c : ℕ) (text : List ℕ) → Without (λ x. x == c) text → after_last c text ≡ text
unfolding after_last
after_last-none c [] h = refl
after_last-none c (x ∷ text) h = rw (has-Without c text h.1, h.0) refl

has-append : (c : ℕ) (before after : List ℕ) → has c (before ++ (c ∷ after)) ≡ true
unfolding has
has-append c [] after = ground arith
has-append c (x ∷ xs) after = ground (arith, has-append c xs after)

after_last-append :
    (c : ℕ) (first last : List ℕ)
    → Without (λ x. x == c) last
    → after_last c (first ++ (c ∷ last)) ≡ last
unfolding after_last
after_last-append c [] last h = rw (has-Without c last h) (ground arith)
after_last-append c (x ∷ first) last h =
    rw (has-append c first last) (after_last-append c first last h)

-- The host of a URL: a name or an IPv4 address, or an IPv6 address in brackets.
pub data Host : Type 0 where
  plain : List ℕ → Host
  bracketed : List ℕ → Host

abbrev pub bare : Host → List ℕ
bare (plain h) = h
bare (bracketed h) = h

abbrev pub host_text : Host → List ℕ
host_text (plain h) = h
host_text (bracketed h) = b'[' ∷ (h ++ (b']' ∷ []))

abbrev pub user_text : Option (List ℕ) → List ℕ
user_text none = []
user_text (some u) = u ++ (b'@' ∷ [])

abbrev pub port_text : Option (List ℕ) → List ℕ
port_text none = []
port_text (some p) = b':' ∷ p

abbrev pub scheme_text : (secure : Bool) → List ℕ
scheme_text true = https
scheme_text false = http

-- What a URL is made of.
pub record Url : Type 0 where
  pub secure : Bool
  pub user : Option (List ℕ)
  pub host : Host
  pub port : Option (List ℕ)
  pub path : List ℕ

abbrev pub authority : Url → List ℕ
authority url = user_text url.user ++ (host_text url.host ++ port_text url.port)

unfoldable pub url_text : Url → List ℕ
url_text url = scheme_text url.secure ++ (authority url ++ url.path)

abbrev at_sign : ℕ → Bool
at_sign c = c == b'@'

abbrev IsPath : List ℕ → Type 0
IsPath [] = Unit
IsPath (c ∷ cs) = is_separator c ≡ true

abbrev HostChars : Host → Type 0
HostChars (plain h) = Without at_sign h × Without (λ c. c == b':') h × Without (λ c. c == b'[') h
HostChars (bracketed h) = Without at_sign h × Without (λ c. c == b']') h

abbrev PortChars : Option (List ℕ) → Type 0
PortChars none = Unit
PortChars (some p) = Without at_sign p

-- The parts have no character that ends them: a path begins with a separator, the parts before it have
-- none, and the user information alone may have an `@`.
unfoldable pub IsUrl : Url → Type 0
IsUrl url =
    Without is_separator (authority url) × HostChars url.host × PortChars url.port × IsPath url.path

Without-append :
    (stop : ℕ → Bool) (a b : List ℕ) → Without stop a → Without stop b → Without stop (a ++ b)
Without-append stop [] b h k = k
Without-append stop (c ∷ a) b h k = (h.0, Without-append stop a b h.1 k)

before-path :
    (text path : List ℕ)
    → Without is_separator text
    → IsPath path
    → before is_separator (text ++ path) ≡ text
before-path text [] h k = rw (append-nil text) (before-all is_separator text h)
before-path text (c ∷ path) h k = before-stop is_separator text path c h k

host_text-Without : (h : Host) → HostChars h → Without at_sign (host_text h)
host_text-Without (plain h) c = c.0
host_text-Without (bracketed h) c = (refl, Without-append at_sign h (b']' ∷ []) c.0 (refl, tt))

port_text-Without : (p : Option (List ℕ)) → PortChars p → Without at_sign (port_text p)
port_text-Without none c = tt
port_text-Without (some p) c = (refl, c)

after_last-user :
    (user : Option (List ℕ)) (rest : List ℕ)
    → Without at_sign rest
    → after_last b'@' (user_text user ++ rest) ≡ rest
after_last-user none rest h = after_last-none b'@' rest h
after_last-user (some u) rest h =
    rw (append_assoc u (b'@' ∷ []) rest) (after_last-append b'@' u rest h)

host_of_port-text :
    (h : Host) (p : Option (List ℕ))
    → HostChars h
    → host_of_port (host_text h ++ port_text p) ≡ bare h
unfolding host_of_port
host_of_port-text (plain []) none c = refl
host_of_port-text (plain []) (some p) c = refl
host_of_port-text (plain (x ∷ h)) none c =
    rw (c.2.0, c.1.0, append-nil h, before-all (λ y. y == b':') h c.1.1) refl
host_of_port-text (plain (x ∷ h)) (some p) c =
    rw (c.2.0, c.1.0, before-stop (λ y. y == b':') h p b':' c.1.1 refl) refl
host_of_port-text (bracketed h) p c =
    rw (append_assoc h (b']' ∷ []) (port_text p))
      (before-stop (λ x. x == b']') h (port_text p) b']' c.1 refl)

host_of-authority : (url : Url) → IsUrl url → host_of (authority url ++ url.path) ≡ bare url.host
unfolding host_of IsUrl
host_of-authority url h = rw (before-path (authority url) url.path h.0 h.3) (
    rw
      (after_last-user url.user (host_text url.host ++ port_text url.port) (
        Without-append at_sign (host_text url.host) (port_text url.port)
          (host_text-Without url.host h.1) (port_text-Without url.port h.2)))
      (host_of_port-text url.host url.port h.1))

rest_of-scheme :
    (secure : Bool) (rest : List ℕ)
    → or_else
        (strip_prefix http (scheme_text secure ++ rest))
        (strip_prefix https (scheme_text secure ++ rest))
      ≡ some rest
unfolding strip_prefix
rest_of-scheme true rest = refl
rest_of-scheme false rest = refl

module _ (parse_ip : List ℕ → Option IpAddr) where
  -- A host that requests may go to.
  unfoldable pub Reachable : Bool → List ℕ → Type 0
  Reachable allow_private host =
      (host ≢ [])
      × ((allow_private ≡ true)
          ⊎ ((is_metadata host ≡ false)
              × ((ip : IpAddr) → parse_ip host ≡ some ip → ip_is_internal ip ≡ false)))

  check_ip_iff :
      (c : ℕ) (cs : List ℕ) (parsed : Option IpAddr)
      → (check_ip parse_ip (c ∷ cs) parsed ≡ ok) ↔ (
          (c ∷ cs ≢ [])
          × ((false ≡ true)
              ⊎ ((false ≡ false) × ((ip : IpAddr) → parsed ≡ some ip → ip_is_internal ip ≡ false))))
  check_ip_iff c cs none = (λ h. (λ e. absurd (cc), inr (refl, λ ip e. cc)), λ r. refl)
  check_ip_iff c cs (some found) = elim (Bool-cases (ip_is_internal found)) [
    | inl i ↦ rw i (
      λ h. absurd (cc),
      λ r. elim r.1 [ inl e ↦ cc | inr clean ↦ let e = sym i ∙ clean.1 found refl in cc ],
    )
    | inr i ↦ rw i (
      λ h. (
        λ e. absurd (cc),
        inr (refl, λ ip e. subst (λ x. ip_is_internal x ≡ false) (some-injective _ _ e) i),
      ),
      λ r. refl,
    )
  ]

  check_host_iff :
      (host : List ℕ) (allow_private : Bool)
      → (check_host parse_ip host allow_private ≡ ok) ↔ Reachable allow_private host
  unfolding check_host Reachable
  check_host_iff [] allow_private = (λ h. absurd (cc), λ r. absurd (r.0 refl))
  check_host_iff (c ∷ cs) true = (λ h. (λ e. absurd (cc), inl refl), λ r. refl)
  check_host_iff (c ∷ cs) false = elim (Bool-cases (is_metadata (c ∷ cs))) [
    | inl m ↦
        rw m (λ h. absurd (cc), λ r. elim r.1 [ inl e ↦ cc | inr clean ↦ let e = clean.0 in cc ])
    | inr m ↦ rw m (check_ip_iff c cs (parse_ip (c ∷ cs)))
  ]

  provider_url_is_allowed-host :
      (url : Url) (allow_private : Bool)
      → IsUrl url
      → provider_url_is_allowed parse_ip (url_text url) allow_private
        ≡ check_host parse_ip (bare url.host) allow_private
  unfolding provider_url_is_allowed url_text
  provider_url_is_allowed-host url allow_private h =
      ap (check_rest parse_ip allow_private) (rest_of-scheme url.secure (authority url ++ url.path))
      ∙ ap (λ host. check_host parse_ip host allow_private) (host_of-authority url h)

  -- A URL with a scheme, a host and a path, and perhaps user information and a port, is allowed exactly
  -- when its host is not empty and either private hosts are permitted or the host is neither a metadata
  -- service nor an internal address.
  pub provider_url_is_allowed_iff :
      (url : Url) (allow_private : Bool)
      → IsUrl url
      → (provider_url_is_allowed parse_ip (url_text url) allow_private ≡ ok)
        ↔ Reachable allow_private (bare url.host)
  unfolding provider_url_is_allowed url_text
  provider_url_is_allowed_iff url allow_private h =
      rw (provider_url_is_allowed-host url allow_private h)
        (check_host_iff (bare url.host) allow_private)
