-- ===== src/Fetching/UrlGuard.antt =====
-- src/huntloop/fetching/url_guard.py: the guard on URLs that a user gives. `urlsplit`, `ipaddress` and the
-- resolver are parameters; the text of an error is a constructor with the values that it names.
pub mod Laws
use huntloop.Base.{
  String, Bool, true, false, not, ◌||◌, Option, none, some, List, [], ◌∷◌, if◌then◌else◌, str_eq,
  contains,
}

-- The parts of `urlsplit(url)` that are read, the scheme lowercased.
pub record SplitUrl : Type 0 where
  pub scheme : String
  pub username : Option String
  pub password : Option String
  pub hostname : Option String

-- The properties of an `ipaddress` object.
pub record Ip : Type 0 where
  pub is_loopback : Bool
  pub is_link_local : Bool
  pub is_private : Bool
  pub is_multicast : Bool
  pub is_reserved : Bool
  pub is_unspecified : Bool
  pub is_site_local : Bool

-- An entry of the resolver: a text, the 5-tuple of `getaddrinfo` by the first item of its sockaddr,
-- another tuple by its first item, or what is no address.
pub data Info : Type 0 where
  address : String → Info
  address_info : String → Info
  sockaddr : String → Info
  other_info : Info

-- How a call of the resolver ends: with entries, with OSError, as `gaierror` is, or with UnicodeError, for a name
-- that cannot be encoded.
pub data Lookup : Type 0 where
  found : List Info → Lookup
  unanswered : Lookup
  undecodable : Lookup

pub record Net : Type 0 where
  -- `none` where `urlsplit` raises ValueError
  pub urlsplit : String → Option SplitUrl
  -- `none` where `ip_address` raises ValueError
  pub ip_address : String → Option Ip
  pub resolve : String → Lookup

pub data UnsafeUrlError : Type 0 where
  unsupported_scheme : String → UnsafeUrlError
  credentials : UnsafeUrlError
  no_host : UnsafeUrlError
  blocked_literal : String → UnsafeUrlError
  blocked_resolved : String → Ip → UnsafeUrlError

-- `value_error` is the ValueError of `urlsplit` or the UnicodeError of the resolver, which is one and is let out.
pub data Guard : Type 0 where
  allowed : String → Guard
  unsafe : UnsafeUrlError → Guard
  value_error : Guard

abbrev pub allowed_schemes : List String
allowed_schemes = "http" ∷ "https" ∷ []

unfoldable pub is_blocked : Ip → Bool
is_blocked ip =
    ip.is_loopback || ip.is_link_local || ip.is_private || ip.is_multicast || ip.is_reserved
    || ip.is_unspecified || ip.is_site_local

unfoldable pub address_of : Info → Option String
address_of (address a) = some a
address_of (address_info a) = some a
address_of (sockaddr a) = some a
address_of other_info = none

-- `bool(text)` of a text that may be None.
abbrev pub given : Option String → Bool
given none = false
given (some text) = not (str_eq text "")

-- The address that an entry of the resolver stands for, if it is one.
abbrev pub ip_of : Net → Option String → Option Ip
ip_of net none = none
ip_of net (some a) = net.ip_address a

-- The first blocked address among the entries.
unfoldable pub first_blocked : Net → List Info → Option Ip
unfolding address_of is_blocked
first_blocked net [] = none
first_blocked net (info ∷ rest) =
    let later = first_blocked net rest in
    elim (ip_of net (address_of info)) [
      | none ↦ later
      | some ip ↦ if is_blocked ip then some ip else later
    ]

abbrev pub judge : String → String → Option Ip → Guard
judge url host none = allowed url
judge url host (some ip) = unsafe (blocked_resolved host ip)

abbrev pub judge_resolved : Net → String → String → Lookup → Guard
judge_resolved net url host unanswered = allowed url
judge_resolved net url host undecodable = value_error
judge_resolved net url host (found infos) = judge url host (first_blocked net infos)

abbrev pub judge_host : Net → String → String → Option Ip → Guard
judge_host net url host (some literal) =
    if is_blocked literal then unsafe (blocked_literal host) else allowed url
judge_host net url host none = judge_resolved net url host (net.resolve host)

abbrev pub judge_public : Net → Bool → String → Option String → Guard
judge_public net allow_private url none = unsafe no_host
judge_public net allow_private url (some host) =
    if str_eq host ""
    then unsafe no_host
    else if allow_private
    then allowed url
    else judge_host net url host (net.ip_address host)

abbrev pub judge_parsed : Net → Bool → String → Option SplitUrl → Guard
judge_parsed net allow_private url none = value_error
judge_parsed net allow_private url (some parsed) =
    if not (contains allowed_schemes parsed.scheme)
    then unsafe (unsupported_scheme parsed.scheme)
    else if given parsed.username || given parsed.password
    then unsafe credentials
    else judge_public net allow_private url parsed.hostname

unfoldable pub assert_fetch_url_allowed : Net → Bool → String → Guard
assert_fetch_url_allowed net allow_private url =
    judge_parsed net allow_private url (net.urlsplit url)
