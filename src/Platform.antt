-- ===== src/Platform.antt =====
-- The Go library and golang.org/x/net, as far as the identifiers ask them: each function is a
-- parameter, and an address or URL is what the program reads of it.
use Prim.Native.Char.{Char}
use go_acme_server.Prelude.{Bool, String, Option}
use go_acme_server.Resource.{Bytes, Time}

-- netip.Addr.
pub record Addr : Type 0 where
  pub text : String
  pub zone : String
  pub is_4in6 : Bool
  pub is_unspecified : Bool
  pub is_multicast : Bool

-- url.URL: `path` is what its text has behind the host.
pub record Uri : Type 0 where
  pub scheme : String
  pub host : String
  pub has_user : Bool
  pub opaque : String
  pub fragment : String
  pub path : String

-- url.URL of a contact.
pub record Contact : Type 0 where
  pub scheme : String
  pub opaque : String
  pub raw_query : String
  pub fragment : String

pub record Platform : Type 0 where
  -- unicode.ToLower of a character beyond ASCII.
  pub lower_other : Char → Char
  -- strings.EqualFold.
  pub equal_fold : String → String → Bool
  -- netip.ParseAddr.
  pub parse_addr : String → Option Addr
  -- url.Parse, and URL.String.
  pub parse_uri : String → Option Uri
  pub format_uri : Uri → String
  -- url.Parse of a contact, and whether mail.ParseAddress reads a text as the bare address it is.
  pub parse_contact : String → Option Contact
  pub is_bare_address : String → Bool
  -- idna.Registration.ToUnicode and ToASCII.
  pub to_unicode : String → Option String
  pub to_ascii : String → Option String
  -- base64.RawURLEncoding.Strict().
  pub decode_base64 : String → Option Bytes
  pub encode_base64 : Bytes → String
  -- time.Parse with time.RFC3339.
  pub parse_time : String → Option Time
  -- Time.Format with time.RFC3339, in UTC.
  pub format_rfc3339 : Time → String
  -- `%q` of package fmt.
  pub quote : String → String
