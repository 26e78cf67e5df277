-- ===== src/Endpoint/Handshake.antt =====
-- endpoint.go: the messages of the handshake, and the checks that a server makes on a HELLO, on its
-- credential and on a refreshed one. The decoders, the digest and the authenticator are parameters.
-- The bytes of an identifier are read as one number.
pub mod Bytes
use sgsp.Common.{
  ℕ, zero, suc, ◌+◌, ◌*◌, ◌/◌, ◌%◌, ◌==◌, ltb, List, [], ◌∷◌, length, take, if◌then◌else◌, Bool,
  true, false, not, ◌&&◌, ◌||◌, Option, none, some,
}
use Prim.Native.String.{len}
use sgsp.Common.Int.{ℤ, pos, negsuc}
use sgsp.Placement.Types.{String, AppIdentity, Endpoint, Owner, same_text}
use sgsp.Placement.Bootstrap.{Principal}
use sgsp.Endpoint.Limits.{Limits, not_positive}
use sgsp.Endpoint.Session.{
  Code, unauthenticated, invalid_argument, unsupported_capability, normal, Session, set_principal,
}
use sgsp.Endpoint.Admission.{Role, game_role, bootstrap_role, is_bootstrap, ServerConfig, same_app}

-- hex, base64, sha256 and strconv. DecodeString of hex returns what it decoded also with an error.
pub record Packages : Type 0 where
  pub decode_hex : String → List ℕ × Bool
  pub encode_hex : List ℕ → String
  pub decode_base64 : String → Option (List ℕ)
  pub sha256 : List ℕ → List ℕ
  pub format_uint : ℕ → String
  pub parse_uint : String → Option ℕ

-- What Authenticate answers; `none` is an error.
abbrev pub Authenticate : Type 0
Authenticate = String → List ℕ → Option Principal

pub record LimitMessage : Type 0 where
  pub control_bytes : ℤ
  pub rest : Limits

-- `content` is the field `data`.
pub record CredentialMessage : Type 0 where
  pub scheme : String
  pub content : String

pub record ResumeMessage : Type 0 where
  pub session_id : String
  pub owner_id : String
  pub incarnation : String
  pub secret : String

pub record HelloMessage : Type 0 where
  pub role : String
  pub app : AppIdentity
  pub limits : LimitMessage
  pub credential : CredentialMessage
  pub group : String
  pub admission : String
  pub resume : Option ResumeMessage

pub record OwnerMessage : Type 0 where
  pub id : String
  pub incarnation : String
  pub address : String
  pub server_name : String

pub record PrincipalMessage : Type 0 where
  pub issuer : String
  pub subject : String
  pub expires_ms : ℕ

pub record WelcomeMessage : Type 0 where
  pub session_id : String
  pub epoch : String
  pub owner : OwnerMessage
  pub principal : PrincipalMessage
  pub limits : LimitMessage
  pub capabilities : List String
  pub resumed : Bool
  pub resumable : Bool
  pub resume_grace_ms : ℕ
  pub resume_secret : String

abbrev pub id_bytes : ℕ
id_bytes = 16

-- The bytes of a [16]byte as a number, and back.
abbrev pub number : List ℕ → ℕ
number [] = 0
number (b ∷ bs) = b + 256 * number bs

abbrev pub bytes_of : ℕ → ℕ → List ℕ
bytes_of zero n = []
bytes_of (suc w) n = n % 256 ∷ bytes_of w (n / 256)

unfoldable pub parse_session_id : Packages → String → Option ℕ
parse_session_id go value =
    let (decoded, fine) = go.decode_hex value in
    if not fine || not (length decoded == id_bytes) then none else some (number decoded)

unfoldable pub format_id : Packages → ℕ → String
format_id go id = go.encode_hex (bytes_of id_bytes id)

-- `copy` takes no more than 16 bytes, and leaves those that are missing at zero.
unfoldable pub to_owner : Packages → OwnerMessage → Owner
to_owner go o = record {
  id = o.id;
  incarnation = number (take id_bytes (go.decode_hex o.incarnation).0);
  endpoint = record { address = o.address; server_name = o.server_name };
}

unfoldable pub owner_message : Packages → Owner → OwnerMessage
owner_message go o = record {
  id = o.id;
  incarnation = format_id go o.incarnation;
  address = o.endpoint.address;
  server_name = o.endpoint.server_name;
}

abbrev pub millisecond : ℕ
millisecond = 1_000_000

-- UnixMilli
unfoldable pub principal_message : Principal → PrincipalMessage
principal_message p = record {
  issuer = p.issuer;
  subject = p.subject;
  expires_ms = p.expires_at / millisecond;
}

-- `==` on the limits.
abbrev pub same_int : ℤ → ℤ → Bool
same_int (pos a) (pos b) = a == b
same_int (pos a) (negsuc b) = false
same_int (negsuc a) (pos b) = false
same_int (negsuc a) (negsuc b) = a == b

unfoldable pub same_limits : LimitMessage → LimitMessage → Bool
same_limits a b =
    same_int a.control_bytes b.control_bytes
    && same_int a.rest.message_bytes b.rest.message_bytes
    && same_int a.rest.datagram_bytes b.rest.datagram_bytes
    && same_int a.rest.reliable_channels b.rest.reliable_channels
    && same_int a.rest.datagram_channels b.rest.datagram_channels
    && same_int a.rest.requests b.rest.requests
    && same_int a.rest.streams b.rest.streams

unfoldable pub role_name : Role → String
role_name game_role = "game"
role_name bootstrap_role = "bootstrap"

unfoldable pub validate_limit_message : LimitMessage → Bool
validate_limit_message limits =
    not (not_positive limits.control_bytes)
    && not (not_positive limits.rest.message_bytes)
    && not (not_positive limits.rest.datagram_bytes)
    && not (not_positive limits.rest.reliable_channels)
    && not (not_positive limits.rest.datagram_channels)
    && not (not_positive limits.rest.requests)
    && not (not_positive limits.rest.streams)

unfoldable pub has_capability : List String → String → Bool
has_capability [] expected = false
has_capability (c ∷ cs) expected = if same_text c expected then true else has_capability cs expected

-- What is accepted, or the code of the refusal.
pub data Verdict {ℓ} (A : Type ℓ) : Type ℓ where
  accepts : A → Verdict A
  rejects : Code → Verdict A

-- handleConnection's checks of the HELLO: `met` is what RequireCapabilities answered, and `datagrams`
-- whether the connection has them.
unfoldable pub check_hello : ServerConfig → ℕ → Bool → Bool → HelloMessage → Code
check_hello config max_group_key_bytes datagrams met hello =
    if not met
    then unsupported_capability
    else if ltb max_group_key_bytes (len hello.group)
    then invalid_argument
    else if not (validate_limit_message hello.limits)
    then invalid_argument
    else if not (same_text hello.role (role_name config.role))
        || not (same_app hello.app config.app)
        || not datagrams && not (is_bootstrap config.role)
    then unsupported_capability
    else normal

-- The principal that the credential shows, if it has a name and is live.
unfoldable pub authenticate : Packages → Authenticate → ℕ → CredentialMessage → Verdict Principal
authenticate go auth now credential = elim (go.decode_base64 credential.content) [
  | none ↦ rejects unauthenticated
  | some bytes ↦ elim (auth credential.scheme bytes) [
    | none ↦ rejects unauthenticated
    | some p ↦
        if same_text p.issuer "" || same_text p.subject "" || not (ltb now p.expires_at)
        then rejects unauthenticated
        else accepts p
  ]
]

abbrev pub refreshed : Principal → Principal → ℕ → Bool
refreshed previous p now =
    same_text p.issuer previous.issuer
    && same_text p.subject previous.subject
    && ltb now p.expires_at

-- handleRefresh, given the message, if it was one: the session, and the code of its answer.
unfoldable pub handle_refresh :
    Packages
    → Authenticate
    → ℕ
    → Option CredentialMessage
    → Session Principal
    → Session Principal × Code
handle_refresh go auth now none s = (s, unauthenticated)
handle_refresh go auth now (some credential) s = elim (go.decode_base64 credential.content) [
  | none ↦ (s, unauthenticated)
  | some bytes ↦ elim (auth credential.scheme bytes) [
    | none ↦ (s, unauthenticated)
    | some p ↦
        if refreshed s.principal p now then (set_principal s p, normal) else (s, unauthenticated)
  ]
]
