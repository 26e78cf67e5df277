-- ===== src/Endpoint/Resume/Tests.antt =====
-- Resumes at concrete inputs.
use sgsp.Common.{
  ℕ, ◌==◌, ◌≡◌, refl, arith, List, [], ◌∷◌, length, get_elem?, set, true, false, Option, none, some,
  if◌then◌else◌,
}
use sgsp.Common.Int.{pos}
use sgsp.Common.Table.{lookup}
use sgsp.Placement.Types.{String, AppIdentity, Owner, same_text}
use sgsp.Placement.Bootstrap.{Principal}
use sgsp.Endpoint.Limits.{Limits, not_positive}
use sgsp.Endpoint.Session.{active, unauthenticated, suspend_if_current, suspended, normal, Session}
use sgsp.Endpoint.Server.{Server, lookup_session, expire_terminals, schedule_terminal_expiry}
use sgsp.Endpoint.Admission.{game_role, ServerConfig}
use sgsp.Endpoint.Handshake.{
  Packages, LimitMessage, CredentialMessage, HelloMessage, accepts, rejects, number, bytes_of,
  parse_session_id, format_id, same_limits, validate_limit_message,
}
use sgsp.Endpoint.Handshake.Bytes.{IsLawful}
use sgsp.Endpoint.Resume.{
  SessionRecord, ServerEndpoint, find_resume, commit_resume, take_over, resume_welcome,
  resume_request, authorize_resume, group_ended, refuses_resume,
}
use sgsp.Endpoint.Resume.Client.{
  ClientEndpoint, resume_message, resume_hello, check_welcome, attach_resume,
}
use sgsp.Endpoint.Resume.Proven.{IsProven, Commits, commit_resume-IsProven, resume-IsProven}
use sgsp.Endpoint.Resume.Paired.{IsPaired}
use sgsp.Endpoint.Resume.Agreement.{resume-agrees}
use sgsp.Endpoint.Resume.Identity.{
  Run, stops, runs, resumes, suspends, IsSame, change_life, run-IsSame,
}

-- Texts for the two identifiers, the secret and the epoch of the tests.
abbrev go : Packages
go = record {
  decode_hex = λ t.
      if same_text t "07"
      then (bytes_of 16 7, true)
      else if same_text t "03"
      then (bytes_of 16 3, true)
      else ([], false);
  encode_hex = λ bs. if number bs == 7 then "07" else if number bs == 3 then "03" else "";
  decode_base64 = λ t. if same_text t "secret" then some (bytes_of 32 99) else none;
  sha256 = λ bs. number bs ∷ [];
  format_uint = λ n. if n == 5 then "5" else "";
  parse_uint = λ t. if same_text t "5" then some 5 else none;
}

abbrev laws : IsLawful go 7 3 5
laws = record { reads_id = refl; reads_incarnation = refl; reads_epoch = refl }

abbrev chess : AppIdentity
chess = record { id = "chess"; version = "2" }

abbrev north : Owner
north = record {
  id = "north";
  incarnation = 3;
  endpoint = record { address = "north:1"; server_name = "n" };
}

abbrev config : ServerConfig
config = record {
  role = game_role;
  app = chess;
  owner = north;
  require_admission = false;
  verify = none;
  authorize_group = none;
}

abbrev counts : Limits
counts = record {
  message_bytes = pos 10;
  datagram_bytes = pos 10;
  requests = pos 1;
  streams = pos 1;
  reliable_channels = pos 1;
  datagram_channels = pos 1;
}

abbrev limits : LimitMessage
limits = record { control_bytes = pos 100; rest = counts }

abbrev ada : Principal
ada = record { issuer = "idp"; subject = "ada"; expires_at = 9_000_000 }

abbrev life : Session Principal
life = record {
  state = suspended;
  epoch = 4;
  operations = some 0;
  principal = ada;
  limits = counts;
  peer_limits = counts;
  client_side = false;
  terminal = normal;
  canceled = false;
}

abbrev kept : SessionRecord
kept = record {
  id = 7;
  owner = north;
  group_key = "";
  resume_hash = 99 ∷ [];
  peer_control_bytes = pos 100;
  life = life;
}

abbrev tables : Server
tables = record {
  max_sessions = 2;
  max_active_groups = 1;
  max_group_key_bytes = 8;
  terminal_ttl = pos 5;
  sessions = (7, 0) ∷ [];
  terminals = [];
  terminal_timer = none;
  made = [];
  groups = [];
  draining = false;
}

abbrev host : ServerEndpoint
host = record { tables = tables; records = kept ∷ [] }

abbrev client : ClientEndpoint
client = record {
  role = game_role;
  app = chess;
  limits = limits;
  id = 7;
  owner = north;
  resume_secret = "secret";
  peer_control_bytes = pos 100;
  life = record life { client_side = true };
  resume_grace = 60_000_000;
  closed = false;
}

abbrev credential : CredentialMessage
credential = record { scheme = "token"; content = "" }

abbrev hello : HelloMessage
hello = resume_hello go credential client

abbrev digest : List ℕ
digest = 99 ∷ []

abbrev resumed : ServerEndpoint
resumed = record host { records = take_over 1 ada kept ∷ [] }

found :
    find_resume go config 5 5 hello (resume_message go client) ada host
    ≡ (host, accepts (0, kept, digest))
unfolding find_resume resume_request authorize_resume resume_hello resume_message format_id
    parse_session_id lookup_session expire_terminals schedule_terminal_expiry lookup
found = refl

committed : commit_resume 6 1 hello ada 0 digest host ≡ (resumed, accepts 5)
unfolding commit_resume group_ended refuses_resume same_limits resume_hello
committed = refl

-- Another secret, or another principal, does not resume it.
stranger : commit_resume 6 1 hello ada 0 (98 ∷ []) host ≡ (host, rejects unauthenticated)
unfolding commit_resume group_ended refuses_resume same_limits resume_hello
stranger = refl

eve :
    commit_resume 6 1 hello (record ada { subject = "eve" }) 0 digest host
    ≡ (host, rejects unauthenticated)
unfolding commit_resume group_ended refuses_resume same_limits resume_hello
eve = refl

commit_resume-IsProven_example : Commits 6 1 hello ada 0 digest host
commit_resume-IsProven_example = commit_resume-IsProven 6 1 hello ada 0 digest host

resume-IsProven_example :
    (secret : List ℕ) × (s : SessionRecord) × (go.decode_base64 "secret" ≡ some secret)
    × (length secret ≡ 32)
    × (get_elem? host.records 0 ≡ some s)
    × IsProven 6 hello ada (go.sha256 secret) host s
unfolding resume_message
resume-IsProven_example =
    resume-IsProven go config 5 5 6 1 hello (resume_message go client) ada host host host resumed 0
      5 kept digest found committed

abbrev paired : IsPaired go config limits (bytes_of 32 99) client kept
paired = record {
  game = refl;
  game_client = refl;
  id = refl;
  bounded_id = omega arith;
  owner = refl;
  bounded_incarnation = omega arith;
  decoded = refl;
  long = refl;
  hash = refl;
  own_limits = refl;
  peer_control = refl;
  peer_limits = refl;
  valid = unfold validate_limit_message not_positive in refl;
  issuer = refl;
  subject = refl;
  not_ahead = omega arith;
  unclosed = refl;
  unclosed_client = refl;
  running = refl;
}

abbrev seen : ServerEndpoint
seen = record host { tables = (lookup_session 5 5 7 tables).0 }

resume-agrees_example :
    (find_resume go config 5 5 hello (resume_message go client) ada host
      ≡ (seen, accepts (0, kept, digest)))
    × (commit_resume 5 1 hello ada 0 digest seen
        ≡ (record seen { records = set host.records 0 (take_over 1 ada kept) }, accepts 5))
    × (check_welcome go 6 true client (resume_welcome go north limits 60_000_000 7 ada 5) ≡ normal)
    × ((c' : ClientEndpoint) × (attach_resume go 6 1
            (resume_welcome go north limits 60_000_000 7 ada 5)
            client
          ≡ (c', normal))
        × (c'.life.epoch ≡ (take_over 1 ada kept).life.epoch)
        × (c'.life.state ≡ active))
resume-agrees_example =
    resume-agrees go config limits (bytes_of 32 99) client kept credential 5 5 6 1 0 60_000_000 ada
      host laws paired (unfold lookup in refl) refl (unfold authorize_resume in refl)
      (unfold group_ended in refl) (omega arith) (omega arith) refl refl (omega arith) (omega arith)

abbrev refuse_all : String → List ℕ → Option Principal
refuse_all scheme bytes = none

abbrev after : ServerEndpoint
after = (commit_resume 6 1 hello ada 0 digest host).0

abbrev lost : ServerEndpoint
lost = change_life 0 (λ s. (suspend_if_current s 1).0) after

abbrev calls : Run go refuse_all host lost
calls =
    runs host after lost (resumes 6 1 0 hello ada digest host)
      (runs after lost lost (suspends 0 1 after) (stops lost))

run-IsSame_example : (r' : SessionRecord) × (get_elem? lost.records 0 ≡ some r') × IsSame kept r'
run-IsSame_example = run-IsSame go refuse_all host lost 0 kept calls refl
