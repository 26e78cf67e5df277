-- ===== src/Endpoint/Budgets.antt =====
-- api.go: the limits of an endpoint, and normalizeLimits, which fills in the defaults and refuses
-- impossible ones. Go's int and int64 wrap round; durations are numbers of nanoseconds.
pub mod Accepted
mod Tests
use sgsp.Common.{
  ℕ, ◌+◌, ◌-◌, ◌*◌, ◌/◌, ◌%◌, ◌^◌, ltb, ◌==◌, not, List, [], ◌∷◌, ◌++◌, if◌then◌else◌, Bool, true,
  false, ◌&&◌, ◌||◌, Option, none, some,
}
use sgsp.Common.Int.{ℤ, pos, negsuc, to_u64, less, wrap_int}

pub record Limits : Type 0 where
  pub control_bytes : ℤ
  pub message_bytes : ℤ
  pub datagram_bytes : ℤ
  pub queue_bytes : ℤ
  pub queue_messages : ℤ
  pub reliable_channels : ℤ
  pub datagram_channels : ℤ
  pub requests : ℤ
  pub streams : ℤ
  pub max_sessions : ℤ
  pub max_pending_handshakes : ℤ
  pub global_application_bytes : ℤ
  pub auth_timeout : ℤ
  pub keep_alive : ℤ
  pub idle_timeout : ℤ
  pub close_timeout : ℤ
  pub resume_grace : ℤ
  pub slow_consumer_timeout : ℤ
  pub request_timeout : ℤ
  pub reconnect_min : ℤ
  pub reconnect_max : ℤ
  pub control_queue_bytes : ℤ
  pub control_queue_messages : ℤ
  pub stream_receive_window : ℕ
  pub connection_receive_window : ℕ
  pub pre_auth_bytes : ℤ
  pub max_active_groups : ℤ
  pub max_group_key_bytes : ℤ
  pub handshakes_per_ip_per_second : ℤ
  pub handshake_burst_per_ip : ℤ
  pub messages_per_session_per_second : ℤ
  pub message_burst_per_session : ℤ

abbrev milliseconds : ℕ → ℤ
milliseconds n = pos (n * 1_000_000)

abbrev pub default_limits : Limits
default_limits = record {
  control_bytes = pos 0x4000;
  message_bytes = pos 0x10000;
  datagram_bytes = pos 1000;
  queue_bytes = pos 0x40000;
  queue_messages = pos 256;
  reliable_channels = pos 16;
  datagram_channels = pos 64;
  requests = pos 32;
  streams = pos 8;
  max_sessions = pos 128;
  max_pending_handshakes = pos 64;
  global_application_bytes = pos 0x10000000;
  auth_timeout = milliseconds 5000;
  keep_alive = milliseconds 1000;
  idle_timeout = milliseconds 5000;
  close_timeout = milliseconds 1000;
  resume_grace = milliseconds 30000;
  slow_consumer_timeout = milliseconds 5000;
  request_timeout = milliseconds 5000;
  reconnect_min = milliseconds 250;
  reconnect_max = milliseconds 2000;
  control_queue_bytes = pos 0x10000;
  control_queue_messages = pos 16;
  stream_receive_window = 0x10000;
  connection_receive_window = 0x800000;
  pre_auth_bytes = pos 0x8000;
  max_active_groups = pos 10000;
  max_group_key_bytes = pos 256;
  handshakes_per_ip_per_second = pos 20;
  handshake_burst_per_ip = pos 40;
  messages_per_session_per_second = pos 2000;
  message_burst_per_session = pos 4000;
}

abbrev pub ints : Limits → List ℤ
ints l =
    l.control_bytes ∷ l.message_bytes ∷ l.datagram_bytes ∷ l.queue_bytes ∷ l.queue_messages
    ∷ l.reliable_channels ∷ l.datagram_channels ∷ l.requests ∷ l.streams ∷ l.max_sessions
    ∷ l.max_pending_handshakes ∷ l.control_queue_bytes ∷ l.control_queue_messages ∷ l.pre_auth_bytes
    ∷ l.max_active_groups ∷ l.max_group_key_bytes ∷ l.handshakes_per_ip_per_second
    ∷ l.handshake_burst_per_ip ∷ l.messages_per_session_per_second ∷ l.message_burst_per_session
    ∷ []

abbrev pub durations : Limits → List ℤ
durations l =
    l.auth_timeout ∷ l.keep_alive ∷ l.idle_timeout ∷ l.close_timeout ∷ l.resume_grace
    ∷ l.slow_consumer_timeout ∷ l.request_timeout ∷ l.reconnect_min ∷ l.reconnect_max ∷ []

abbrev pub is_zero : ℤ → Bool
is_zero (pos n) = n == 0
is_zero (negsuc n) = false

abbrev pub is_positive : ℤ → Bool
is_positive (pos n) = ltb 0 n
is_positive (negsuc n) = false

abbrev pub all_of : (ℤ → Bool) → List ℤ → Bool
all_of p [] = true
all_of p (i ∷ is) = p i && all_of p is

-- `limits == (Limits{})`
unfoldable pub is_unset : Limits → Bool
is_unset l =
    all_of is_zero (ints l ++ durations l ++ (l.global_application_bytes ∷ []))
    && l.stream_receive_window == 0
    && l.connection_receive_window == 0

-- `2*(limits.MessageBytes+32)`
abbrev pub two_messages : ℤ → ℤ
two_messages m = wrap_int (2 * (to_u64 m + 32))

-- `uint64(limits.ReliableChannels) + 2*(uint64(limits.Requests)+uint64(limits.Streams)) + 1`
abbrev pub stream_count : Limits → ℕ
stream_count l =
    (to_u64 l.reliable_channels + 2 * (to_u64 l.requests + to_u64 l.streams) + 1) % 2 ^ 64

abbrev pub fails_windows : Limits → Bool
fails_windows l =
    ltb ((2 ^ 64 - 1) / l.stream_receive_window) (stream_count l)
    || ltb l.connection_receive_window (stream_count l * l.stream_receive_window % 2 ^ 64)

abbrev pub fails_queue : Limits → Bool
fails_queue l =
    less l.queue_messages (pos 2)
    || less (pos (2 ^ 63 - 1 - 32)) l.message_bytes
    || less l.queue_bytes (two_messages l.message_bytes)

abbrev pub fails_basics : Limits → Bool
fails_basics l =
    less l.global_application_bytes (pos 1)
    || l.stream_receive_window == 0
    || l.connection_receive_window == 0
    || less l.reconnect_max l.reconnect_min

unfoldable pub normalize_limits : Limits → Option Limits
normalize_limits l =
    if is_unset l
    then some default_limits
    else if not (all_of is_positive (ints l))
    then none
    else if not (all_of is_positive (durations l))
    then none
    else if fails_basics l
    then none
    else if fails_queue l
    then none
    else if fails_windows l
    then none
    else some l
