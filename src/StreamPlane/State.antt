-- ===== src/StreamPlane/State.antt =====
-- The state of src/worker/stream_plane.rs: queued events, incoming streams, the maps of the plane,
-- its telemetry counters and how often it notified each of its three waiting lists.
use deno_director.Prelude.{ℕ, Bool, Option, none, some, List, [], ltb, if◌then◌else◌}
use deno_director.Prelude.Dict.{Dict}
use deno_director.Prelude.Text.{Text}

abbrev pub Bytes : Type 0
Bytes = List ℕ

pub data NativeStreamEvent : Type 0 where
  chunk : Bytes → NativeStreamEvent
  close : NativeStreamEvent
  error : Text → NativeStreamEvent

pub data NativeReadEvent : Type 0 where
  chunk : Bytes → NativeReadEvent
  close : NativeReadEvent
  error : Text → NativeReadEvent

pub record NativeIncomingStream : Type 0 where
  pub key : Text
  pub queue : List NativeStreamEvent
  pub native_active : Bool
  pub waiting_reader : Bool
  pub pending_credit : ℕ

pub record NativeIncomingPlaneInner : Type 0 where
  pub streams : Dict ℕ NativeIncomingStream
  pub key_to_id : Dict Text ℕ
  pub backlog : Dict Text ℕ
  pub pending_by_id : Dict ℕ (List NativeStreamEvent)

-- `enabled` is the environment flag, which is read once in a process.
pub record NativeStreamTelemetry : Type 0 where
  pub enabled : Bool
  pub chunk_count : ℕ
  pub chunk_bytes : ℕ
  pub wake_count : ℕ
  pub vectorized_push_count : ℕ

-- Each `…_notified` counts the calls of `notify_waiters` or `notify_all` on that list of waiters.
pub record NativeIncomingPlane : Type 0 where
  pub inner : NativeIncomingPlaneInner
  pub open inner use *
  pub cv_notified : ℕ
  pub accept_notified : ℕ
  pub read_notified : ℕ
  pub telemetry : NativeStreamTelemetry
  pub credit_flush_bytes : ℕ

pub record NativeReadReply : Type 0 where
  pub kind : Text
  pub chunk : Option Bytes
  pub message : Option Text

abbrev stream_credit_flush_default : ℕ
stream_credit_flush_default = 0x40000

unfoldable pub inner_new : NativeIncomingPlaneInner
inner_new = record { streams = []; key_to_id = []; backlog = []; pending_by_id = [] }

unfoldable pub telemetry_new : Bool → NativeStreamTelemetry
telemetry_new enabled = record {
  enabled = enabled;
  chunk_count = 0;
  chunk_bytes = 0;
  wake_count = 0;
  vectorized_push_count = 0;
}

flush_bytes : Option ℕ → ℕ
flush_bytes none = stream_credit_flush_default
flush_bytes (some v) = if ltb 0 v then v else stream_credit_flush_default

-- `NativeIncomingPlane::new`
unfoldable pub new : Bool → Option ℕ → NativeIncomingPlane
unfolding inner_new telemetry_new flush_bytes
new telemetry_enabled credit_flush_bytes = record {
  inner = inner_new;
  cv_notified = 0;
  accept_notified = 0;
  read_notified = 0;
  telemetry = telemetry_new telemetry_enabled;
  credit_flush_bytes = flush_bytes credit_flush_bytes;
}
