-- ===== src/StreamOps.antt =====
-- The operations on incoming streams that scripts call (src/worker/ops.rs). A stream identifier is an
-- `i32`. An operation that waits is given what the rest of the process does to the plane between the
-- rounds of the plane's loop; it answers `none` while it still waits.
pub mod Agree
pub mod Delivery
use deno_director.Prelude.{
  ℕ, zero, suc, Bool, false, Option, none, some, List, [], ◌∷◌, ◌++◌, list_eq, nat_eq,
  if◌then◌else◌,
}
use deno_director.Prelude.Dict.{Dict, get, insert, remove, or_empty}
use deno_director.Prelude.Int.{ℤ, pos, negsuc}
use deno_director.Prelude.Text.{Text, codes, trim, is_empty, as_bytes}
use deno_director.StreamPlane.State.{Bytes, NativeReadEvent, NativeIncomingPlane}
use deno_director.StreamPlane
use deno_director.StreamPlane.Read.{read_poll_event, read_wait_event, accept_wait_round}

-- Chunks that were read and not yet taken. `poisoned` is the state of the lock.
pub record NativeReadScratch : Type 0 where
  pub chunks : Dict ℕ (List Bytes)
  pub poisoned : Bool

-- What an operation finds in `OpState`. The table of workers refers to the same plane: `listed` says
-- whether it does so for a worker with a context.
pub record OpState : Type 0 where
  pub plane : Option NativeIncomingPlane
  pub scratch : Option NativeReadScratch
  pub listed : Bool

-- The objects with `kind` and `message` that the operations answer.
pub record StreamReply : Type 0 where
  pub kind : Text
  pub message : Option Text

abbrev pub plain : Text → StreamReply
plain kind = record { kind = kind; message = none }

abbrev pub failed : Text → StreamReply
failed message = record { kind = codes "error"; message = some message }

abbrev pub invalid_id : Text
invalid_id = codes "Invalid native stream id"

abbrev pub missing_plane : Text
missing_plane = codes "Native stream plane missing in OpState"

-- `stream_id as u32` of a positive identifier.
abbrev pub positive : ℤ → Option ℕ
positive (pos zero) = none
positive (pos (suc n)) = some (suc n)
positive (negsuc n) = none

abbrev pub with_plane : OpState → NativeIncomingPlane → OpState
with_plane st p = record st { plane = some p }

mark_shared : Bool → NativeIncomingPlane → ℕ → NativeIncomingPlane
mark_shared listed p id = if listed then (StreamPlane.mark_native_active p id).0 else p

activate : Bool → NativeIncomingPlane → Option ℕ → NativeIncomingPlane
unfolding mark_shared
activate listed p none = p
activate listed p (some id) = mark_shared listed (StreamPlane.mark_native_active p id).0 id

accept_from : OpState → Option NativeIncomingPlane → Text → OpState × ℤ
unfolding activate
accept_from st none key = (st, negsuc 0)
accept_from st (some p) key =
    let (q, accepted) = StreamPlane.accept_poll p key in
    (with_plane st (activate st.listed q (positive accepted)), accepted)

unfoldable pub stream_accept : OpState → Text → OpState × ℤ
unfolding accept_from
stream_accept st key = if is_empty (trim key) then (st, negsuc 0) else accept_from st st.plane key

accept_again : OpState → Option NativeIncomingPlane → Text → OpState × Option ℤ
accept_again st none key = (st, some (negsuc 0))
accept_again st (some p) key =
    let (q, accepted) = accept_wait_round p key in (with_plane st q, accepted)

-- One round of the wait.
unfoldable pub stream_accept_async_round : OpState → Text → OpState × Option ℤ
unfolding accept_again
stream_accept_async_round st key =
    if is_empty (trim key) then (st, some (negsuc 0)) else accept_again st st.plane key

-- A chunk that was read waits for `stream_take_chunk`.
abbrev pub stored : Option NativeReadScratch → ℕ → Bytes → Option NativeReadScratch
stored none id chunk = none
stored (some s) id chunk = some (
    if s.poisoned
    then s
    else record s { chunks = insert s.chunks id (or_empty (get s.chunks id) ++ chunk ∷ []) })

abbrev pub store : OpState → ℕ → Bytes → OpState
store st id chunk = record st { scratch = stored st.scratch id chunk }

abbrev pub answer : OpState → ℕ → Option NativeReadEvent → OpState × StreamReply
answer st id (some (NativeReadEvent.chunk chunk)) = (store st id chunk, plain (codes "chunk"))
answer st id (some NativeReadEvent.close) = (st, plain (codes "close"))
answer st id (some (NativeReadEvent.error message)) = (st, failed message)
answer st id none = (st, plain (codes "none"))

abbrev pub read_from : OpState → ℕ → NativeIncomingPlane → OpState × StreamReply
read_from st id p =
    if StreamPlane.has_stream p id
    then (let (q, event) = read_poll_event p id in answer (with_plane st q) id event)
    else (st, plain (codes "close"))

abbrev pub read_with : OpState → Option ℕ → Option NativeIncomingPlane → OpState × StreamReply
read_with st none p = (st, failed invalid_id)
read_with st (some id) none = (st, failed missing_plane)
read_with st (some id) (some p) = read_from st id p

unfoldable pub stream_read : OpState → ℤ → OpState × StreamReply
stream_read st stream_id = read_with st (positive stream_id) st.plane

-- The first chunk that waits, and those behind it.
abbrev pub front : List Bytes → Bytes
front [] = []
front (chunk ∷ rest) = chunk

abbrev pub behind : Dict ℕ (List Bytes) → ℕ → List Bytes → Dict ℕ (List Bytes)
behind m id [] = remove m id
behind m id (chunk ∷ []) = remove m id
behind m id (chunk ∷ next ∷ rest) = insert m id (next ∷ rest)

abbrev pub take_from : OpState → ℕ → NativeReadScratch → Option (List Bytes) → OpState × Bytes
take_from st id s none = (st, [])
take_from st id s (some queue) =
    (record st { scratch = some (record s { chunks = behind s.chunks id queue }) }, front queue)

abbrev pub take_with : OpState → Option ℕ → Option NativeReadScratch → OpState × Bytes
take_with st none s = (st, [])
take_with st (some id) none = (st, [])
take_with st (some id) (some s) =
    if s.poisoned then (st, []) else take_from st id s (get s.chunks id)

unfoldable pub stream_take_chunk : OpState → ℤ → OpState × Bytes
stream_take_chunk st stream_id = take_with st (positive stream_id) st.scratch

-- The frames of the raw readers: a byte for the kind, and what belongs to it.
abbrev pub error_frame : Text → Bytes
error_frame message = 3 ∷ as_bytes message

abbrev pub frame : Option NativeReadEvent → Bytes
frame (some (NativeReadEvent.chunk chunk)) = 1 ∷ chunk
frame (some NativeReadEvent.close) = 2 ∷ []
frame (some (NativeReadEvent.error message)) = error_frame message
frame none = 0 ∷ []

abbrev pub read_raw_from : OpState → ℕ → NativeIncomingPlane → OpState × Bytes
read_raw_from st id p =
    if StreamPlane.has_stream p id
    then (let (q, event) = read_poll_event p id in (with_plane st q, frame event))
    else (st, 2 ∷ [])

abbrev pub read_raw_with : OpState → Option ℕ → Option NativeIncomingPlane → OpState × Bytes
read_raw_with st none p = (st, error_frame invalid_id)
read_raw_with st (some id) none = (st, error_frame missing_plane)
read_raw_with st (some id) (some p) = read_raw_from st id p

unfoldable pub stream_read_raw : OpState → ℤ → OpState × Bytes
stream_read_raw st stream_id = read_raw_with st (positive stream_id) st.plane

-- What the rest of the process does to the plane between two rounds.
abbrev pub Others : Type 0
Others = List (NativeIncomingPlane → NativeIncomingPlane)

answer_async : OpState → ℕ → Option NativeReadEvent → OpState × Option StreamReply
answer_async st id none = (st, none)
answer_async st id (some event) = let (st', reply) = answer st id (some event) in (st', some reply)

read_async_with :
    Others → OpState → Option ℕ → Option NativeIncomingPlane → OpState × Option StreamReply
unfolding answer_async
read_async_with others st none p = (st, some (failed invalid_id))
read_async_with others st (some id) none = (st, some (failed missing_plane))
read_async_with others st (some id) (some p) =
    let (q, event) = read_wait_event others p id in answer_async (with_plane st q) id event

unfoldable pub stream_read_async : Others → OpState → ℤ → OpState × Option StreamReply
unfolding read_async_with
stream_read_async others st stream_id = read_async_with others st (positive stream_id) st.plane

frame_async : Option NativeReadEvent → Option Bytes
frame_async none = none
frame_async (some event) = some (frame (some event))

read_async_raw_with :
    Others → OpState → Option ℕ → Option NativeIncomingPlane → OpState × Option Bytes
unfolding frame_async
read_async_raw_with others st none p = (st, some (error_frame invalid_id))
read_async_raw_with others st (some id) none = (st, some (error_frame missing_plane))
read_async_raw_with others st (some id) (some p) =
    let (q, event) = read_wait_event others p id in (with_plane st q, frame_async event)

unfoldable pub stream_read_async_raw : Others → OpState → ℤ → OpState × Option Bytes
unfolding read_async_raw_with
stream_read_async_raw others st stream_id =
    read_async_raw_with others st (positive stream_id) st.plane

discard_with : OpState → Option ℕ → Option NativeIncomingPlane → OpState × Bool
discard_with st id none = (st, false)
discard_with st none (some p) = (st, false)
discard_with st (some id) (some p) =
    let (q, done) = StreamPlane.discard p id in (with_plane st q, done)

unfoldable pub stream_discard : OpState → ℤ → OpState × Bool
unfolding discard_with
stream_discard st stream_id = discard_with st (positive stream_id) st.plane
