-- ===== src/Chat/Events.antt =====
-- `ClientEvent` and `parse_client_event` of server/src/chat/service.rs, with the errors of
-- server/src/chat/error.rs. The decoder of prost is a parameter.
use month_erdmko_de.Base.{
  ℕ, ◌≡◌, refl, sym, ap, ◌∙◌, Option, none, some, List, [], ◌∷◌, String, if◌then◌else◌,
}
use month_erdmko_de.Base.Int.{ℤ}
use month_erdmko_de.Base.Text.{Str, is_empty}
use month_erdmko_de.Base.Result.{Result, ok, err}

pub data ChatErrorKind : Type 0 where
  validation bad_payload internal : ChatErrorKind

pub record ChatError : Type 0 where
  pub kind : ChatErrorKind
  pub code : String
  pub message : String
  pub details : Option String

abbrev pub bad_payload_error : String → ChatError
bad_payload_error message = record {
  kind = bad_payload;
  code = "BAD_PAYLOAD";
  message = message;
  details = none;
}

-- The messages of a client frame, as the contract in contracts/chat has them: the request id, which is
-- empty if there is none, and the other fields.
pub data Payload : Type 0 where
  join_msg message_msg : Str → Str → Payload
  delete_msg : Str → ℤ → Payload
  upload_start_msg : Str → ℤ → Str → ℕ → Str → Payload
  upload_end_msg : Str → ℕ → Payload
  download_request_msg : Str → ℤ → Payload
  upload_chunk_msg : ℕ → ℕ → List ℕ → Payload
  voice_join_msg voice_leave_msg : Str → Payload
  voice_offer_msg : Str → Str → Payload
  voice_ice_msg : Str → Str → Str → ℕ → Payload

pub data ClientEvent : Type 0 where
  join message : Option Str → Str → ClientEvent
  delete : Option Str → ℤ → ClientEvent
  upload_start : Option Str → ℤ → Str → ℕ → Str → ClientEvent
  upload_end : Option Str → ℕ → ClientEvent
  download_request : Option Str → ℤ → ClientEvent
  upload_chunk : ℕ → ℕ → List ℕ → ClientEvent
  voice_join voice_leave : Option Str → ClientEvent
  voice_offer : Option Str → Str → ClientEvent
  voice_ice : Option Str → Str → Str → ℕ → ClientEvent

unfoldable pub opt_string : Str → Option Str
opt_string s = if is_empty s then none else some s

unfoldable pub event_of : Payload → ClientEvent
event_of (join_msg r nickname) = join (opt_string r) nickname
event_of (message_msg r body) = message (opt_string r) body
event_of (delete_msg r id) = delete (opt_string r) id
event_of (upload_start_msg r id filename size mime_type) =
    upload_start (opt_string r) id filename size mime_type
event_of (upload_end_msg r id) = upload_end (opt_string r) id
event_of (download_request_msg r id) = download_request (opt_string r) id
event_of (upload_chunk_msg id index bytes) = upload_chunk id index bytes
event_of (voice_join_msg r) = voice_join (opt_string r)
event_of (voice_leave_msg r) = voice_leave (opt_string r)
event_of (voice_offer_msg r sdp) = voice_offer (opt_string r) sdp
event_of (voice_ice_msg r candidate mid idx) = voice_ice (opt_string r) candidate mid idx

-- A decoded frame may hold no payload.
unfoldable pub event_of_frame : Option (Option Payload) → Result ChatError ClientEvent
unfolding event_of
event_of_frame none = err (bad_payload_error "Malformed client frame.")
event_of_frame (some none) = err (bad_payload_error "Empty client frame.")
event_of_frame (some (some p)) = ok (event_of p)

unfoldable pub parse_client_event :
    (List ℕ → Option (Option Payload)) → List ℕ → Result ChatError ClientEvent
unfolding event_of_frame
parse_client_event decode buf = event_of_frame (decode buf)

abbrev text_of : Option Str → Str
text_of none = []
text_of (some s) = s

-- The message that a client sends for an event.
unfoldable pub payload_of : ClientEvent → Payload
payload_of (join r nickname) = join_msg (text_of r) nickname
payload_of (message r body) = message_msg (text_of r) body
payload_of (delete r id) = delete_msg (text_of r) id
payload_of (upload_start r id filename size mime_type) =
    upload_start_msg (text_of r) id filename size mime_type
payload_of (upload_end r id) = upload_end_msg (text_of r) id
payload_of (download_request r id) = download_request_msg (text_of r) id
payload_of (upload_chunk id index bytes) = upload_chunk_msg id index bytes
payload_of (voice_join r) = voice_join_msg (text_of r)
payload_of (voice_leave r) = voice_leave_msg (text_of r)
payload_of (voice_offer r sdp) = voice_offer_msg (text_of r) sdp
payload_of (voice_ice r candidate mid idx) = voice_ice_msg (text_of r) candidate mid idx

text-opt_string : (s : Str) → text_of (opt_string s) ≡ s
unfolding opt_string is_empty
text-opt_string [] = refl
text-opt_string (c ∷ s) = refl

payload_of-event_of : (p : Payload) → payload_of (event_of p) ≡ p
unfolding payload_of event_of
payload_of-event_of (join_msg r n) = ap (λ s. join_msg s n) (text-opt_string r)
payload_of-event_of (message_msg r b) = ap (λ s. message_msg s b) (text-opt_string r)
payload_of-event_of (delete_msg r i) = ap (λ s. delete_msg s i) (text-opt_string r)
payload_of-event_of (upload_start_msg r i f n t) =
    ap (λ s. upload_start_msg s i f n t) (text-opt_string r)
payload_of-event_of (upload_end_msg r i) = ap (λ s. upload_end_msg s i) (text-opt_string r)
payload_of-event_of (download_request_msg r i) =
    ap (λ s. download_request_msg s i) (text-opt_string r)
payload_of-event_of (upload_chunk_msg i n b) = refl
payload_of-event_of (voice_join_msg r) = ap voice_join_msg (text-opt_string r)
payload_of-event_of (voice_leave_msg r) = ap voice_leave_msg (text-opt_string r)
payload_of-event_of (voice_offer_msg r d) = ap (λ s. voice_offer_msg s d) (text-opt_string r)
payload_of-event_of (voice_ice_msg r c m i) = ap (λ s. voice_ice_msg s c m i) (text-opt_string r)

frame-payload_of :
    (f : Option (Option Payload)) (e : ClientEvent)
    → event_of_frame f ≡ ok e
    → f ≡ some (some (payload_of e))
unfolding event_of_frame
frame-payload_of none e h = cc
frame-payload_of (some none) e h = cc
frame-payload_of (some (some p)) e h =
    let same : event_of p ≡ e = cc in
    ap (λ q. some (some q)) (sym (payload_of-event_of p) ∙ ap payload_of same)

-- The event that `parse_client_event` returns determines the message it was decoded from: no field is
-- lost or exchanged, and no two messages give one event.
pub parse_client_event-payload_of :
    (decode : List ℕ → Option (Option Payload)) (buf : List ℕ) (e : ClientEvent)
    → parse_client_event decode buf ≡ ok e
    → decode buf ≡ some (some (payload_of e))
unfolding parse_client_event
parse_client_event-payload_of decode buf e h = frame-payload_of (decode buf) e h
