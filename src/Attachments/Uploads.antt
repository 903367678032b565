-- ===== src/Attachments/Uploads.antt =====
-- `PendingUpload` and `UploadSessionState` of server/src/attachments/service.rs. A map from upload ids is
-- a list of entries. Every reading of the clock is an argument, in nanoseconds.
pub mod Invariant
pub mod Progress
use month_erdmko_de.Base.{
  ℕ, ◌+◌, ◌-◌, ◌*◌, ◌%◌, ◌^◌, Bool, not, Option, none, some, List, [], ◌∷◌, ◌++◌, map, String,
  length, max, ltb, leb, ◌==◌, if◌then◌else◌,
}
use month_erdmko_de.Base.Int.{ℤ}
use month_erdmko_de.Base.Text.{Str}
use month_erdmko_de.Base.Result.{Result, ok, err}
use month_erdmko_de.Base.Rows.{find_row, retain}

abbrev pub max_pending_uploads_per_session : ℕ
max_pending_uploads_per_session = 3

abbrev pub pending_upload_ttl : ℕ
pending_upload_ttl = 300 * 1000000000

abbrev pub Bytes : Type 0
Bytes = List ℕ

pub record PendingUpload : Type 0 where
  pub upload_id : ℕ
  pub message_id : ℤ
  pub filename : Str
  pub size : ℕ
  pub mime_type : Str
  pub chunks : List Bytes
  pub next_index : ℕ
  pub last_activity : ℕ

pub record UploadSessionState : Type 0 where
  pub pending : List (ℕ × PendingUpload)
  pub next_id : ℕ

-- The readings of one call: those of the sweep, by upload id, that of the second test, and the one
-- that is stored.
pub record Clock : Type 0 where
  pub sweep : ℕ → ℕ
  pub check : ℕ
  pub stamp : ℕ

-- `self.chunks.iter().map(|c| c.len()).sum()`
abbrev pub total_len : List Bytes → ℕ
total_len [] = 0
total_len (c ∷ cs) = length c + total_len cs

abbrev pub accumulated_size : PendingUpload → ℕ
accumulated_size p = total_len p.chunks

abbrev pub is_expired : ℕ → PendingUpload → Bool
is_expired now p = ltb pending_upload_ttl (now - p.last_activity)

abbrev pub has_key : ℕ → ℕ × PendingUpload → Bool
has_key id e = e.0 == id

-- `HashMap::remove`
abbrev pub remove : ℕ → List (ℕ × PendingUpload) → List (ℕ × PendingUpload)
remove id = retain (λ e. not (has_key id e))

abbrev pub set_entry : ℕ → PendingUpload → ℕ × PendingUpload → ℕ × PendingUpload
set_entry id p e = if has_key id e then (e.0, p) else e

abbrev pub new_session : UploadSessionState
new_session = record { pending = []; next_id = 1 }

abbrev pub is_live : Clock → ℕ × PendingUpload → Bool
is_live clock e = not (is_expired (clock.sweep e.0) e.1)

unfoldable pub purge_expired : Clock → UploadSessionState → UploadSessionState
purge_expired clock s = record s { pending = retain (is_live clock) s.pending }

abbrev pub new_upload : Clock → ℕ → ℤ → Str → ℕ → Str → PendingUpload
new_upload clock id message_id filename size mime_type = record {
  upload_id = id;
  message_id = message_id;
  filename = filename;
  size = size;
  mime_type = mime_type;
  chunks = [];
  next_index = 0;
  last_activity = clock.stamp;
}

-- What `start_upload` does once the sweep is over.
unfoldable pub open_upload :
    Clock → ℤ → Str → ℕ → Str → UploadSessionState → Result String ℕ × UploadSessionState
open_upload clock message_id filename size mime_type s =
    if leb max_pending_uploads_per_session (length s.pending)
    then (err "UPLOAD_LIMIT_EXCEEDED", s)
    else (
      ok s.next_id,
      record {
        pending =
            (s.next_id, new_upload clock s.next_id message_id filename size mime_type)
            ∷ remove s.next_id s.pending;
        next_id = max ((s.next_id + 1) % 2 ^ 32) 1;
      },
    )

unfoldable pub start_upload :
    Clock → ℤ → Str → ℕ → Str → UploadSessionState → Result String ℕ × UploadSessionState
start_upload clock message_id filename size mime_type s =
    open_upload clock message_id filename size mime_type (purge_expired clock s)

abbrev pub with_chunk : Clock → Bytes → PendingUpload → PendingUpload
with_chunk clock bytes p = record p {
  chunks = p.chunks ++ (bytes ∷ []);
  next_index = (p.next_index + 1) % 2 ^ 32;
  last_activity = clock.stamp;
}

-- What `add_chunk` does with the upload that it found.
unfoldable pub push_chunk :
    Clock
    → ℕ
    → ℕ
    → Bytes
    → UploadSessionState
    → Option (ℕ × PendingUpload)
    → Result String (Unit {0}) × UploadSessionState
push_chunk clock upload_id index bytes s none = (err "UPLOAD_NOT_FOUND", s)
push_chunk clock upload_id index bytes s (some (k, p)) =
    if is_expired clock.check p
    then (err "UPLOAD_EXPIRED", record s { pending = remove upload_id s.pending })
    else if not (index == p.next_index)
    then (err "UPLOAD_CHUNK_OUT_OF_ORDER", s)
    else if ltb p.size (accumulated_size p + length bytes)
    then (err "UPLOAD_TOO_LARGE", s)
    else (
      ok tt,
      record s { pending = map (set_entry upload_id (with_chunk clock bytes p)) s.pending },
    )

unfoldable pub add_chunk :
    Clock → ℕ → ℕ → Bytes → UploadSessionState → Result String (Unit {0}) × UploadSessionState
add_chunk clock upload_id index bytes s =
    let s' = purge_expired clock s in
    push_chunk clock upload_id index bytes s' (find_row (has_key upload_id) s'.pending)

-- What `finish_upload` does with the upload that it found.
unfoldable pub take_upload :
    Clock
    → ℕ
    → UploadSessionState
    → Option (ℕ × PendingUpload)
    → Result String PendingUpload × UploadSessionState
take_upload clock upload_id s none = (err "UPLOAD_NOT_FOUND", s)
take_upload clock upload_id s (some (k, p)) =
    if is_expired clock.check p
    then (err "UPLOAD_EXPIRED", record s { pending = remove upload_id s.pending })
    else if not (accumulated_size p == p.size)
    then (err "UPLOAD_INCOMPLETE", s)
    else (ok p, record s { pending = remove upload_id s.pending })

unfoldable pub finish_upload :
    Clock → ℕ → UploadSessionState → Result String PendingUpload × UploadSessionState
finish_upload clock upload_id s =
    let s' = purge_expired clock s in
    take_upload clock upload_id s' (find_row (has_key upload_id) s'.pending)
