-- ===== src/Attachments/Uploads/Progress.antt =====
-- A file that is sent in order and in time arrives.
use month_erdmko_de.Base.{
  ℕ, ◌+◌, ◌-◌, ◌^◌, ◌≤◌, ◌<◌, ◌≡◌, refl, sym, ap, ◌∙◌, Bool, true, some, List, [], ◌∷◌, ◌++◌, map,
  length, arith,
}
use month_erdmko_de.Base.Int.{ℤ}
use month_erdmko_de.Base.Text.{Str}
use month_erdmko_de.Base.Result.{ok}
use month_erdmko_de.Base.Rows.{find_row, retain}
use month_erdmko_de.Attachments.Uploads.{
  Bytes, PendingUpload, UploadSessionState, Clock, total_len, has_key, set_entry,
  pending_upload_ttl, with_chunk, new_upload, is_live, purge_expired, open_upload, start_upload,
  push_chunk, add_chunk, take_upload, finish_upload, max_pending_uploads_per_session,
}

find-retain :
    {A : Type 0} (p q : A → Bool) (xs : List A) (x : A)
    → find_row p xs ≡ some x
    → q x ≡ true
    → find_row p (retain q xs) ≡ some x
find-retain p q [] x h k = cc
find-retain p q (y ∷ ys) x h k = ground (arith, find-retain p q ys x)

find-set :
    (k : ℕ) (p p' : PendingUpload) (es : List (ℕ × PendingUpload))
    → find_row (has_key k) es ≡ some (k, p)
    → find_row (has_key k) (map (set_entry k p') es) ≡ some (k, p')
find-set k p p' [] h = cc
find-set k p p' (e ∷ es) h = ground (arith, find-set k p p' es)

-- The session holds the upload p under k.
abbrev Holding : ℕ → PendingUpload → UploadSessionState → Type 0
Holding k p s = find_row (has_key k) s.pending ≡ some (k, p)

-- The clock is read within the time to live after `last`.
abbrev pub InTime : ℕ → ℕ → Clock → Type 0
InTime k last c = (c.sweep k - last ≤ pending_upload_ttl) × (c.check - last ≤ pending_upload_ttl)

purge-Holding :
    (c : Clock) (k : ℕ) (p : PendingUpload) (s : UploadSessionState)
    → Holding k p s
    → InTime k p.last_activity c
    → Holding k p (purge_expired c s)
unfolding purge_expired
purge-Holding c k p s h t = find-retain (has_key k) (is_live c) s.pending (k, p) h (ground arith)

push_chunk-live :
    (c : Clock) (k i : ℕ) (b : Bytes) (p : PendingUpload) (s : UploadSessionState)
    → InTime k p.last_activity c
    → i ≡ p.next_index
    → total_len p.chunks + length b ≤ p.size
    → push_chunk c k i b s (some (k, p))
      ≡ (ok tt, record s { pending = map (set_entry k (with_chunk c b p)) s.pending })
unfolding push_chunk
push_chunk-live c k i b p s t at fits = ground arith

add_chunk-live :
    (c : Clock) (k i : ℕ) (b : Bytes) (p : PendingUpload) (s : UploadSessionState)
    → Holding k p s
    → InTime k p.last_activity c
    → i ≡ p.next_index
    → total_len p.chunks + length b ≤ p.size
    → Holding k (with_chunk c b p) (add_chunk c k i b s).1
unfolding add_chunk
add_chunk-live c k i b p s h t at fits =
    let held = purge-Holding c k p s h t in
    rw (held, push_chunk-live c k i b p (purge_expired c s) t at fits)
      (find-set k p (with_chunk c b p) (purge_expired c s).pending held)

-- The chunks in order, from index i, each with the readings of its call.
unfoldable pub send : ℕ → ℕ → List (Clock × Bytes) → UploadSessionState → UploadSessionState
send k i [] s = s
send k i (x ∷ xs) s = send k (i + 1) xs (add_chunk x.0 k i x.1 s).1

-- Each call comes in time after the one before, and so does `final` at the end.
abbrev pub Prompt : ℕ → ℕ → List (Clock × Bytes) → Clock → Type 0
Prompt k last [] final = InTime k last final
Prompt k last (x ∷ xs) final = InTime k last x.0 × Prompt k x.0.stamp xs final

abbrev pub chunks_of_calls : List (Clock × Bytes) → List Bytes
chunks_of_calls [] = []
chunks_of_calls (x ∷ xs) = x.1 ∷ chunks_of_calls xs

-- The upload q is p with these chunks behind its own.
abbrev pub IsFilled : PendingUpload → List Bytes → PendingUpload → Type 0
IsFilled p bs q =
    (q.chunks ≡ p.chunks ++ bs)
    × ((q.upload_id ≡ p.upload_id)
        × (q.message_id ≡ p.message_id)
        × (q.filename ≡ p.filename)
        × (q.size ≡ p.size)
        × (q.mime_type ≡ p.mime_type))

finish-live :
    (c : Clock) (k : ℕ) (p : PendingUpload) (s : UploadSessionState)
    → Holding k p s
    → InTime k p.last_activity c
    → total_len p.chunks ≡ p.size
    → (finish_upload c k s).0 ≡ ok p
unfolding finish_upload take_upload
finish-live c k p s h t full = rw (purge-Holding c k p s h t) (ground arith)

append_nil : (cs : List Bytes) → cs ++ [] ≡ cs
append_nil [] = refl
append_nil (c ∷ cs) = ap (λ r. c ∷ r) (append_nil cs)

append_assoc : (ds bs cs : List Bytes) → (ds ++ bs) ++ cs ≡ ds ++ (bs ++ cs)
append_assoc [] bs cs = refl
append_assoc (d ∷ ds) bs cs = ap (λ r. d ∷ r) (append_assoc ds bs cs)

total_len-append_one :
    (ds : List Bytes) (b : Bytes) → total_len (ds ++ (b ∷ [])) ≡ total_len ds + length b
total_len-append_one [] b = omega arith
total_len-append_one (d ∷ ds) b = omega (arith, total_len-append_one ds b)

send-finish :
    (k i : ℕ) (xs : List (Clock × Bytes)) (final : Clock) (p : PendingUpload)
    (s : UploadSessionState)
    → Holding k p s
    → Prompt k p.last_activity xs final
    → i ≡ p.next_index
    → i + length xs < 2 ^ 32
    → total_len p.chunks + total_len (chunks_of_calls xs) ≡ p.size
    → (q : PendingUpload) × ((finish_upload final k (send k i xs s)).0 ≡ ok q)
      × IsFilled p (chunks_of_calls xs) q
unfolding send
send-finish k i [] final p s h t at below full = (
  p,
  finish-live final k p s h t (omega arith),
  (sym (append_nil p.chunks), (refl, refl, refl, refl, refl)),
)
send-finish k i (x ∷ xs) final p s h (t, ts) at below full =
    let (q, done, (chunks, same)) =
      send-finish k (i + 1) xs final (with_chunk x.0 x.1 p) (add_chunk x.0 k i x.1 s).1
        (add_chunk-live x.0 k i x.1 p s h t at (omega arith)) ts (omega arith) (omega arith)
        (omega (arith, total_len-append_one p.chunks x.1)) in
    (q, done, (chunks ∙ append_assoc p.chunks (x.1 ∷ []) (chunks_of_calls xs), same))

start_upload-opens :
    (c : Clock) (m : ℤ) (f : Str) (n : ℕ) (t : Str) (s : UploadSessionState)
    → length (purge_expired c s).pending < max_pending_uploads_per_session
    → ((start_upload c m f n t s).0 ≡ ok s.next_id)
      × Holding s.next_id (new_upload c s.next_id m f n t) (start_upload c m f n t s).1
unfolding start_upload open_upload purge_expired
start_upload-opens c m f n t s few = ground arith

-- Upload round trip. A file that is announced with its size, then sent in order in chunks of that size
-- in all, and finished, is handed over with exactly these chunks and the announced name, type and
-- message. It is assumed that fewer than three uploads of the session are live at the start, that
-- there are fewer than 2^32 chunks, and that no call comes later than the time to live after the one
-- before.
pub upload-finish :
    (c final : Clock) (m : ℤ) (f t : Str) (xs : List (Clock × Bytes)) (s : UploadSessionState)
    → length (purge_expired c s).pending < max_pending_uploads_per_session
    → length xs < 2 ^ 32
    → Prompt s.next_id c.stamp xs final
    → let n = total_len (chunks_of_calls xs) in
      let started = start_upload c m f n t s in
      (started.0 ≡ ok s.next_id)
      × ((q : PendingUpload) × ((finish_upload final s.next_id (send s.next_id 0 xs started.1)).0
            ≡ ok q)
          × IsFilled (new_upload c s.next_id m f n t) (chunks_of_calls xs) q)
upload-finish c final m f t xs s few short prompt =
    let n = total_len (chunks_of_calls xs) in
    let (done, held) = start_upload-opens c m f n t s few in
    (
      done,
      send-finish s.next_id 0 xs final (new_upload c s.next_id m f n t) (start_upload c m f n t s).1
          held prompt refl (omega arith) (omega arith),
    )
