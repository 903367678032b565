-- ===== src/Attachments/Uploads/Invariant.antt =====
-- What holds of an upload session between calls.
use month_erdmko_de.Base.{
  ℕ, ◌+◌, ◌^◌, ◌≤◌, ◌<◌, ◌≡◌, refl, inl, inr, Bool, false, not, Option, none, some, List, [], ◌∷◌,
  ◌++◌, map, length, arith, ltb, leb, ◌==◌, All, Bool-cases, Option-cases, if_both, sym, ◌∙◌,
}
use month_erdmko_de.Base.Int.{ℤ}
use month_erdmko_de.Base.Text.{Str}
use month_erdmko_de.Base.Rows.{find_row, retain, has_row, has_row-retain, length-retain, retain-All}
use month_erdmko_de.Attachments.Uploads.{
  Bytes, PendingUpload, UploadSessionState, Clock, total_len, accumulated_size, has_key, remove,
  set_entry, with_chunk, is_live, is_expired, purge_expired, open_upload, start_upload, push_chunk,
  add_chunk, take_upload, finish_upload, max_pending_uploads_per_session, new_session,
}

-- An entry stands under its own id and holds no more than was announced.
abbrev pub IsValidEntry : ℕ × PendingUpload → Type 0
IsValidEntry e = (e.0 ≡ e.1.upload_id) × (accumulated_size e.1 ≤ e.1.size)

abbrev pub KeysDistinct : List (ℕ × PendingUpload) → Type 0
KeysDistinct [] = Unit
KeysDistinct (e ∷ es) = (has_row (has_key e.0) es ≡ false) × KeysDistinct es

pub record IsValid (s : UploadSessionState) : Type 0 where
  pub few : length s.pending ≤ max_pending_uploads_per_session
  pub keys : KeysDistinct s.pending
  pub entries : All IsValidEntry s.pending
  pub next_positive : 0 < s.next_id
  pub next_u32 : s.next_id < 2 ^ 32

total_len-append :
    (cs : List Bytes) (c : Bytes) → total_len (cs ++ (c ∷ [])) ≡ total_len cs + length c
total_len-append [] c = omega arith
total_len-append (d ∷ cs) c = omega (arith, total_len-append cs c)

KeysDistinct-retain :
    (q : ℕ × PendingUpload → Bool) (es : List (ℕ × PendingUpload))
    → KeysDistinct es
    → KeysDistinct (retain q es)
KeysDistinct-retain q [] h = tt
KeysDistinct-retain q (e ∷ es) h =
    ground (arith, KeysDistinct-retain q es h.1, has_row-retain (has_key e.0) q es h.0)

pub has_key-remove :
    (k : ℕ) (es : List (ℕ × PendingUpload)) → has_row (has_key k) (remove k es) ≡ false
has_key-remove k [] = refl
has_key-remove k (e ∷ es) = ground (arith, has_key-remove k es)

has_key-set :
    (j k : ℕ) (p : PendingUpload) (es : List (ℕ × PendingUpload))
    → has_row (has_key j) (map (set_entry k p) es) ≡ has_row (has_key j) es
has_key-set j k p [] = refl
has_key-set j k p (e ∷ es) = ground (arith, has_key-set j k p es)

KeysDistinct-set :
    (k : ℕ) (p : PendingUpload) (es : List (ℕ × PendingUpload))
    → KeysDistinct es
    → KeysDistinct (map (set_entry k p) es)
KeysDistinct-set k p [] h = tt
KeysDistinct-set k p (e ∷ es) h =
    ground (arith, has_key-set e.0 k p es, KeysDistinct-set k p es h.1)

length-set :
    (k : ℕ) (p : PendingUpload) (es : List (ℕ × PendingUpload))
    → length (map (set_entry k p) es) ≡ length es
length-set k p [] = refl
length-set k p (e ∷ es) = omega (arith, length-set k p es)

entries-set :
    (k : ℕ) (p : PendingUpload) (es : List (ℕ × PendingUpload))
    → IsValidEntry (k, p)
    → All IsValidEntry es
    → All IsValidEntry (map (set_entry k p) es)
entries-set k p [] v h = tt
entries-set k p (e ∷ es) v h = ground (arith, entries-set k p es v h.1)

-- An entry that is found is valid and stands under the key.
pub find-IsValid :
    (k : ℕ) (es : List (ℕ × PendingUpload)) (e : ℕ × PendingUpload)
    → All IsValidEntry es
    → find_row (has_key k) es ≡ some e
    → IsValidEntry e × (e.0 ≡ k)
find-IsValid k [] e h f = cc
find-IsValid k (d ∷ es) e h f = ground (arith, find-IsValid k es e h.1)

retain-IsValid :
    (q : ℕ × PendingUpload → Bool) (s : UploadSessionState)
    → IsValid s
    → IsValid (record s { pending = retain q s.pending })
retain-IsValid q s h = record {
  few = omega (arith, h.few, length-retain q s.pending);
  keys = KeysDistinct-retain q s.pending h.keys;
  entries = retain-All IsValidEntry q s.pending h.entries;
  next_positive = h.next_positive;
  next_u32 = h.next_u32;
}

set-IsValid :
    (k : ℕ) (p : PendingUpload) (s : UploadSessionState)
    → IsValid s
    → IsValidEntry (k, p)
    → IsValid (record s { pending = map (set_entry k p) s.pending })
set-IsValid k p s h v = record {
  few = omega (arith, h.few, length-set k p s.pending);
  keys = KeysDistinct-set k p s.pending h.keys;
  entries = entries-set k p s.pending v h.entries;
  next_positive = h.next_positive;
  next_u32 = h.next_u32;
}

room : (n : ℕ) → leb max_pending_uploads_per_session n ≡ false → n < 3
room n h = ground arith

open_upload-IsValid :
    (clock : Clock) (m : ℤ) (f : Str) (n : ℕ) (t : Str) (s : UploadSessionState)
    → IsValid s
    → IsValid (open_upload clock m f n t s).1
unfolding open_upload
open_upload-IsValid clock m f n t s h =
    elim (Bool-cases (leb max_pending_uploads_per_session (length s.pending))) [
      | inl full ↦ rw full h
      | inr free ↦ rw free (record {
        few = omega (arith, room _ free, length-retain (λ e. not (has_key s.next_id e)) s.pending);
        keys = (
          has_key-remove s.next_id s.pending,
          KeysDistinct-retain (λ e. not (has_key s.next_id e)) s.pending h.keys,
        );
        entries = (
          (refl, omega arith),
          retain-All IsValidEntry (λ e. not (has_key s.next_id e)) s.pending h.entries,
        );
        next_positive = omega arith;
        next_u32 = omega arith;
      })
    ]

chunk_fits :
    (cs : List Bytes) (b : Bytes) (n : ℕ)
    → ltb n (total_len cs + length b) ≡ false
    → total_len (cs ++ (b ∷ [])) ≤ n
chunk_fits cs b n h = ground (arith, total_len-append cs b)

-- The state behind a result is valid.
abbrev Kept {ℓ} : {A : Type ℓ} → A × UploadSessionState → Type 0
Kept r = IsValid r.1

push_chunk-IsValid :
    (clock : Clock) (k i : ℕ) (b : Bytes) (s : UploadSessionState) (e : ℕ × PendingUpload)
    → IsValid s
    → find_row (has_key k) s.pending ≡ some e
    → IsValid (push_chunk clock k i b s (some e)).1
unfolding push_chunk
push_chunk-IsValid clock k i b s e h found =
    let (own, at) = find-IsValid k s.pending e h.entries found in
    if_both Kept (is_expired clock.check e.1) _ _
      (λ expired. retain-IsValid (λ d. not (has_key k d)) s h)
      (λ live.
        if_both Kept (not (i == e.1.next_index)) _ _ (λ disordered. h)
          (λ ordered.
            if_both Kept (ltb e.1.size (accumulated_size e.1 + length b)) _ _ (λ large. h)
              (λ fits.
                set-IsValid k (with_chunk clock b e.1) s h
                  (sym at ∙ own.0, chunk_fits e.1.chunks b e.1.size fits))))

take_upload-IsValid :
    (clock : Clock) (k : ℕ) (s : UploadSessionState) (o : Option (ℕ × PendingUpload))
    → IsValid s
    → IsValid (take_upload clock k s o).1
unfolding take_upload
take_upload-IsValid clock k s none h = h
take_upload-IsValid clock k s (some e) h =
    if_both Kept (is_expired clock.check e.1) _ _
      (λ expired. retain-IsValid (λ d. not (has_key k d)) s h)
      (λ live.
        if_both Kept (not (accumulated_size e.1 == e.1.size)) _ _ (λ incomplete. h)
          (λ complete. retain-IsValid (λ d. not (has_key k d)) s h))

-- The calls on one session, with the readings of the clock.
pub data Call : Type 0 where
  start : Clock → ℤ → Str → ℕ → Str → Call
  chunk : Clock → ℕ → ℕ → Bytes → Call
  finish : Clock → ℕ → Call

unfoldable pub step : Call → UploadSessionState → UploadSessionState
step (start clock m f n t) s = (start_upload clock m f n t s).1
step (chunk clock k i b) s = (add_chunk clock k i b s).1
step (finish clock k) s = (finish_upload clock k s).1

unfoldable pub run_calls : List Call → UploadSessionState → UploadSessionState
run_calls [] s = s
run_calls (c ∷ cs) s = run_calls cs (step c s)

chunk-IsValid :
    (clock : Clock) (k i : ℕ) (b : Bytes) (s : UploadSessionState)
    → IsValid s
    → IsValid (push_chunk clock k i b s (find_row (has_key k) s.pending)).1
chunk-IsValid clock k i b s h = elim (Option-cases (find_row (has_key k) s.pending)) [
  | inl absent ↦ rw absent (unfold push_chunk in h)
  | inr (e, found) ↦ rw found (push_chunk-IsValid clock k i b s e h found)
]

step-IsValid : (c : Call) (s : UploadSessionState) → IsValid s → IsValid (step c s)
unfolding step start_upload add_chunk finish_upload purge_expired
step-IsValid (start clock m f n t) s h =
    open_upload-IsValid clock m f n t _ (retain-IsValid (is_live clock) s h)
step-IsValid (chunk clock k i b) s h =
    chunk-IsValid clock k i b _ (retain-IsValid (is_live clock) s h)
step-IsValid (finish clock k) s h =
    take_upload-IsValid clock k _ _ (retain-IsValid (is_live clock) s h)

-- Whatever calls a session gets, at whatever times: it has at most three pending uploads, under
-- different ids, each under its own id and with no more bytes than were announced for it, and the next
-- id is a positive 32-bit number. A new session satisfies this (`new_session-IsValid`).
pub run_calls-IsValid :
    (cs : List Call) (s : UploadSessionState) → IsValid s → IsValid (run_calls cs s)
unfolding run_calls
run_calls-IsValid [] s h = h
run_calls-IsValid (c ∷ cs) s h = run_calls-IsValid cs (step c s) (step-IsValid c s h)

pub new_session-IsValid : IsValid new_session
new_session-IsValid = record {
  few = omega arith;
  keys = tt;
  entries = tt;
  next_positive = omega arith;
  next_u32 = omega arith;
}
