-- ===== src/Tests/Uploads.antt =====
-- The theorems on server/src/attachments/service.rs at concrete inputs.
use month_erdmko_de.Base.{ℕ, ◌≡◌, refl, List, [], ◌∷◌, arith, All}
use month_erdmko_de.Base.Int.{pos}
use month_erdmko_de.Base.Text.{codes}
use month_erdmko_de.Base.Result.{ok, err}
use month_erdmko_de.Attachments.Chunks.{
  attachment_chunk_size, IsChunk, concat, split_into_chunks, split_into_chunks-concat,
}
use month_erdmko_de.Attachments.Uploads.{
  Bytes, Clock, PendingUpload, new_session, new_upload, purge_expired, start_upload, open_upload,
  add_chunk, push_chunk, finish_upload,
}
use month_erdmko_de.Attachments.Uploads.Invariant.{
  Call, start, chunk, finish, IsValid, run_calls, run_calls-IsValid, new_session-IsValid,
}
use month_erdmko_de.Attachments.Uploads.Progress.{IsFilled, send, upload-finish}

-- Every reading of the call is `now`.
abbrev at : ℕ → Clock
at now = record { sweep = λ k. now; check = now; stamp = now }

abbrev file : List (Clock × Bytes)
file = (at 20, 1 ∷ 2 ∷ []) ∷ (at 30, 3 ∷ []) ∷ []

upload-finish_example :
    let started = start_upload (at 10) (pos 7) (codes "a.txt") 3 (codes "text/plain") new_session in
    (started.0 ≡ ok 1)
    × ((q : PendingUpload) × ((finish_upload (at 40) 1 (send 1 0 file started.1)).0 ≡ ok q)
        × IsFilled
            (new_upload (at 10) 1 (pos 7) (codes "a.txt") 3 (codes "text/plain"))
            ((1 ∷ 2 ∷ []) ∷ (3 ∷ []) ∷ [])
            q)
upload-finish_example =
    upload-finish (at 10) (at 40) (pos 7) (codes "a.txt") (codes "text/plain") file new_session
      (unfold purge_expired in omega arith) (omega arith)
      ((omega arith, omega arith), ((omega arith, omega arith), (omega arith, omega arith)))

-- A chunk too many is refused.
too_large :
    (add_chunk
      (at 20)
      1
      0
      (1 ∷ 2 ∷ 3 ∷ 4 ∷ [])
      (start_upload (at 10) (pos 7) (codes "a.txt") 3 (codes "text/plain") new_session).1).0
    ≡ err "UPLOAD_TOO_LARGE"
unfolding start_upload open_upload add_chunk push_chunk purge_expired
too_large = refl

abbrev calls : List Call
calls =
    start (at 10) (pos 7) (codes "a.txt") 3 (codes "text/plain")
    ∷ chunk (at 20) 1 0 (1 ∷ [])
    ∷ finish (at 30) 1
    ∷ []

run_calls-IsValid_example : IsValid (run_calls calls new_session)
run_calls-IsValid_example = run_calls-IsValid calls new_session new_session-IsValid

split_into_chunks-concat_example :
    (concat (split_into_chunks (1 ∷ 2 ∷ [])) ≡ 1 ∷ 2 ∷ [])
    × All (IsChunk attachment_chunk_size) (split_into_chunks (1 ∷ 2 ∷ []))
split_into_chunks-concat_example = split_into_chunks-concat (1 ∷ 2 ∷ [])
