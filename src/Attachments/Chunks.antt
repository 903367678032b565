-- ===== src/Attachments/Chunks.antt =====
-- `split_into_chunks` of server/src/attachments/service.rs.
use month_erdmko_de.Base.{
  ℕ, zero, suc, ◌-◌, ◌*◌, ◌≤◌, ◌<◌, ◌≡◌, refl, ap, List, [], ◌∷◌, ◌++◌, arith, length, take, drop,
  All,
}
use month_erdmko_de.Attachments.Uploads.{Bytes}

abbrev pub attachment_chunk_size : ℕ
attachment_chunk_size = 64 * 1024

-- `chunks(n)`; fuel at least the length is enough.
unfoldable pub chunks_of : ℕ → ℕ → Bytes → List Bytes
chunks_of f n [] = []
chunks_of zero n (b ∷ bs) = []
chunks_of (suc f) n (b ∷ bs) = take n (b ∷ bs) ∷ chunks_of f n (drop n (b ∷ bs))

unfoldable pub split_into_chunks : Bytes → List Bytes
unfolding chunks_of
split_into_chunks bytes = chunks_of (length bytes) attachment_chunk_size bytes

abbrev pub concat : List Bytes → Bytes
concat [] = []
concat (c ∷ cs) = c ++ concat cs

take-drop : (n : ℕ) (bs : Bytes) → take n bs ++ drop n bs ≡ bs
take-drop zero bs = refl
take-drop (suc n) [] = refl
take-drop (suc n) (b ∷ bs) = ap (λ r. b ∷ r) (take-drop n bs)

length-drop : (n : ℕ) (bs : Bytes) → length (drop n bs) ≡ length bs - n
length-drop zero bs = omega arith
length-drop (suc n) [] = omega arith
length-drop (suc n) (b ∷ bs) = omega (arith, length-drop n bs)

length-take : (n : ℕ) (bs : Bytes) → length (take n bs) ≤ n
length-take zero bs = omega arith
length-take (suc n) [] = omega arith
length-take (suc n) (b ∷ bs) = omega (arith, length-take n bs)

chunks_of-concat : (f n : ℕ) (bs : Bytes) → 0 < n → length bs ≤ f → concat (chunks_of f n bs) ≡ bs
unfolding chunks_of
chunks_of-concat f n [] p h = refl
chunks_of-concat zero n (b ∷ bs) p h = ground arith
chunks_of-concat (suc f) n (b ∷ bs) p h =
    rw (chunks_of-concat f n (drop n (b ∷ bs)) p (omega (arith, length-drop n (b ∷ bs))))
      (take-drop n (b ∷ bs))

-- A chunk is not empty and has at most n bytes.
abbrev pub IsChunk : ℕ → Bytes → Type 0
IsChunk n c = (0 < length c) × (length c ≤ n)

chunks_of-IsChunk : (f n : ℕ) (bs : Bytes) → 0 < n → All (IsChunk n) (chunks_of f n bs)
unfolding chunks_of
chunks_of-IsChunk f n [] p = tt
chunks_of-IsChunk zero n (b ∷ bs) p = tt
chunks_of-IsChunk (suc f) zero (b ∷ bs) p = ground arith
chunks_of-IsChunk (suc f) (suc n) (b ∷ bs) p =
    ((omega arith, length-take (suc n) (b ∷ bs)), chunks_of-IsChunk f (suc n) (drop n bs) p)

-- The chunks of a file, put together again, are the file; each has between 1 and 65536 bytes.
pub split_into_chunks-concat :
    (bytes : Bytes)
    → (concat (split_into_chunks bytes) ≡ bytes)
      × All (IsChunk attachment_chunk_size) (split_into_chunks bytes)
unfolding split_into_chunks
split_into_chunks-concat bytes = (
  chunks_of-concat (length bytes) attachment_chunk_size bytes (omega arith) (omega arith),
  chunks_of-IsChunk (length bytes) attachment_chunk_size bytes (omega arith),
)
