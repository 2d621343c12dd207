-- ===== src/Simg/Format.antt =====
-- Sparse images as cmds/simg2img_simple.cpp reads them: their chunks, what they stand for, and how
-- they are written down.
use device_phh_treble_doze.Base.{
  ℕ, zero, suc, refl, ap, sym, ◌∙◌, Bool, true, false, ◌||◌, if◌then◌else◌, ◌+◌, ◌*◌, ◌/◌, ◌%◌, ◌<◌,
  ◌≡◌, arith, List, [], ◌∷◌, ◌++◌, length, replicate,
}
use native.Mathlib.Nat.{mul_assoc}
use device_phh_treble_doze.Simg.Main.{
  le16, le32, sparse_header, chunk_header, sparse_header_magic, chunk_type_raw, chunk_type_fill,
  chunk_type_dont_care, chunk_type_crc32,
}

-- A chunk covers a number of blocks; the bytes of a raw one are its content, and a fill repeats a
-- value of four bytes.
pub data Chunk : Type 0 where
  raw : ℕ → List ℕ → Chunk
  fill : ℕ → ℕ → Chunk
  dont_care : ℕ → Chunk
  crc32 : ℕ → Chunk

abbrev pub put16 : ℕ → List ℕ → List ℕ
put16 n rest = n % 256 ∷ n / 256 % 256 ∷ rest

abbrev pub put32 : ℕ → List ℕ → List ℕ
put32 n rest = put16 (n % 65536) (put16 (n / 65536) rest)

abbrev pub put_header : ℕ → ℕ → ℕ → List ℕ → List ℕ
put_header type sz total rest = put16 type (put16 0 (put32 sz (put32 total rest)))

abbrev pub fill_words : ℕ → ℕ → List ℕ
fill_words zero v = []
fill_words (suc n) v = put32 v (fill_words n v)

abbrev pub expand : ℕ → Chunk → List ℕ
expand blk (raw n d) = d
expand blk (fill n v) = fill_words (n * (blk / 4)) v
expand blk (dont_care n) = replicate (n * blk) 0
expand blk (crc32 v) = []

abbrev pub encode : ℕ → Chunk → List ℕ → List ℕ
encode blk (raw n d) rest = put_header chunk_type_raw n (12 + n * blk) (d ++ rest)
encode blk (fill n v) rest = put_header chunk_type_fill n 16 (put32 v rest)
encode blk (dont_care n) rest = put_header chunk_type_dont_care n 12 rest
encode blk (crc32 v) rest = put_header chunk_type_crc32 0 16 (put32 v rest)

-- The numbers fit in their fields, and a raw chunk has the bytes of its blocks.
abbrev pub IsChunk : ℕ → Chunk → Type 0
IsChunk blk (raw n d) = (length d ≡ n * blk) × (n < 4294967296) × (12 + n * blk < 4294967296)
IsChunk blk (fill n v) = (n < 4294967296) × (v < 4294967296)
IsChunk blk (dont_care n) = n < 4294967296
IsChunk blk (crc32 v) = v < 4294967296

abbrev pub expand_all : ℕ → List Chunk → List ℕ
expand_all blk [] = []
expand_all blk (c ∷ cs) = expand blk c ++ expand_all blk cs

abbrev pub encode_all : ℕ → List Chunk → List ℕ → List ℕ
encode_all blk [] rest = rest
encode_all blk (c ∷ cs) rest = encode blk c (encode_all blk cs rest)

-- A fill by another value than 0, whether there is one, and the chunks before the first.
abbrev pub is_other_fill : Chunk → Bool
is_other_fill (fill n zero) = false
is_other_fill (fill n (suc v)) = true
is_other_fill c = false

abbrev pub has_other_fill : List Chunk → Bool
has_other_fill [] = false
has_other_fill (c ∷ cs) = is_other_fill c || has_other_fill cs

abbrev pub before_other_fill : List Chunk → List Chunk
before_other_fill [] = []
before_other_fill (c ∷ cs) = if is_other_fill c then [] else c ∷ before_other_fill cs

-- The header of a file; `blocks` and `sum` are not looked at.
abbrev pub put_file_header : ℕ → ℕ → ℕ → List ℕ → List ℕ
put_file_header blocks chunks sum rest = put32 sparse_header_magic (
    put16 1
      (put16 0 (put16 28 (put16 12 (put32 4096 (put32 blocks (put32 chunks (put32 sum rest))))))))

abbrev pub image : ℕ → ℕ → List Chunk → List ℕ → List ℕ
image blocks sum cs rest = put_file_header blocks (length cs) sum (encode_all 4096 cs rest)

abbrev four_zeros : List ℕ → List ℕ
four_zeros rest = 0 ∷ 0 ∷ 0 ∷ 0 ∷ rest

replicate_four : (k : ℕ) → four_zeros (replicate (k * 4) 0) ≡ replicate (suc k * 4) 0
replicate_four k =
    let four : suc (suc (suc (suc (k * 4)))) ≡ suc k * 4 = omega arith in
    ap (λ n. replicate n 0) four

fill_words_zero : (k : ℕ) → fill_words k 0 ≡ replicate (k * 4) 0
fill_words_zero zero = refl
fill_words_zero (suc k) = ap four_zeros (fill_words_zero k) ∙ replicate_four k

-- A fill by 0 is zeros.
pub expand_zero : (blk n : ℕ) → blk / 4 * 4 ≡ blk → replicate (n * blk) 0 ≡ expand blk (fill n 0)
expand_zero blk n whole =
    let words : n * (blk / 4) * 4 ≡ n * blk = mul_assoc n (blk / 4) 4 ∙ ap (n *◌) whole in
    sym (fill_words_zero (n * (blk / 4)) ∙ ap (λ k. replicate k 0) words)

pub le32-put32 : (v : ℕ) → v < 4294967296 → le32 (put32 v []) 0 ≡ v
unfolding le32 le16
le32-put32 v h = ground arith

-- The header that is read is the one that was written.
pub chunk_header-put_header :
    (type sz total : ℕ)
    → type < 65536
    → sz < 4294967296
    → total < 4294967296
    → chunk_header (put_header type sz total [])
      ≡ record { chunk_type = type; reserved1 = 0; chunk_sz = sz; total_sz = total }
unfolding chunk_header le32 le16
chunk_header-put_header type sz total a b c = ground arith

pub sparse_header-put_file_header :
    (blocks chunks sum : ℕ)
    → blocks < 4294967296
    → chunks < 4294967296
    → sum < 4294967296
    → sparse_header (put_file_header blocks chunks sum []) ≡ record {
      magic = sparse_header_magic;
      major_version = 1;
      minor_version = 0;
      file_hdr_sz = 28;
      chunk_hdr_sz = 12;
      blk_sz = 4096;
      total_blks = blocks;
      total_chunks = chunks;
      image_checksum = sum;
    }
unfolding sparse_header le32 le16
sparse_header-put_file_header blocks chunks sum a b c = ground arith
