-- ===== src/Simg/Main.antt =====
-- `main` of cmds/simg2img_simple.cpp: the headers, little-endian, and the chunks.
use device_phh_treble_doze.Base.{
  ℕ, zero, suc, ◌+◌, ◌*◌, ◌%◌, true, false, not, List, ◌++◌, Option, none, some, get_or, take, drop,
  replicate, ltb, ◌==◌, if◌then◌else◌,
}
use device_phh_treble_doze.Simg.Copy.{Pipe, Call, Outcome, done, exited, stuck, moved, nsendfile}

abbrev pub u32 : ℕ → ℕ
u32 n = n % 4294967296

-- The fields of two and four bytes at a position.
unfoldable pub le16 : List ℕ → ℕ → ℕ
le16 bytes i = get_or bytes i 0 + get_or bytes (i + 1) 0 * 256

unfoldable pub le32 : List ℕ → ℕ → ℕ
le32 bytes i = le16 bytes i + le16 bytes (i + 2) * 65536

pub record SparseHeader : Type 0 where
  pub magic : ℕ
  pub major_version : ℕ
  pub minor_version : ℕ
  pub file_hdr_sz : ℕ
  pub chunk_hdr_sz : ℕ
  pub blk_sz : ℕ
  pub total_blks : ℕ
  pub total_chunks : ℕ
  pub image_checksum : ℕ

pub record ChunkHeader : Type 0 where
  pub chunk_type : ℕ
  pub reserved1 : ℕ
  pub chunk_sz : ℕ
  pub total_sz : ℕ

unfoldable pub sparse_header : List ℕ → SparseHeader
sparse_header b = record {
  magic = le32 b 0;
  major_version = le16 b 4;
  minor_version = le16 b 6;
  file_hdr_sz = le16 b 8;
  chunk_hdr_sz = le16 b 10;
  blk_sz = le32 b 12;
  total_blks = le32 b 16;
  total_chunks = le32 b 20;
  image_checksum = le32 b 24;
}

unfoldable pub chunk_header : List ℕ → ChunkHeader
chunk_header b = record {
  chunk_type = le16 b 0;
  reserved1 = le16 b 2;
  chunk_sz = le32 b 4;
  total_sz = le32 b 8;
}

abbrev pub sparse_header_magic : ℕ
sparse_header_magic = 3978755898

abbrev pub chunk_type_raw : ℕ
chunk_type_raw = 51905

abbrev pub chunk_type_fill : ℕ
chunk_type_fill = 51906

abbrev pub chunk_type_dont_care : ℕ
chunk_type_dont_care = 51907

abbrev pub chunk_type_crc32 : ℕ
chunk_type_crc32 = 51908

-- A `read` of `n` bytes gives them all, or the caller leaves.
unfoldable pub read_exact : (ℕ → Call) → ℕ → Pipe → Option (List ℕ × Pipe)
read_exact calls n p = elim (calls p.round).read [
  | none ↦ none
  | some bound ↦
      if moved bound n p == n
      then some (take n p.input, record p { input = drop n p.input; round = suc p.round })
      else none
]

-- The loop that writes zero blocks, and the code with which it leaves.
unfoldable pub write_blocks : (ℕ → Call) → ℕ → ℕ → ℕ → Pipe → Outcome
write_blocks calls code blk zero p = done p
write_blocks calls code blk (suc n) p = elim (ltb (calls p.round).write blk) [
  | true ↦
      exited code
        (record p { output = p.output ++ replicate (calls p.round).write 0; round = suc p.round })
  | false ↦
      write_blocks calls code blk n
        (record p { output = p.output ++ replicate blk 0; round = suc p.round })
]

unfoldable pub run_fill : (ℕ → Call) → ℕ → ChunkHeader → Pipe → Outcome
run_fill calls blk chunk p =
    if not (chunk.total_sz == 16) then exited 7 p else elim (read_exact calls 4 p) [
      | none ↦ exited 5 p
      | some (b, q) ↦
          if not (le32 b 0 == 0) then exited 6 q else write_blocks calls 8 blk chunk.chunk_sz q
    ]

unfoldable pub run_crc32 : (ℕ → Call) → ChunkHeader → Pipe → Outcome
run_crc32 calls chunk p =
    if not (chunk.total_sz == 16)
    then exited 7 p
    else elim (read_exact calls 4 p) [ none ↦ exited 5 p | some (b, q) ↦ done q ]

-- The branches of a chunk. The product of two `uint32_t` wraps around.
unfoldable pub run_body : (ℕ → Call) → ℕ → ChunkHeader → Pipe → Outcome
run_body calls blk chunk p =
    if chunk.chunk_type == chunk_type_raw
    then if not (chunk.total_sz == 12 + u32 (chunk.chunk_sz * blk))
      then exited 7 p
      else nsendfile calls (u32 (blk * chunk.chunk_sz)) p
    else if chunk.chunk_type == chunk_type_fill
    then run_fill calls blk chunk p
    else if chunk.chunk_type == chunk_type_dont_care
    then if not (chunk.total_sz == 12)
      then exited 9 p
      else write_blocks calls 10 blk chunk.chunk_sz p
    else if chunk.chunk_type == chunk_type_crc32
    then run_crc32 calls chunk p
    else exited 4 p

unfoldable pub run_chunk : (ℕ → Call) → ℕ → Pipe → Outcome
run_chunk calls blk p = elim (read_exact calls 12 p) [
  | none ↦ exited 3 p
  | some (b, q) ↦ run_body calls blk (chunk_header b) q
]

unfoldable pub run_chunks : (ℕ → Call) → ℕ → ℕ → Pipe → Outcome
run_chunks calls blk zero p = done p
run_chunks calls blk (suc n) p = elim (run_chunk calls blk p) [
  | done q ↦ run_chunks calls blk n q
  | exited code q ↦ exited code q
  | stuck ↦ stuck
]

unfoldable pub run_image : (ℕ → Call) → SparseHeader → Pipe → Outcome
run_image calls hdr p =
    if not (hdr.magic == sparse_header_magic)
    then exited 2 p
    else if not (hdr.blk_sz == 4096)
    then exited 6 p
    else if not (hdr.major_version == 1)
    then exited 11 p
    else if not (hdr.minor_version == 0)
    then exited 12 p
    else if not (hdr.file_hdr_sz == 28)
    then exited 13 p
    else if not (hdr.chunk_hdr_sz == 12)
    then exited 14 p
    else run_chunks calls hdr.blk_sz hdr.total_chunks p

-- `main`; `done` is `return 0`.
unfoldable pub main : (ℕ → Call) → Pipe → Outcome
main calls p = elim (read_exact calls 28 p) [
  | none ↦ exited 1 p
  | some (b, q) ↦ run_image calls (sparse_header b) q
]
