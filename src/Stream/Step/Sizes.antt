-- ===== src/Stream/Step/Sizes.antt =====
-- The sizes of the frames that `parse_next_frame` finds, in `part_processor_process_data`.
use burst.Base.{
  ℕ, zero, suc, ◌+◌, ◌^◌, ◌<◌, ◌≡◌, refl, ◌≢◌, ◌⊎◌, inl, inr, Option, none, some, List, [], ◌∷◌,
  arith, ltb, ◌==◌, Bool-cases, length, drop,
}
use burst.Bytes.{u32_at}
use burst.Zip.{
  zip_local_file_header_sig, zip_data_descriptor_sig, zip_central_dir_header_sig,
  burst_magic_number,
}
use burst.Frame.{
  frame_zip_central_directory, FrameInfo, success, FrameSizeAnswer, size_is, src_size_wrong,
  other_error, Zstd, zstd_magic_number, local_header_frame, zstd_frame, skippable_frame,
  parse_next_frame,
}

-- No skippable frame starts in these bytes whose size, header included, passes a uint32_t.
abbrev pub NoHugeFrame : List ℕ → Type 0
NoHugeFrame [] = Unit {0}
NoHugeFrame (x ∷ xs) =
    ((u32_at (x ∷ xs) 0 ≢ burst_magic_number) ⊎ (u32_at (x ∷ xs) 4 + 8 < 2 ^ 32)) × NoHugeFrame xs

-- What libzstd documents: a compressed frame is not empty.
abbrev pub FindsBytes : Zstd → Type 0
FindsBytes zstd = (b : List ℕ) (n : ℕ) → zstd.find_frame_compressed_size b ≡ size_is n → 0 < n

pub NoHugeFrame-drop : (n : ℕ) (b : List ℕ) → NoHugeFrame b → NoHugeFrame (drop n b)
NoHugeFrame-drop zero b h = h
NoHugeFrame-drop (suc n) [] h = tt
NoHugeFrame-drop (suc n) (x ∷ xs) h = NoHugeFrame-drop n xs h.1

zstd_frame_positive :
    (a : FrameSizeAnswer) (content : Option ℕ) (info : FrameInfo)
    → ((n : ℕ) → a ≡ size_is n → 0 < n)
    → zstd_frame a content ≡ success info
    → 0 < info.frame_size
zstd_frame_positive (size_is n) none info finds e = cc
zstd_frame_positive (size_is n) (some c) info finds e =
    let pos = finds n refl in ground (arith, pos)
zstd_frame_positive src_size_wrong c info finds e = cc
zstd_frame_positive other_error c info finds e = cc

skippable_frame_positive :
    (b : List ℕ) (info : FrameInfo)
    → u32_at b 4 + 8 < 2 ^ 32
    → skippable_frame b ≡ success info
    → 0 < info.frame_size
unfolding skippable_frame
skippable_frame_positive b info small e = ground arith

local_header_frame_positive :
    (b : List ℕ) (info : FrameInfo) → local_header_frame b ≡ success info → 0 < info.frame_size
local_header_frame_positive b info e = ground arith

-- Only the central directory is a frame without bytes.
pub parse_next_frame_positive :
    (zstd : Zstd) (b : List ℕ) (info : FrameInfo)
    → FindsBytes zstd
    → (u32_at b 0 ≢ burst_magic_number) ⊎ (u32_at b 4 + 8 < 2 ^ 32)
    → parse_next_frame zstd b ≡ success info
    → (info.type ≡ frame_zip_central_directory) ⊎ (0 < info.frame_size)
unfolding parse_next_frame
parse_next_frame_positive zstd b info finds small e =
    let a = zstd.find_frame_compressed_size b in
    let c = zstd.frame_content_size b in
    let magic = u32_at b 0 in
    elim (Bool-cases (ltb (length b) 4)) [
      | inl short ↦ ground (arith, short)
      | inr long ↦ elim (Bool-cases (magic == zip_local_file_header_sig)) [
        | inl is_lfh ↦ inr (local_header_frame_positive b info (rw (long, is_lfh) at e))
        | inr not_lfh ↦ elim (Bool-cases (magic == zip_data_descriptor_sig)) [
          | inl is_dd ↦ ground (arith, long, not_lfh, is_dd)
          | inr not_dd ↦ elim (Bool-cases (magic == zip_central_dir_header_sig)) [
            | inl is_cd ↦ ground (arith, long, not_lfh, not_dd, is_cd)
            | inr not_cd ↦ elim (Bool-cases (magic == zstd_magic_number)) [
              | inl is_zstd ↦ inr (
                  zstd_frame_positive a c info (finds b)
                    (rw (long, not_lfh, not_dd, not_cd, is_zstd) at e))
              | inr not_zstd ↦ elim (Bool-cases (magic == burst_magic_number)) [
                | inl is_burst ↦ inr (
                    skippable_frame_positive b info (ground (arith, small, is_burst))
                      (rw (long, not_lfh, not_dd, not_cd, not_zstd, is_burst) at e))
                | inr not_burst ↦
                    absurd (ground (arith, long, not_lfh, not_dd, not_cd, not_zstd, not_burst))
              ]
            ]
          ]
        ]
      ]
    ]
