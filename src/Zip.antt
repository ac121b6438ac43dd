-- ===== src/Zip.antt =====
-- The packed structs and the constants of include/zip_structures.h, and the bytes of each struct on
-- a little-endian machine. A value is kept below its field's width where it is stored.
pub mod Fields
pub mod Records
pub mod Writes
use burst.Base.{ℕ, ◌+◌, ◌*◌, ◌^◌, List, [], ◌∷◌, ◌++◌}
use burst.Bytes.{le16, le32, le64}

abbrev pub zip_local_file_header_sig : ℕ
zip_local_file_header_sig = 0x04034b50

abbrev pub zip_data_descriptor_sig : ℕ
zip_data_descriptor_sig = 0x08074b50

abbrev pub zip_central_dir_header_sig : ℕ
zip_central_dir_header_sig = 0x02014b50

abbrev pub zip_end_central_dir_sig : ℕ
zip_end_central_dir_sig = 0x06054b50

abbrev pub zip64_end_central_dir_sig : ℕ
zip64_end_central_dir_sig = 0x06064b50

abbrev pub zip64_end_central_dir_locator_sig : ℕ
zip64_end_central_dir_locator_sig = 0x07064b50

-- ZIP_METHOD_* and ZIP_VERSION_*
abbrev pub method_store : ℕ
method_store = 0

abbrev pub method_deflate : ℕ
method_deflate = 8

abbrev pub method_zstd : ℕ
method_zstd = 93

abbrev pub version_store : ℕ
version_store = 10

abbrev pub version_deflate : ℕ
version_deflate = 20

abbrev pub version_zstd : ℕ
version_zstd = 63

abbrev pub flag_data_descriptor : ℕ
flag_data_descriptor = 0x0008

abbrev pub burst_eocd_comment_magic : ℕ
burst_eocd_comment_magic = 0x54535242

abbrev pub burst_eocd_comment_version : ℕ
burst_eocd_comment_version = 1

abbrev pub no_cdfh_in_tail : ℕ
no_cdfh_in_tail = 0xFFFFFF

-- BURST_PART_SIZE, BURST_MAGIC_NUMBER and BURST_MIN_SKIPPABLE_FRAME_SIZE of burst_writer.h
abbrev pub part_size : ℕ
part_size = 8 * 1024 * 1024

abbrev pub burst_magic_number : ℕ
burst_magic_number = 0x184D2A5B

abbrev pub min_skippable_frame_size : ℕ
min_skippable_frame_size = 8

-- ".burst_padding", PADDING_LFH_FILENAME_LEN and PADDING_LFH_MIN_SIZE
abbrev pub padding_lfh_filename : List ℕ
padding_lfh_filename =
    b'.' ∷ b'b' ∷ b'u' ∷ b'r' ∷ b's' ∷ b't' ∷ b'_' ∷ b'p' ∷ b'a' ∷ b'd' ∷ b'd' ∷ b'i' ∷ b'n' ∷ b'g'
    ∷ []

abbrev pub padding_lfh_filename_len : ℕ
padding_lfh_filename_len = 14

abbrev pub padding_lfh_min_size : ℕ
padding_lfh_min_size = 44

-- `struct zip_local_header`, 30 bytes
pub record LocalHeader : Type 0 where
  pub signature : ℕ
  pub version_needed : ℕ
  pub flags : ℕ
  pub compression_method : ℕ
  pub last_mod_time : ℕ
  pub last_mod_date : ℕ
  pub crc32 : ℕ
  pub compressed_size : ℕ
  pub uncompressed_size : ℕ
  pub filename_length : ℕ
  pub extra_field_length : ℕ

abbrev pub local_header_bytes : LocalHeader → List ℕ
local_header_bytes h =
    le32 h.signature
    ++ (le16 h.version_needed
        ++ (le16 h.flags
            ++ (le16 h.compression_method
                ++ (le16 h.last_mod_time
                    ++ (le16 h.last_mod_date
                        ++ (le32 h.crc32
                            ++ (le32 h.compressed_size
                                ++ (le32 h.uncompressed_size
                                    ++ (le16 h.filename_length ++ le16 h.extra_field_length)))))))))

-- `struct zip_central_header`, 46 bytes
pub record CentralHeader : Type 0 where
  pub signature : ℕ
  pub version_made_by : ℕ
  pub version_needed : ℕ
  pub flags : ℕ
  pub compression_method : ℕ
  pub last_mod_time : ℕ
  pub last_mod_date : ℕ
  pub crc32 : ℕ
  pub compressed_size : ℕ
  pub uncompressed_size : ℕ
  pub filename_length : ℕ
  pub extra_field_length : ℕ
  pub file_comment_length : ℕ
  pub disk_number_start : ℕ
  pub internal_file_attributes : ℕ
  pub external_file_attributes : ℕ
  pub local_header_offset : ℕ

abbrev pub central_header_bytes : CentralHeader → List ℕ
central_header_bytes h =
    le32 h.signature
    ++ (le16 h.version_made_by
        ++ (le16 h.version_needed
            ++ (le16 h.flags
                ++ (le16 h.compression_method
                    ++ (le16 h.last_mod_time
                        ++ (le16 h.last_mod_date
                            ++ (le32 h.crc32
                                ++ (le32 h.compressed_size
                                    ++ (le32 h.uncompressed_size
                                        ++ (le16 h.filename_length
                                            ++ (le16 h.extra_field_length
                                                ++ (le16 h.file_comment_length
                                                    ++ (le16 h.disk_number_start
                                                        ++ (le16 h.internal_file_attributes
                                                            ++ (le32 h.external_file_attributes
                                                            ++ le32
                                                            h.local_header_offset)))))))))))))))

-- `struct zip_data_descriptor`, 16 bytes, and `struct zip_data_descriptor_zip64`, 24 bytes
pub record DataDescriptor : Type 0 where
  pub signature : ℕ
  pub crc32 : ℕ
  pub compressed_size : ℕ
  pub uncompressed_size : ℕ

abbrev pub data_descriptor_bytes : DataDescriptor → List ℕ
data_descriptor_bytes d =
    le32 d.signature ++ (le32 d.crc32 ++ (le32 d.compressed_size ++ le32 d.uncompressed_size))

abbrev pub data_descriptor_zip64_bytes : DataDescriptor → List ℕ
data_descriptor_zip64_bytes d =
    le32 d.signature ++ (le32 d.crc32 ++ (le64 d.compressed_size ++ le64 d.uncompressed_size))

-- `struct zip_end_central_dir`, 22 bytes
pub record EndCentralDir : Type 0 where
  pub signature : ℕ
  pub disk_number : ℕ
  pub disk_with_cd : ℕ
  pub num_entries_this_disk : ℕ
  pub num_entries_total : ℕ
  pub central_dir_size : ℕ
  pub central_dir_offset : ℕ
  pub comment_length : ℕ

abbrev pub end_central_dir_bytes : EndCentralDir → List ℕ
end_central_dir_bytes e =
    le32 e.signature
    ++ (le16 e.disk_number
        ++ (le16 e.disk_with_cd
            ++ (le16 e.num_entries_this_disk
                ++ (le16 e.num_entries_total
                    ++ (le32 e.central_dir_size
                        ++ (le32 e.central_dir_offset ++ le16 e.comment_length))))))

-- `struct zip64_end_central_dir`, 56 bytes
pub record Zip64EndCentralDir : Type 0 where
  pub signature : ℕ
  pub eocd64_size : ℕ
  pub version_made_by : ℕ
  pub version_needed : ℕ
  pub disk_number : ℕ
  pub disk_with_cd : ℕ
  pub num_entries_this_disk : ℕ
  pub num_entries_total : ℕ
  pub central_dir_size : ℕ
  pub central_dir_offset : ℕ

abbrev pub zip64_end_central_dir_bytes : Zip64EndCentralDir → List ℕ
zip64_end_central_dir_bytes e =
    le32 e.signature
    ++ (le64 e.eocd64_size
        ++ (le16 e.version_made_by
            ++ (le16 e.version_needed
                ++ (le32 e.disk_number
                    ++ (le32 e.disk_with_cd
                        ++ (le64 e.num_entries_this_disk
                            ++ (le64 e.num_entries_total
                                ++ (le64 e.central_dir_size ++ le64 e.central_dir_offset))))))))

-- `struct zip64_end_central_dir_locator`, 20 bytes
pub record Zip64Locator : Type 0 where
  pub signature : ℕ
  pub disk_with_eocd64 : ℕ
  pub eocd64_offset : ℕ
  pub total_disks : ℕ

abbrev pub zip64_locator_bytes : Zip64Locator → List ℕ
zip64_locator_bytes l =
    le32 l.signature ++ (le32 l.disk_with_eocd64 ++ (le64 l.eocd64_offset ++ le32 l.total_disks))
