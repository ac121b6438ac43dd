-- ===== src/Tests/Sinks.antt =====
-- The buffered output, the alignment decision and the frames.
use burst.Base.{
  ℕ, ◌+◌, ◌-◌, ◌%◌, ◌^◌, ◌≤◌, ◌<◌, ◌≡◌, refl, true, ◌||◌, some, List, [], ◌∷◌, arith, length,
}
use burst.Zip.{part_size}
use burst.Zip.Fields.{over_32, get_data_descriptor_size}
use burst.Zip.Writes.{descriptor_bytes, padding_lfh_bytes, length-padding_lfh_bytes}
use burst.Sink.{
  ok, Sink, burst_writer_flush, copy_chunk, write_loop, burst_writer_write,
  alignment_get_write_position,
}
use burst.Sink.Buffer.{
  stream, Wrote, burst_writer_flush-Wrote, burst_writer_write-Wrote, burst_writer_write_total,
  write_position-stream, burst_writer_write-ok,
}
use burst.Alignment.{alignment_next_boundary, alignment_decide}
use burst.Alignment.Decide.{next_boundary_least, Fits, alignment_decide-Fits}
use burst.Writer.AddFile.Layout.{length-descriptor_bytes}
use burst.Tests.Data.{env, env-Appends, env-NeverFails, small_sink, small_sink-IsValid}

abbrev ten : List ℕ
ten = 0 ∷ 1 ∷ 2 ∷ 3 ∷ 4 ∷ 5 ∷ 6 ∷ 7 ∷ 8 ∷ 9 ∷ []

abbrev after_ten : Sink
after_ten = record {
  output = 7 ∷ 8 ∷ 9 ∷ 0 ∷ 1 ∷ 2 ∷ 3 ∷ 4 ∷ 5 ∷ 6 ∷ [];
  current_offset = 10;
  write_buffer = 7 ∷ 8 ∷ 9 ∷ [];
  buffer_size = 4;
  padding_bytes = 0;
}

ten_written : burst_writer_write env ten small_sink ≡ ok after_ten
unfolding burst_writer_write write_loop copy_chunk burst_writer_flush
ten_written = refl

burst_writer_write-ok_example :
    (s' : Sink) × (burst_writer_write env ten small_sink ≡ ok s') × Wrote ten small_sink s'
burst_writer_write-ok_example =
    burst_writer_write-ok env env-Appends env-NeverFails ten small_sink small_sink-IsValid

burst_writer_write-Wrote_example : Wrote ten small_sink after_ten
burst_writer_write-Wrote_example =
    burst_writer_write-Wrote env env-Appends ten small_sink after_ten small_sink-IsValid ten_written

burst_writer_write_total_example :
    write_loop env (length ten + 1) ten small_sink ≡ some (burst_writer_write env ten small_sink)
burst_writer_write_total_example =
    burst_writer_write_total env env-Appends ten small_sink small_sink-IsValid

abbrev flushed : Sink
flushed = record small_sink { output = 7 ∷ 8 ∷ 9 ∷ []; current_offset = 3; write_buffer = [] }

sink_flushed : burst_writer_flush env small_sink ≡ ok flushed
unfolding burst_writer_flush
sink_flushed = refl

burst_writer_flush-Wrote_example : Wrote [] small_sink flushed × (flushed.write_buffer ≡ [])
burst_writer_flush-Wrote_example =
    burst_writer_flush-Wrote env env-Appends small_sink flushed (ground arith) (ground arith)
      sink_flushed

write_position-stream_example :
    alignment_get_write_position small_sink ≡ length (stream small_sink) % 2 ^ 64
write_position-stream_example = write_position-stream env env-Appends small_sink small_sink-IsValid

-- A hundred bytes before a boundary.
next_boundary_least_example :
    (alignment_next_boundary 8388508 % part_size ≡ 0)
    × (8388508 < alignment_next_boundary 8388508)
    × (alignment_next_boundary 8388508 ≤ 8388508 + part_size)
next_boundary_least_example = next_boundary_least 8388508 (omega arith)

alignment_decide-Fits_example :
    let d = alignment_decide (8388508 % 2 ^ 64) 80 true in
    Fits d.action true (part_size - 8388508 % part_size) 80 d.padding_size
alignment_decide-Fits_example = alignment_decide-Fits 8388508 80 true (omega arith) (omega arith)

padding_lfh_size_example : length (padding_lfh_bytes env 100) ≡ 100
padding_lfh_size_example = length-padding_lfh_bytes env env-Appends 100 (omega arith) (omega arith)

length-descriptor_bytes_example :
    length (descriptor_bytes 7 5000000000 9 (over_32 5000000000 || over_32 9))
    ≡ get_data_descriptor_size 5000000000 9
length-descriptor_bytes_example = length-descriptor_bytes 7 5000000000 9
