-- ===== src/Sink.antt =====
-- The buffered output of src/writer/burst_writer.c: `burst_writer_write` and `burst_writer_flush`,
-- with the fields of `struct burst_writer` that these and the functions of alignment.c change.
-- What the C library, zlib and libzstd do is a parameter, the record `Env`.
pub mod Buffer
pub mod Rules
use burst.Base.{
  ℕ, zero, suc, ◌+◌, ◌-◌, ◌%◌, ◌^◌, Bool, true, false, Option, none, some, List, [], ◌∷◌, ◌++◌, ltb,
  ◌==◌, if◌then◌else◌, length, take, drop,
}

-- `struct tm`, as far as the program reads it. The fields are C `int`s; `tm_year` is read modulo
-- 2 ^ 32, so that a year before 1900 is a large number.
pub record Tm : Type 0 where
  pub tm_sec : ℕ
  pub tm_min : ℕ
  pub tm_hour : ℕ
  pub tm_mday : ℕ
  pub tm_mon : ℕ
  pub tm_year : ℕ

-- What the program calls and does not implement.
pub record Env : Type 0 where
  -- `fwrite(data, 1, n, out)`: from what the file holds and the data, the count that is returned
  -- and what the file holds then.
  pub fwrite : List ℕ → List ℕ → ℕ × List ℕ
  -- whether `malloc`, `calloc` or `realloc` of so many bytes succeeds
  pub alloc : ℕ → Bool
  -- `ZSTD_compress` at a level (the bit pattern of the int); `none` is an error code
  pub compress : ℕ → List ℕ → Option (List ℕ)
  -- `ZSTD_compressBound`, and whether `ZSTD_createCCtx` gives a context
  pub compress_bound : ℕ → ℕ
  pub create_cctx : Bool
  -- zlib's `crc32(crc, data, length)`
  pub crc32 : ℕ → List ℕ → ℕ
  -- `time(NULL)` and `localtime`
  pub now : ℕ
  pub localtime : ℕ → Option Tm

-- What a function that returns 0 or -1 leaves behind; after -1 the state is still there.
pub data Outcome {ℓ} (S : Type ℓ) : Type ℓ where
  ok : S → Outcome S
  failed : S → Outcome S

infixl 5 ◌>>=◌
abbrev pub ◌>>=◌ {ℓ} : {S : Type ℓ} → Outcome S → (S → Outcome S) → Outcome S
ok s >>= f = f s
failed s >>= f = failed s

-- `if (!p) return -1;` for a pointer that a call may leave NULL.
abbrev pub or_fail {ℓ κ} : {A : Type ℓ} {S : Type κ} → Option A → S → (A → Outcome S) → Outcome S
or_fail none s f = failed s
or_fail (some a) s f = f a

-- The part of `struct burst_writer` that a write changes. `write_buffer` is the list of the first
-- `buffer_used` bytes of the C buffer, and `output` is what the FILE holds.
pub record Sink : Type 0 where
  pub output : List ℕ
  pub current_offset : ℕ
  pub write_buffer : List ℕ
  pub buffer_size : ℕ
  pub padding_bytes : ℕ

abbrev pub buffer_used : Sink → ℕ
buffer_used s = length s.write_buffer

-- What `burst_writer_flush` does with the answer of `fwrite`.
abbrev after_fwrite : Sink → ℕ × List ℕ → Outcome Sink
after_fwrite s (written, out) =
    if written == buffer_used s
    then ok (record s {
      output = out;
      current_offset = (s.current_offset + buffer_used s) % 2 ^ 64;
      write_buffer = [];
    })
    else failed (record s { output = out })

unfoldable pub burst_writer_flush : Env → Sink → Outcome Sink
burst_writer_flush env s =
    if buffer_used s == 0 then ok s else after_fwrite s (env.fwrite s.output s.write_buffer)

-- `memcpy` of the next bytes behind those in the buffer, then the flush of a full buffer.
abbrev pub to_copy : Sink → List ℕ → ℕ
to_copy s src =
    let available = s.buffer_size - buffer_used s in
    if ltb (length src) available then length src else available

abbrev pub copied : Sink → List ℕ → Sink
copied s src = record s { write_buffer = s.write_buffer ++ take (to_copy s src) src }

unfoldable pub copy_chunk : Env → List ℕ → Sink → Outcome Sink
copy_chunk env src s =
    if buffer_used (copied s src) == s.buffer_size
    then burst_writer_flush env (copied s src)
    else ok (copied s src)

-- `while (remaining > 0)`: the list is what `src` and `remaining` stand for. `none` means that the
-- fuel ran out, which `Buffer` excludes.
unfoldable pub write_loop : Env → ℕ → List ℕ → Sink → Option (Outcome Sink)
write_loop env fuel [] s = some (ok s)
write_loop env zero (x ∷ xs) s = none
write_loop env (suc fuel) (x ∷ xs) s = elim (copy_chunk env (x ∷ xs) s) [
  | ok s' ↦ write_loop env fuel (drop (to_copy s (x ∷ xs)) (x ∷ xs)) s'
  | failed s' ↦ some (failed s')
]

-- A round copies a byte at least or flushes a buffer that was full before, so this is enough fuel.
unfoldable pub burst_writer_write : Env → List ℕ → Sink → Outcome Sink
burst_writer_write env src s = elim (write_loop env (length src + 1) src s) [
  | some r ↦ r
  | none ↦ failed s
]

-- `writer->padding_bytes += n`
abbrev pub count_padding : ℕ → Sink → Sink
count_padding n s = record s { padding_bytes = (s.padding_bytes + n) % 2 ^ 64 }

-- `alignment_get_write_position` of alignment.c
unfoldable pub alignment_get_write_position : Sink → ℕ
alignment_get_write_position s = (s.current_offset + buffer_used s) % 2 ^ 64
