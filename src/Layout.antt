-- ===== src/Layout.antt =====
-- What the writer lays out in the archive, piece by piece, and the alignment rule that the comment
-- above `burst_writer_add_file` (src/writer/burst_writer.c) states: only a local header or a
-- Start-of-Part frame stands at a boundary, and no piece crosses one.
use mathlib.Core.Path.{subst}
use burst.Base.{
  ℕ, ◌+◌, ◌%◌, ◌^◌, ◌≤◌, ◌≡◌, ◌≢◌, ◌⊎◌, refl, sym, ap, ◌∙◌, ◌||◌, none, some, List, [], ◌∷◌, ◌++◌,
  append_assoc, append-nil, arith, length, length-append,
}
use burst.Zip.{part_size}
use burst.Zip.Fields.{over_32}
use burst.Zip.Writes.{padding_lfh_bytes, descriptor_bytes}
use burst.Alignment.Frames.{padding_frame_bytes, start_of_part_bytes}
use burst.Sink.{Env, Sink}
use burst.Sink.Buffer.{stream, IsValid, Wrote}
use burst.Writer.{Lfh, lfh_bytes}

-- A piece of the archive, with all that its bytes depend on: the header of the caller, the whole
-- length of a padding entry, the zeros of a padding frame, the uncompressed offset of a
-- Start-of-Part frame, the level and the chunk of a frame, the checksum and the sizes of a
-- descriptor, the target of a link.
pub data Item : Type 0 where
  local_header : Lfh → ℕ → Item
  padding_entry padding_frame start_of_part : ℕ → Item
  frame : ℕ → List ℕ → Item
  descriptor : ℕ → ℕ → ℕ → Item
  link_target : List ℕ → Item

abbrev pub item_bytes : Env → Item → List ℕ
item_bytes env (local_header lfh lfh_len) = lfh_bytes lfh lfh_len
item_bytes env (padding_entry n) = padding_lfh_bytes env n
item_bytes env (padding_frame n) = padding_frame_bytes n
item_bytes env (start_of_part offset) = start_of_part_bytes offset
item_bytes env (frame level chunk) = elim (env.compress level chunk) [ some out ↦ out | none ↦ [] ]
item_bytes env (descriptor crc32 compressed uncompressed) =
    descriptor_bytes crc32 compressed uncompressed (over_32 compressed || over_32 uncompressed)
item_bytes env (link_target target) = target

-- The bytes of the items, one after the other.
abbrev pub flat : Env → List Item → List ℕ
flat env [] = []
flat env (i ∷ is) = item_bytes env i ++ flat env is

-- The items that a part may begin with.
abbrev pub OpensPart : Item → Type 0
OpensPart (local_header lfh lfh_len) = Unit {0}
OpensPart (start_of_part offset) = Unit {0}
OpensPart other = ⊥

-- An item of the given length at offset `pos`: it ends at the next boundary at the latest, and at a
-- boundary only an item that may open a part begins.
abbrev pub Placed : ℕ → Item → ℕ → Type 0
Placed pos i n = (pos % part_size + n ≤ part_size) × ((pos % part_size ≢ 0) ⊎ OpensPart i)

abbrev pub Laid : Env → ℕ → List Item → Type 0
Laid env pos [] = Unit {0}
Laid env pos (i ∷ is) =
    Placed pos i (length (item_bytes env i)) × Laid env (pos + length (item_bytes env i)) is

pub Laid-append :
    (env : Env) (pos : ℕ) (is js : List Item)
    → Laid env pos is
    → Laid env (pos + length (flat env is)) js
    → Laid env pos (is ++ js)
Laid-append env pos [] js h k = let e : pos + 0 ≡ pos = omega arith in rw e at k
Laid-append env pos (i ∷ is) js h k =
    (h.0, Laid-append env (pos + length (item_bytes env i)) is js h.1 (rw (sym shift) k))
  where
    shift :
        pos + length (flat env (i ∷ is)) ≡ pos + length (item_bytes env i) + length (flat env is)
    shift = omega (arith, length-append (item_bytes env i) (flat env is))

pub flat-append : (env : Env) (is js : List Item) → flat env (is ++ js) ≡ flat env is ++ flat env js
flat-append env [] js = refl
flat-append env (i ∷ is) js =
    ap (λ l. item_bytes env i ++ l) (flat-append env is js)
    ∙ sym (append_assoc (item_bytes env i) (flat env is) (flat env js))

-- From sink `s` to sink `s'` the writer has laid out these items, in keeping with the rule.
pub record Lays (env : Env) (items : List Item) (s s' : Sink) : Type 0 where
  pub valid : IsValid s'
  pub appended : stream s' ≡ stream s ++ flat env items
  pub laid : Laid env (length (stream s)) items

pub Lays-refl : (env : Env) (s : Sink) → IsValid s → Lays env [] s s
Lays-refl env s v = record { valid = v; appended = sym (append-nil (stream s)); laid = tt }

pub Lays-trans :
    (env : Env) (is js : List Item) (s t u : Sink)
    → Lays env is s t
    → Lays env js t u
    → Lays env (is ++ js) s u
Lays-trans env is js s t u p q = record {
  valid = q.valid;
  appended =
      q.appended
      ∙ ap (λ l. l ++ flat env js) p.appended
      ∙ append_assoc (stream s) (flat env is) (flat env js)
      ∙ ap (λ l. stream s ++ l) (sym (flat-append env is js));
  laid = Laid-append env (length (stream s)) is js p.laid (rw here at q.laid);
}
  where
    here : length (stream t) ≡ length (stream s) + length (flat env is)
    here = ap length p.appended ∙ length-append (stream s) (flat env is)

-- One write of one item.
pub Lays-one :
    (env : Env) (i : Item) (src : List ℕ) (s t : Sink)
    → item_bytes env i ≡ src
    → Wrote src s t
    → Placed (length (stream s)) i (length src)
    → Lays env (i ∷ []) s t
Lays-one env i src s t e w p = record {
  valid = w.valid;
  appended =
      w.appended ∙ ap (λ l. stream s ++ l) (sym (append-nil src) ∙ ap (λ l. l ++ []) (sym e));
  laid = (rw e p, tt);
}

-- A write moves the position by the length of its data.
pub length-Wrote :
    (src : List ℕ) (s t : Sink) → Wrote src s t → length (stream t) ≡ length (stream s) + length src
length-Wrote src s t w = ap length w.appended ∙ length-append (stream s) src

-- The data of a file at one level, as items, between two uncompressed offsets: the frames hold the
-- chunks in order, and a Start-of-Part frame names the offset that the chunks in front of it reach.
pub data FileData (level end : ℕ) : ℕ → List (List ℕ) → List Item → Type 0 where
  ended : {offset : ℕ} → offset ≡ end → FileData level end offset [] []
  framed :
      {offset : ℕ} {chunk : List ℕ} {chunks : List (List ℕ)} {is : List Item}
      → FileData level end ((offset + length chunk) % 2 ^ 64) chunks is
      → FileData level end offset (chunk ∷ chunks) (frame level chunk ∷ is)
  padded :
      {offset n : ℕ} {chunks : List (List ℕ)} {is : List Item}
      → FileData level end offset chunks is
      → FileData level end offset chunks (padding_frame n ∷ is)
  opened :
      {offset : ℕ} {chunks : List (List ℕ)} {is : List Item}
      → FileData level end offset chunks is
      → FileData level end offset chunks (start_of_part offset ∷ is)

pub FileData-append :
    {level mid end offset : ℕ} {cs ds : List (List ℕ)} {is js : List Item}
    → FileData level mid offset cs is
    → FileData level end mid ds js
    → FileData level end offset (cs ++ ds) (is ++ js)
FileData-append {level} {mid} {end} {offset} {cs} {ds} {is} {js} (ended e) k =
    subst (λ o. FileData level end o ds js) (sym e) k
FileData-append (framed d) k = framed (FileData-append d k)
FileData-append (padded d) k = padded (FileData-append d k)
FileData-append (opened d) k = opened (FileData-append d k)

-- The padding entry that may stand in front of a header.
abbrev pub IsPadding : List Item → Type 0
IsPadding pad = (pad ≡ []) ⊎ ((n : ℕ) × (pad ≡ padding_entry n ∷ []))

-- An entry: padding where it is needed, the caller's header, and the content.
abbrev pub EntryItems : Lfh → ℕ → List Item → List Item → Type 0
EntryItems lfh lfh_len content items =
    (pad : List Item) × IsPadding pad × (items ≡ pad ++ (local_header lfh lfh_len ∷ content))

-- The checksum behind the chunks.
abbrev pub crc_of : Env → ℕ → List (List ℕ) → ℕ
crc_of env crc [] = crc
crc_of env crc (chunk ∷ chunks) = crc_of env (env.crc32 crc chunk) chunks

-- The content of a file that has data: the chunks, and a descriptor with their checksum and length.
abbrev pub DataItems : Env → ℕ → List (List ℕ) → List Item → Type 0
DataItems env level chunks content =
    (data_items : List Item) × (compressed : ℕ) × (total : ℕ) × FileData level total 0 chunks
      data_items
    × (content ≡ data_items ++ (descriptor (crc_of env 0 chunks) compressed total ∷ []))
