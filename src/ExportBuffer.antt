-- ===== src/ExportBuffer.antt =====
-- The buffer of encoded records that are not sent yet, export_buffer.c.
-- The memory between `bufhead` and `buftail` is the list `bytes`; pointers are offsets from `bufhead`.
-- The Judy array of record offsets is the ascending list of its members. `mem n` says whether a
-- growing `realloc` to n bytes succeeds; one that shrinks is taken to succeed.
pub mod Settled
pub mod Append
pub mod Advance
pub mod Transmit
mod Tests
use https_github_com_open_li.Prelude.{
  ℕ, zero, suc, ◌+◌, ◌-◌, ◌*◌, ◌/◌, ◌%◌, Bool, true, false, not, ◌&&◌, ◌||◌, Option, none, some,
  List, [], ◌∷◌, ◌++◌, if◌then◌else◌, ltb, leb, ◌==◌, Outcome, done, aborted, out_of_fuel, length,
  take, drop,
}

abbrev pub buffer_alloc_size : ℕ
buffer_alloc_size = 52428800

abbrev pub buffer_warning_thresh : ℕ
buffer_warning_thresh = 1073741824

abbrev pub buf_offset_frequency : ℕ
buf_offset_frequency = 262144

abbrev pub u32 : ℕ → ℕ
u32 n = n % 4294967296

abbrev pub u64 : ℕ → ℕ
u64 n = n % 18446744073709551616

-- export_buffer_t
pub record ExportBuffer : Type 0 where
  pub bytes : List ℕ
  pub alloced : ℕ
  pub deadfront : ℕ
  pub partialfront : ℕ
  pub partialrem : ℕ
  pub nextwarn : ℕ
  pub record_offsets : List ℕ
  pub since_last_saved_offset : ℕ

unfoldable pub init_export_buffer : ExportBuffer
init_export_buffer = record {
  bytes = [];
  alloced = 0;
  deadfront = 0;
  partialfront = 0;
  partialrem = 0;
  nextwarn = buffer_warning_thresh;
  record_offsets = [];
  since_last_saved_offset = 0;
}

unfoldable pub get_buffered_amount : ExportBuffer → ℕ
get_buffered_amount buf = length buf.bytes - buf.deadfront

-- the amount and what the pointer points to; `none` is NULL
pub get_buffered_head : ExportBuffer → ℕ × Option (List ℕ)
get_buffered_head buf =
    let rem = get_buffered_amount buf in
    if rem == 0 then (rem, none) else (rem, some (drop buf.deadfront buf.bytes))

pub reset_export_buffer : ExportBuffer → ExportBuffer
reset_export_buffer buf = record buf { partialfront = 0; partialrem = 0 }

-- J1S
pub judy_set : ℕ → List ℕ → List ℕ
judy_set n [] = n ∷ []
judy_set n (x ∷ xs) = if n == x then x ∷ xs else if ltb n x then n ∷ x ∷ xs else x ∷ judy_set n xs

-- J1P: the largest member below `n`
pub judy_prev : ℕ → List ℕ → Option ℕ
judy_prev n [] = none
judy_prev n (x ∷ xs) =
    if ltb x n then elim (judy_prev n xs) [ none ↦ some x | some y ↦ some y ] else none

-- the loop of `slide_buffer`: members below `slide` go, the others move
pub slide_offsets : ℕ → List ℕ → List ℕ
slide_offsets slide [] = []
slide_offsets slide (x ∷ xs) =
    let rest = slide_offsets slide xs in if leb slide x then (x - slide) ∷ rest else rest

-- `slide_buffer` from `bufhead + deadfront`: what lies behind the moved bytes stays as it is
pub slide_buffer : ExportBuffer → ℕ → ExportBuffer
unfolding slide_offsets
slide_buffer buf amount = if amount == 0 then record buf { record_offsets = [] } else record buf {
  bytes = take amount (drop buf.deadfront buf.bytes) ++ drop amount buf.bytes;
  record_offsets = slide_offsets buf.deadfront buf.record_offsets;
}

-- what `extend_buffer` slides
pub slid : ExportBuffer → ℕ → ExportBuffer
slid buf bufused = if ltb 0 buf.deadfront then slide_buffer buf bufused else buf

-- the warning's next threshold, once `alloced` has grown
abbrev pub next_warning : ExportBuffer → ℕ → ℕ
next_warning buf alloced =
    if ltb (u64 (alloced + 18446744073709551616 - buffer_alloc_size)) buf.nextwarn
      && leb buf.nextwarn alloced
    then u64 (buf.nextwarn + buffer_warning_thresh)
    else buf.nextwarn

-- the space left, 0 when the `realloc` fails
pub extend_buffer : (ℕ → Bool) → ExportBuffer → ℕ × ExportBuffer
unfolding slid
extend_buffer mem buf =
    let bufused = length buf.bytes - buf.deadfront in
    let moved = slid buf bufused in
    let alloced = u64 (moved.alloced + buffer_alloc_size) in
    if mem alloced
    then (
      alloced - bufused,
      record moved {
        bytes = take bufused moved.bytes;
        deadfront = 0;
        alloced = alloced;
        nextwarn = next_warning moved alloced;
      },
    )
    else (0, moved)

module _ (mem : ℕ → Bool) where
  -- `while (spaceleft < need)`; false when the memory runs out
  pub make_space : ℕ → ExportBuffer → ℕ → ℕ → Outcome (Bool × ExportBuffer)
  make_space zero buf spaceleft need = out_of_fuel
  make_space (suc fuel) buf spaceleft need = elim (ltb spaceleft need) [
    | false ↦ done (true, buf)
    | true ↦ elim ((extend_buffer mem buf).0 == 0) [
      | true ↦ done (false, (extend_buffer mem buf).1)
      | false ↦ make_space fuel (extend_buffer mem buf).1 (extend_buffer mem buf).0 need
    ]
  ]

-- the record's offset, when one is due
pub save_offset : ExportBuffer → ℕ → ℕ → ExportBuffer
unfolding judy_set
save_offset buf bufused added =
    if leb buf_offset_frequency (u32 (buf.since_last_saved_offset + added))
    then record buf {
      record_offsets = judy_set bufused buf.record_offsets;
      since_last_saved_offset = u32 (0 + added);
    }
    else record buf { since_last_saved_offset = u32 (buf.since_last_saved_offset + added) }

-- what an append does once there is space; `bufused` was computed before, `added` is what it counts
pub store : ℕ → ℕ → List ℕ → Outcome (Bool × ExportBuffer) → Outcome (ℕ × ExportBuffer)
unfolding save_offset
store bufused added record_bytes aborted = aborted
store bufused added record_bytes out_of_fuel = out_of_fuel
store bufused added record_bytes (done (false, buf)) = done (0, buf)
store bufused added record_bytes (done (true, buf)) =
    let saved = save_offset buf bufused added in
    done
      (length buf.bytes + length record_bytes, record saved { bytes = buf.bytes ++ record_bytes })

-- the partial send of the first record
pub begin_record : ExportBuffer → ℕ → ExportBuffer
begin_record buf beensent =
    if length buf.bytes == 0 then record buf { partialfront = beensent } else buf

pub append_etsipdu_to_buffer :
    (ℕ → Bool) → ℕ → ExportBuffer → List ℕ → ℕ → Outcome (ℕ × ExportBuffer)
unfolding begin_record
append_etsipdu_to_buffer mem fuel buf pdu beensent =
    let bufused = length buf.bytes in
    store bufused (length pdu) pdu
      (make_space mem fuel (begin_record buf beensent) (buf.alloced - bufused) (length pdu))

-- openli_encoded_result_t, as far as it is written: `msglen` counts the encoded bytes and the
-- contents
pub record EncodedResult : Type 0 where
  pub header : List ℕ
  pub msglen : ℕ
  pub encoded : List ℕ
  pub ipclen : ℕ
  pub ipcontents : List ℕ

-- the header, the encoded bytes and the contents
pub encoded_bytes : EncodedResult → List ℕ
encoded_bytes res =
    res.header
    ++ take (u32 (res.msglen + 4294967296 - res.ipclen)) res.encoded
    ++ take res.ipclen res.ipcontents

pub append_message_to_buffer :
    (ℕ → Bool) → ℕ → ExportBuffer → EncodedResult → ℕ → Outcome (ℕ × ExportBuffer)
unfolding begin_record encoded_bytes
append_message_to_buffer mem fuel buf res beensent =
    let bufused = length buf.bytes in
    store bufused (length res.header + res.msglen) (encoded_bytes res) (
      make_space mem fuel (begin_record buf beensent) (buf.alloced - bufused)
        (res.msglen + length res.header))

-- the end of `post_transmit`, and the two ways to slide
abbrev pub slid_front : ExportBuffer → ℕ → ExportBuffer
slid_front buf rem =
    let moved = slide_buffer buf rem in record moved { bytes = take rem moved.bytes; deadfront = 0 }

pub post_transmit : ExportBuffer → Outcome ExportBuffer
unfolding slide_buffer reset_export_buffer
post_transmit buf =
    let used = length buf.bytes in
    let rem = used - buf.deadfront in
    if ltb used buf.deadfront
    then aborted
    else if ltb rem (buf.alloced / 2) && ltb (10 * buffer_alloc_size) buf.alloced
    then done (
        reset_export_buffer (record (slid_front buf rem) {
          alloced = (rem / buffer_alloc_size + 1) * buffer_alloc_size;
        }))
    else if ltb (4 * (buf.alloced - used)) buf.alloced && leb buf.alloced (4 * buf.deadfront)
    then (if ltb rem buf.alloced then done (reset_export_buffer (slid_front buf rem)) else aborted)
    else done (reset_export_buffer buf)

pub advance_export_buffer_head : ExportBuffer → ℕ → Outcome ExportBuffer
unfolding post_transmit
advance_export_buffer_head buf amount =
    let rem = get_buffered_amount buf in
    let n = if ltb rem amount then rem else amount in
    post_transmit (record buf { deadfront = u32 (buf.deadfront + n) })
