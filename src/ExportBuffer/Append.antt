-- ===== src/ExportBuffer/Append.antt =====
-- Appends to the export buffer: the record goes behind the queue.
use https_github_com_open_li.Prelude.{
  ℕ, zero, suc, ◌+◌, ◌-◌, ◌*◌, ◌≤◌, ◌<◌, ◌≡◌, refl, sym, ap, ap₂, ◌∙◌, Bool, true, false, List,
  ◌++◌, arith, if◌then◌else◌, ltb, leb, ◌==◌, done, length, take, drop, take-of_le, length-drop,
  drop-append_le, length-append, Bool-cases, inl, inr,
}
use https_github_com_open_li.ExportBuffer.{
  ExportBuffer, EncodedResult, encoded_bytes, append_message_to_buffer, buffer_alloc_size,
  buf_offset_frequency, u32, u64, slid, extend_buffer, make_space, begin_record, save_offset, store,
  append_etsipdu_to_buffer,
}
use https_github_com_open_li.ExportBuffer.Settled.{live, IsSound, slid_bytes, slide_buffer-alloced}

-- Extending the buffer keeps the queue and gives `buffer_alloc_size` bytes more.
record IsExtended (buf after : ExportBuffer) (spaceleft : ℕ) : Type 0 where
  same : live after ≡ live buf
  sound : IsSound after
  alloced : after.alloced ≡ buf.alloced + buffer_alloc_size
  space : spaceleft ≡ after.alloced - length after.bytes
  more : buf.alloced - length buf.bytes + buffer_alloc_size ≤ spaceleft

slid-take :
    (buf : ExportBuffer)
    → IsSound buf
    → take (length buf.bytes - buf.deadfront) (slid buf (length buf.bytes - buf.deadfront)).bytes
      ≡ live buf
unfolding slid
slid-take buf h = elim (Bool-cases (ltb 0 buf.deadfront)) [
  | inl e ↦ rw e (slid_bytes buf h)
  | inr e ↦
      let at_front : buf.deadfront ≡ 0 = ground (arith, e) in
      rw e (
        take-of_le (length buf.bytes - buf.deadfront) buf.bytes (omega arith)
        ∙ ap (λ k. drop k buf.bytes) (sym at_front))
]

slid-alloced : (buf : ExportBuffer) (n : ℕ) → (slid buf n).alloced ≡ buf.alloced
unfolding slid
slid-alloced buf n = ground (arith, slide_buffer-alloced buf n)

module _ (mem : ℕ → Bool) (big : (n : ℕ) → mem n ≡ true) where
  extend_buffer-IsExtended :
      (buf : ExportBuffer)
      → IsSound buf
      → buf.alloced < 9223372036854775808
      → IsExtended buf (extend_buffer mem buf).1 (extend_buffer mem buf).0
  unfolding extend_buffer
  extend_buffer-IsExtended buf h small =
      let rem = length buf.bytes - buf.deadfront in
      let same = slid-take buf h in
      let size : length (take rem (slid buf rem).bytes) ≡ rem =
        ap length same ∙ length-drop buf.deadfront buf.bytes in
      let a = slid-alloced buf rem in
      let grown : u64 ((slid buf rem).alloced + buffer_alloc_size)
          ≡ buf.alloced + buffer_alloc_size =
        omega (arith, a) in
      rw (big (u64 ((slid buf rem).alloced + buffer_alloc_size))) (record {
        same = same;
        sound = record { front = omega arith; room = omega (arith, size, grown, h.room) };
        alloced = grown;
        space = omega (arith, size);
        more = omega (arith, grown, h.room, h.front);
      })

  make_space-IsExtended :
      (fuel : ℕ) (buf : ExportBuffer) (spaceleft need : ℕ)
      → IsSound buf
      → spaceleft ≡ buf.alloced - length buf.bytes
      → need ≤ spaceleft + fuel * buffer_alloc_size
      → buf.alloced + fuel * buffer_alloc_size < 9223372036854775808
      → (after : ExportBuffer) × (make_space mem (suc fuel) buf spaceleft need ≡ done (true, after))
        × (live after ≡ live buf)
        × IsSound after
        × (length after.bytes + need ≤ after.alloced)
  unfolding make_space
  make_space-IsExtended zero buf spaceleft need h space enough small =
      let fits : ltb spaceleft need ≡ false = ground arith in
      (buf, rw (fits, make_space), refl, h, omega (arith, h.room))
  make_space-IsExtended (suc fuel) buf spaceleft need h space enough small =
      elim (Bool-cases (ltb spaceleft need)) [
        | inr e ↦ (buf, rw (e, make_space), refl, h, ground (arith, e, h.room))
        | inl e ↦
            let x = extend_buffer-IsExtended buf h (omega arith) in
            let some_space : ((extend_buffer mem buf).0 == 0) ≡ false = ground (arith, x.more) in
            let (after, eq, same, sound, room) =
              make_space-IsExtended fuel (extend_buffer mem buf).1 (extend_buffer mem buf).0 need
                x.sound x.space (omega (arith, x.more)) (omega (arith, x.alloced)) in
            (after, rw (e, some_space, make_space) eq, same ∙ x.same, sound, room)
      ]

-- The fields that an append changes besides the bytes.
begin_record-eq :
    (buf : ExportBuffer) (beensent : ℕ)
    → begin_record buf beensent
      ≡ record buf { partialfront = if length buf.bytes == 0 then beensent else buf.partialfront }
unfolding begin_record
begin_record-eq buf beensent = elim (Bool-cases (length buf.bytes == 0)) [
  | inl e ↦ rw e
  | inr e ↦ rw e
]

save_offset-eq :
    (buf : ExportBuffer) (bufused added : ℕ)
    → let saved = save_offset buf bufused added in
      saved ≡ record buf {
        record_offsets = saved.record_offsets;
        since_last_saved_offset = saved.since_last_saved_offset;
      }
unfolding save_offset
save_offset-eq buf bufused added =
    elim (Bool-cases (leb buf_offset_frequency (u32 (buf.since_last_saved_offset + added)))) [
      | inl e ↦ rw e
      | inr e ↦ rw e
    ]

pub store-append :
    (buf : ExportBuffer) (bufused added : ℕ) (record_bytes : List ℕ)
    → IsSound buf
    → length buf.bytes + length record_bytes ≤ buf.alloced
    → (after : ExportBuffer) × (store bufused added record_bytes (done (true, buf))
        ≡ done (length after.bytes, after))
      × (live after ≡ live buf ++ record_bytes)
      × IsSound after
unfolding store
store-append buf bufused added record_bytes h room =
    let saved = save_offset buf bufused added in
    let size = length-append buf.bytes record_bytes in
    (
      record buf {
        bytes = buf.bytes ++ record_bytes;
        record_offsets = saved.record_offsets;
        since_last_saved_offset = saved.since_last_saved_offset;
      },
      ap₂ (λ n (b : ExportBuffer). done (n, record b { bytes = buf.bytes ++ record_bytes }))
          (sym size) (save_offset-eq buf bufused added),
      drop-append_le buf.bytes record_bytes buf.deadfront h.front,
      record { front = omega (arith, size, h.front); room = omega (arith, size) },
    )

-- what both appends do for the bytes of a record
module _ (mem : ℕ → Bool) (buf : ExportBuffer) (record_bytes : List ℕ) (added need beensent : ℕ)
    (big : (n : ℕ) → mem n ≡ true) (h : IsSound buf) (small : buf.alloced < 4611686018427387904)
    (short : need < 4294967296) (size : length record_bytes ≡ need) where
  appended :
      (after : ExportBuffer) × (store
          (length buf.bytes)
          added
          record_bytes
          (make_space mem 83 (begin_record buf beensent) (buf.alloced - length buf.bytes) need)
        ≡ done (length after.bytes, after))
      × (live after ≡ live buf ++ record_bytes)
      × IsSound after
  appended =
      let begun : ExportBuffer = record buf {
        partialfront = if length buf.bytes == 0 then beensent else buf.partialfront;
      } in
      let (spacious, eq, same, sound, room) =
        make_space-IsExtended mem big 82 begun (buf.alloced - length buf.bytes) need
          (record { front = h.front; room = h.room }) refl (omega arith) (omega arith) in
      let (after, eq', same', sound') =
        store-append spacious (length buf.bytes) added record_bytes sound
          (omega (arith, size, room)) in
      (
        after,
        ap
              (λ b.
                store (length buf.bytes) added record_bytes
                  (make_space mem 83 b (buf.alloced - length buf.bytes) need))
              (begin_record-eq buf beensent)
            ∙ ap (store (length buf.bytes) added record_bytes) eq
            ∙ eq',
        same' ∙ ap (λ l. l ++ record_bytes) same,
        sound',
      )

-- An append puts the record behind the queue and keeps the buffer sound: with enough memory, 82
-- extensions make room for the longest record, so it returns, and no other byte of the queue changes.
pub append_etsipdu_to_buffer-append :
    (mem : ℕ → Bool) (buf : ExportBuffer) (pdu : List ℕ) (beensent : ℕ)
    → ((n : ℕ) → mem n ≡ true)
    → IsSound buf
    → buf.alloced < 4611686018427387904
    → length pdu < 4294967296
    → (after : ExportBuffer) × (append_etsipdu_to_buffer mem 83 buf pdu beensent
        ≡ done (length after.bytes, after))
      × (live after ≡ live buf ++ pdu)
      × IsSound after
unfolding append_etsipdu_to_buffer
append_etsipdu_to_buffer-append mem buf pdu beensent big h small short =
    appended mem buf pdu (length pdu) (length pdu) beensent big h small short refl

encoded_bytes-eq :
    (res : EncodedResult)
    → res.msglen < 4294967296
    → length res.encoded + res.ipclen ≡ res.msglen
    → length res.ipcontents ≡ res.ipclen
    → encoded_bytes res ≡ res.header ++ res.encoded ++ res.ipcontents
unfolding encoded_bytes
encoded_bytes-eq res short encoded contents =
    ap₂ (λ x y. res.header ++ x ++ y)
      (take-of_le (u32 (res.msglen + 4294967296 - res.ipclen)) res.encoded (omega arith))
      (take-of_le res.ipclen res.ipcontents (omega arith))

-- The same for an encoded result, whose contents are a part of the message and whose pieces are as
-- long as it says: the header, the encoded bytes and the contents are added, in that order.
pub append_message_to_buffer-append :
    (mem : ℕ → Bool) (buf : ExportBuffer) (res : EncodedResult) (beensent : ℕ)
    → ((n : ℕ) → mem n ≡ true)
    → IsSound buf
    → buf.alloced < 4611686018427387904
    → res.msglen + length res.header < 4294967296
    → length res.encoded + res.ipclen ≡ res.msglen
    → length res.ipcontents ≡ res.ipclen
    → (after : ExportBuffer) × (append_message_to_buffer mem 83 buf res beensent
        ≡ done (length after.bytes, after))
      × (live after ≡ live buf ++ (res.header ++ res.encoded ++ res.ipcontents))
      × IsSound after
unfolding append_message_to_buffer
append_message_to_buffer-append mem buf res beensent big h small short encoded contents =
    let whole = encoded_bytes-eq res (omega arith) encoded contents in
    let size : length (encoded_bytes res) ≡ res.msglen + length res.header = omega (
      arith,
      ap length whole,
      length-append (res.header ++ res.encoded) res.ipcontents,
      length-append res.header res.encoded,
    ) in
    let (after, eq, same, sound) =
      appended mem buf (encoded_bytes res) (length res.header + res.msglen)
        (res.msglen + length res.header) beensent big h small short size in
    (after, eq, same ∙ ap (λ l. live buf ++ l) whole, sound)
