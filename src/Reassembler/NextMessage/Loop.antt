-- ===== src/Reassembler/NextMessage/Loop.antt =====
-- What `get_next_tcp_reassembled` does with the segments at the front of a stream.
use https_github_com_open_li.Prelude.{
  ℕ, ◌+◌, ◌*◌, ◌≤◌, ◌<◌, ◌≡◌, refl, ap, sym, ◌∙◌, Bool, true, none, some, List, ◌∷◌, ◌++◌,
  append_assoc, arith, done, length, take, drop, drop-append, take-append, take-take, Bool-cases,
  inl, inr,
}
use https_github_com_open_li.Prelude.Int.{pos}
use https_github_com_open_li.Reassembler.Seq.{seq_cmp}
use https_github_com_open_li.Reassembler.Sip.{find_sip_message_end}
use https_github_com_open_li.Reassembler.Segment.{u16, u32, TcpSegment, TcpStream}
use https_github_com_open_li.Reassembler.NextMessage.{
  write_at, Output, buffer, must_grow, make_room, unused, copy_segment, use_segment, take_message,
  scan,
}

abbrev pub Plentiful : (ℕ → Bool) → Type 0
Plentiful mem = (n : ℕ) → mem n ≡ true

pub seq_cmp_self : (a : ℕ) → seq_cmp a a ≡ pos 0
unfolding seq_cmp
seq_cmp_self a = ground arith

-- Room is found for any segment, and the bytes copied before stay where they are.
make_room_front :
    (mem : ℕ → Bool) (out : Output) (n : ℕ) (before : List ℕ)
    → Plentiful mem
    → take (length before) (buffer out.content) ≡ before
    → (out' : Output) × (make_room mem out (length before) n ≡ some out')
      × (take (length before) (buffer out'.content) ≡ before)
unfolding make_room
make_room_front mem out n before big h = elim (Bool-cases (must_grow out (length before) n)) [
  | inl e ↦ (
    record {
      content = some (take (length before + n * 2) (buffer out.content));
      len = u16 (length before + n * 2);
    },
    ground (arith, e, big (length before + n * 2)),
    take-take (length before) (length before + n * 2) (buffer out.content) (omega arith) ∙ h,
  )
  | inr e ↦ (out, ground (arith, e), h)
]

write_at_front :
    (before bytes buf : List ℕ)
    → take (length before) buf ≡ before
    → write_at (length before) bytes buf
      ≡ before ++ bytes ++ drop (length before + length bytes) buf
write_at_front before bytes buf h =
    ap (λ t. t ++ bytes ++ drop (length before + length bytes) buf) h

-- the buffer of `out` starts with `before`
abbrev pub Front : List ℕ → Output → Type 0
Front before out = take (length before) (buffer out.content) ≡ before

-- After a copy the buffer starts with the bytes copied before and those of the segment, and the bytes
-- of the segment are what the search for the end of a message is given.
copy-Front :
    (before : List ℕ) (out : Output) (s : TcpSegment)
    → Front before out
    → length (unused s) ≡ s.length
    → Front (before ++ unused s) (copy_segment out (length before) s)
      × (take s.length (drop (length before) (buffer (copy_segment out (length before) s).content))
          ≡ unused s)
unfolding copy_segment
copy-Front before out s h n =
    let tail = drop (length before + length (unused s)) (buffer out.content) in
    let w = write_at_front before (unused s) (buffer out.content) h in
    (
      ap (take (length (before ++ unused s))) w
          ∙ take-append (before ++ unused s) tail (length (before ++ unused s)) refl,
      ap (λ b. take s.length (drop (length before) b)) (w ∙ append_assoc before (unused s) tail)
          ∙ ap (take s.length) (drop-append before (unused s ++ tail) (length before) refl)
          ∙ take-append (unused s) tail s.length (sym n),
    )

module _ (mem : ℕ → Bool) (stream : TcpStream) (s : TcpSegment) (rest : List TcpSegment)
    (out : Output) (before : List ℕ) where
  -- One round of the loop at the expected number, where the segment ends a message `e` bytes in.
  pub scan-end :
      (e : ℕ)
      → Plentiful mem
      → Front before out
      → length (unused s) ≡ s.length
      → find_sip_message_end (unused s) ≡ done (some (pos e))
      → 0 < e
      → e ≤ s.length
      → (out' : Output) × Front (before ++ unused s) out'
        × (scan mem stream (s ∷ rest) out (length before) s.seqno
            ≡ done (use_segment stream s rest out' (length before) e))
  unfolding scan take_message
  scan-end e big h n found pos_e le =
      let (grown, room, front) = make_room_front mem out s.length before big h in
      let (front', searched) = copy-Front before grown s front n in
      (
        copy_segment grown (length before) s,
        front',
        ground (arith, seq_cmp_self s.seqno, room, ap find_sip_message_end searched ∙ found),
      )

  -- One round where the segment ends no message: the loop goes on behind it.
  pub scan-on :
      Plentiful mem
      → Front before out
      → length (unused s) ≡ s.length
      → find_sip_message_end (unused s) ≡ done none
      → (out' : Output) × Front (before ++ unused s) out'
        × (scan mem stream (s ∷ rest) out (length before) s.seqno
            ≡ scan mem stream rest out' (u16 (length before + s.length)) (u32 (s.seqno + s.length)))
  unfolding scan
  scan-on big h n found =
      let (grown, room, front) = make_room_front mem out s.length before big h in
      let (front', searched) = copy-Front before grown s front n in
      (
        copy_segment grown (length before) s,
        front',
        ground (arith, seq_cmp_self s.seqno, room, ap find_sip_message_end searched ∙ found),
      )
