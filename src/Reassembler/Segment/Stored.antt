-- ===== src/Reassembler/Segment/Stored.antt =====
-- The segments of a stream have bytes left: updates keep that, and end because of it.
use native.Mathlib.Bridge.{le_prop}
use mathlib.Core.Logic.Or
use mathlib.Core.List.{Mem, mem-append, mem-cons, mem-cons_self, mem-cons_of_mem, not-mem-nil}
use https_github_com_open_li.Prelude.{
  ℕ, zero, suc, ◌+◌, ◌≤◌, ◌<◌, ◌≡◌, ◌≢◌, inl, inr, refl, sym, ap, some, List, [], ◌∷◌, arith, done,
  out_of_fuel, length, drop, length-drop, Option-cases, subst,
}
use https_github_com_open_li.Uthash.{hash_find, hash_add}
use https_github_com_open_li.Reassembler.Sip.Framing.{find_sip_message_end-ends}
use https_github_com_open_li.Reassembler.Segment.{
  u32, TcpSegment, TcpStream, Ret, new_segment, accept, add_segment, find_segment,
  update_tcp_reassemble_stream,
}
use https_github_com_open_li.Reassembler.Segment.Update.{
  Handled, refused, known, old, direct, added, update_tcp_reassemble_stream-Updated,
}

-- A stored segment has bytes left, and all of them are in its content.
pub record IsStored (s : TcpSegment) : Type 0 where
  pub some_left : 0 < s.length
  pub held : s.offset + s.length ≤ length s.content
  pub fits : length s.content < 65536
  pub number : s.seqno < 4294967296

pub IsStored-prop : (s : TcpSegment) → IsProp (IsStored s)
IsStored-prop s = hlevel le_prop

abbrev pub AllStored : List TcpSegment → Type 0
AllStored l = (s : TcpSegment) → Mem s l → IsStored s

AllStored-add :
    (l : List TcpSegment) (s : TcpSegment) → AllStored l → IsStored s → AllStored (hash_add s l)
AllStored-add l s h k t m = Or.elim (IsStored-prop t) (mem-append.0 m) (h t) (λ q.
    Or.elim (IsStored-prop t) (mem-cons.0 q) (λ e. subst IsStored (sym e) k)
      (λ n. absurd (not-mem-nil n)))

module _ (hash : ℕ → ℕ) where
  find_segment-IsStored :
      (seqno : ℕ) (l : List TcpSegment) {s : TcpSegment}
      → AllStored l
      → find_segment hash seqno l ≡ some s
      → IsStored s
  unfolding find_segment hash_find
  find_segment-IsStored seqno [] h e = cc
  find_segment-IsStored seqno (t ∷ l) {s} h e =
      let first = h t mem-cons_self in
      let later = λ (q : find_segment hash seqno l ≡ some s).
        find_segment-IsStored seqno l {s = s} (λ x m. h x (mem-cons_of_mem t m)) q in
      ground (arith, first, later)

  add_segment-ends :
      (stream : TcpStream) (content : List ℕ) (seqno : ℕ)
      → add_segment stream content seqno ≢ out_of_fuel
  unfolding add_segment accept
  add_segment-ends stream content seqno = ground (arith, find_sip_message_end-ends content)

  -- The recursion over stored segments ends, if each of them has bytes left: every call drops some of
  -- the new bytes.
  pub update_tcp_reassemble_stream-ends :
      (fuel : ℕ) (stream : TcpStream) (content : List ℕ) (seqno : ℕ)
      → AllStored stream.segments
      → length content < fuel
      → update_tcp_reassemble_stream hash fuel stream content seqno ≢ out_of_fuel
  unfolding update_tcp_reassemble_stream
  update_tcp_reassemble_stream-ends zero stream content seqno h enough = absurd (omega arith)
  update_tcp_reassemble_stream-ends (suc fuel) stream content seqno h enough =
      elim (Option-cases (find_segment hash seqno stream.segments)) [
        | inl e ↦ rw (e, update_tcp_reassemble_stream) (add_segment-ends stream content seqno)
        | inr (s, e) ↦
            let stored = find_segment-IsStored seqno stream.segments h e in
            ground (
              arith,
              e,
              length-drop s.length content,
              update_tcp_reassemble_stream-ends fuel stream (drop s.length content)
                  (u32 (seqno + s.length)) h,
            )
      ]

  -- A segment of no bytes would make an update with more bytes at its number run for ever.
  pub update_tcp_reassemble_stream-runs_on :
      (fuel : ℕ) (stream : TcpStream) (content : List ℕ) (seqno : ℕ) (s : TcpSegment)
      → find_segment hash seqno stream.segments ≡ some s
      → s.length ≡ 0
      → 0 < length content
      → seqno < 4294967296
      → update_tcp_reassemble_stream hash fuel stream content seqno ≡ out_of_fuel
  unfolding update_tcp_reassemble_stream
  update_tcp_reassemble_stream-runs_on zero stream content seqno s e none_left full small = refl
  update_tcp_reassemble_stream-runs_on (suc fuel) stream content seqno s e none_left full small =
      let u : u32 (seqno + s.length) ≡ seqno = omega arith in
      ground (
        arith,
        e,
        u,
        ap (λ k. drop k content) none_left,
        update_tcp_reassemble_stream-runs_on fuel stream content seqno s e none_left full small,
      )

Handled-AllStored :
    (hash : ℕ → ℕ) {stream after : TcpStream} {r : Ret} (content : List ℕ) (seqno : ℕ)
    → Handled hash stream content seqno r after
    → 0 < length content
    → length content < 65536
    → seqno < 4294967296
    → AllStored stream.segments
    → AllStored after.segments
Handled-AllStored hash content seqno (refused _ _ _ _ e) full fits small h = rw e h
Handled-AllStored hash content seqno (known _ _ _ _ e) full fits small h = rw e h
Handled-AllStored hash content seqno (old _ _ _ e) full fits small h = rw e h
Handled-AllStored hash content seqno (direct _ _ _ _ e) full fits small h = rw e h
Handled-AllStored hash {stream} content seqno (added _ _ _ _ e) full fits small h = rw e (
    AllStored-add stream.segments (new_segment content seqno) h (unfold new_segment in omega arith))

-- Every update of one byte or more keeps the segments in order, and the expected number in range.
pub update_tcp_reassemble_stream-AllStored :
    (hash : ℕ → ℕ) (fuel : ℕ) (stream : TcpStream) (content : List ℕ) (seqno : ℕ) {r : Ret}
    {after : TcpStream}
    → 0 < length content
    → length content < 65536
    → seqno < 4294967296
    → stream.expectedseqno < 4294967296
    → AllStored stream.segments
    → update_tcp_reassemble_stream hash fuel stream content seqno ≡ done (r, after)
    → AllStored after.segments
update_tcp_reassemble_stream-AllStored hash fuel stream content seqno full fits small room h e =
    let (k, _, inside, handled) =
      update_tcp_reassemble_stream-Updated hash fuel stream content seqno full small room e in
    let size = length-drop k content in
    Handled-AllStored hash (drop k content) (u32 (seqno + k)) handled (omega (arith, size))
      (omega (arith, size)) (omega arith) h
