-- ===== src/Reassembler/Fragment.antt =====
-- The IP fragment reassembly of collector/reassembler.c, over one stream of fragments.
-- `Outcome.aborted` is a failed `assert`. The functions return at once when the stream is NULL; that
-- case is not represented. The sort of uthash is the parameter `sorter`, and `mem n` says whether a
-- `realloc` of n bytes succeeds.
pub mod InOrder
pub mod Arrival
pub mod Roundtrip
pub mod Agreement
pub mod Overlap
mod Tests
use https_github_com_open_li.Prelude.{
  ℕ, ◌+◌, ◌-◌, ◌*◌, ◌%◌, Bool, true, false, not, ◌&&◌, ◌||◌, Option, none, some, List, [], ◌∷◌,
  ◌++◌, if◌then◌else◌, ltb, leb, ◌==◌, Outcome, done, aborted, length, take, drop,
}
use https_github_com_open_li.Prelude.Int.{ℤ, pos, ◌-ℤ◌}
use https_github_com_open_li.Uthash.{Sorter, hash_find, hash_add}

-- ip_reass_fragment_t: `content` points to `length` bytes
pub record IpFragment : Type 0 where
  pub fragoff : ℕ
  pub length : ℕ
  pub content : List ℕ

-- ip_reassemble_stream_t: the stream id is kept as the bytes of the struct
pub record IpStream : Type 0 where
  pub streamid : List ℕ
  pub lastts : ℕ
  pub nextfrag : ℕ
  pub sorted : Bool
  pub endfrag : ℕ
  pub subproto : ℕ
  pub fragments : List IpFragment

-- what the functions return: -1, 0, 1
pub data Ret : Type 0 where
  failed pending ready : Ret

-- what libtrace finds in the packet: `transport` is the memory behind the IP header
pub record Ipv4Packet : Type 0 where
  pub has_header : Bool
  pub ethertype : ℕ
  pub rem : ℕ
  pub ip_hl : ℕ
  pub ip_len : ℕ
  pub transport : List ℕ

abbrev pub u16 : ℕ → ℕ
u16 n = n % 65536

unfoldable pub create_new_ipfrag_reassemble_stream : List ℕ → ℕ → IpStream
create_new_ipfrag_reassemble_stream ipid proto = record {
  streamid = ipid;
  lastts = 0;
  nextfrag = 0;
  sorted = false;
  endfrag = 0;
  subproto = proto;
  fragments = [];
}

-- the comparison function `ipfrag_sort`
pub ipfrag_sort : IpFragment → IpFragment → ℤ
ipfrag_sort a b = pos a.fragoff -ℤ pos b.fragoff

-- `iprem`, a uint16_t
pub payload_length : Ipv4Packet → ℕ
payload_length pkt =
    if pkt.ip_len == 0
    then u16 (pkt.rem - 4 * pkt.ip_hl)
    else u16 (pkt.ip_len + 65536 - 4 * pkt.ip_hl)

pub find_fragment : ℕ → List IpFragment → Option IpFragment
find_fragment fragoff = hash_find (λ f. f.fragoff == fragoff)

pub new_fragment : Ipv4Packet → ℕ → IpFragment
new_fragment pkt fragoff = record {
  fragoff = fragoff;
  length = payload_length pkt;
  content = take (payload_length pkt) pkt.transport;
}

-- the fragment that the end is computed from, and the table
pub add_fragment : Option IpFragment → IpFragment → List IpFragment → IpFragment × List IpFragment
add_fragment none new frags = (new, hash_add new frags)
add_fragment (some old) new frags = (old, frags)

pub update_ipfrag_reassemble_stream : IpStream → Ipv4Packet → ℕ → Bool → Ret × IpStream
update_ipfrag_reassemble_stream stream pkt fragoff moreflag =
    if ltb pkt.rem 20 || not pkt.has_header
    then (failed, stream)
    else if pkt.ethertype == 0x86dd
    then (ready, stream)
    else if not moreflag && (fragoff == 0)
    then (ready, stream)
    else if leb pkt.rem (4 * pkt.ip_hl)
    then (failed, stream)
    else (let (frag, frags) =
          add_fragment (find_fragment fragoff stream.fragments) (new_fragment pkt fragoff)
            stream.fragments in
        (
          pending,
          record stream {
            fragments = frags;
            endfrag = if moreflag then stream.endfrag else u16 (frag.fragoff + frag.length);
            sorted = false;
          },
        ))

module _ (sorter : Sorter IpFragment) where
  pub sort_fragments : IpStream → IpStream
  sort_fragments stream =
      if stream.sorted
      then stream
      else record stream { fragments = sorter.sort ipfrag_sort stream.fragments; sorted = true }

-- The loop of `is_ip_reassembled`: `some` of the offset reached, or `none` at a gap.
pub check_fragments : List IpFragment → ℕ → Outcome (Option ℕ)
check_fragments [] expfrag = done (some expfrag)
check_fragments (f ∷ fs) expfrag =
    let rest = check_fragments fs (u16 (expfrag + f.length)) in
    if ltb f.fragoff expfrag
    then aborted
    else if not (f.fragoff == expfrag)
    then done none
    else rest

-- the test after the loop
abbrev pub at_end : IpStream → ℕ → Bool
at_end stream expfrag = not (not (expfrag == stream.endfrag) || stream.endfrag == 0)

abbrev pub checked : IpStream → Outcome (Option ℕ) → Outcome (Bool × IpStream)
checked stream aborted = aborted
checked stream Outcome.out_of_fuel = Outcome.out_of_fuel
checked stream (done none) = done (false, stream)
checked stream (done (some expfrag)) = done (at_end stream expfrag, stream)

pub is_ip_reassembled : Sorter IpFragment → IpStream → Outcome (Bool × IpStream)
is_ip_reassembled sorter stream =
    let s = sort_fragments sorter stream in checked s (check_fragments s.fragments 0)

-- memcpy of `bytes` to offset `off` of a buffer
abbrev pub write_at : ℕ → List ℕ → List ℕ → List ℕ
write_at off bytes buf = take off buf ++ bytes ++ drop (off + length bytes) buf

-- `*content` (`none` is NULL), `contalloced` and `*len` of the loop
pub record Gather : Type 0 where
  pub content : Option (List ℕ)
  pub contalloced : ℕ
  pub len : ℕ

-- How the loop ends: at a gap, at a failed `realloc`, or with all fragments copied up to `expfrag`.
pub data Gathered : Type 0 where
  gap : Gather → Gathered
  no_memory : Gather → Gathered
  copied : ℕ → Gather → Gathered

abbrev pub buffer : Option (List ℕ) → List ℕ
buffer none = []
buffer (some b) = b

-- the test before `realloc`
pub must_grow : Gather → ℕ → ℕ → Bool
must_grow g expfrag n = elim g.content [ none ↦ true | some _ ↦ ltb g.contalloced (expfrag + n) ]

-- `realloc` keeps the bytes that fit in the new size
pub grown : Gather → ℕ → Gather
grown g size = record g { content = some (take size (buffer g.content)); contalloced = u16 size }

-- memcpy and `*len += iter->length`
pub copy_fragment : Gather → ℕ → IpFragment → Gather
copy_fragment g expfrag f = record g {
  content = some (write_at expfrag f.content (buffer g.content));
  len = u16 (g.len + f.length);
}

module _ (mem : ℕ → Bool) where
  -- `none` when the `realloc` fails
  pub make_room : Gather → ℕ → ℕ → Option Gather
  unfolding must_grow grown
  make_room g expfrag n =
      let size = expfrag + n * 2 in
      if must_grow g expfrag n then (if mem size then some (grown g size) else none) else some g

  pub gather : List IpFragment → ℕ → Gather → Outcome Gathered
  gather [] expfrag g = done (copied expfrag g)
  gather (f ∷ fs) expfrag g =
      if ltb f.fragoff expfrag
      then aborted
      else if not (f.fragoff == expfrag)
      then done (gap g)
      else elim (make_room g expfrag f.length) [
        | none ↦ done (no_memory g)
        | some g' ↦ gather fs (u16 (expfrag + f.length)) (copy_fragment g' expfrag f)
      ]

-- `*content`, `*len` and `*proto` with the value returned
pub record Reassembled : Type 0 where
  pub ret : Ret
  pub content : Option (List ℕ)
  pub len : ℕ
  pub proto : ℕ

abbrev pub outputs : IpStream → Gathered → Reassembled
outputs stream (gap g) = record { ret = pending; content = g.content; len = 0; proto = 0 }
outputs stream (no_memory g) = record { ret = failed; content = none; len = g.len; proto = 0 }
outputs stream (copied expfrag g) =
    if at_end stream expfrag
    then record { ret = ready; content = g.content; len = g.len; proto = stream.subproto }
    else record { ret = pending; content = g.content; len = 0; proto = 0 }

abbrev pub finished : IpStream → Outcome Gathered → Outcome (Reassembled × IpStream)
finished stream aborted = aborted
finished stream Outcome.out_of_fuel = Outcome.out_of_fuel
finished stream (done g) = done (outputs stream g, stream)

pub get_next_ip_reassembled :
    Sorter IpFragment → (ℕ → Bool) → IpStream → Option (List ℕ) → Outcome (Reassembled × IpStream)
get_next_ip_reassembled sorter mem stream content =
    let s = sort_fragments sorter stream in
    finished s (gather mem s.fragments 0 (record { content = content; contalloced = 0; len = 0 }))

-- the two 16-bit loads from the front of the content, in network order
abbrev pub load_ports : List ℕ → ℕ × ℕ
load_ports (a ∷ b ∷ c ∷ d ∷ _) = (a * 256 + b, c * 256 + d)
load_ports _ = (0, 0)

-- `get_ipfrag_ports` once sorted; with no fragment at all it reads through a NULL pointer
pub first_ports : List IpFragment → Outcome (Ret × ℕ × ℕ)
first_ports [] = aborted
first_ports (f ∷ fs) =
    if ltb 0 f.fragoff
    then done (pending, 0, 0)
    else if ltb f.length 4
    then done (pending, 0, 0)
    else (let (src, dest) = load_ports f.content in done (ready, src, dest))

pub get_ipfrag_ports : Sorter IpFragment → IpStream → Outcome (Ret × ℕ × ℕ) × IpStream
get_ipfrag_ports sorter stream =
    let s = sort_fragments sorter stream in (first_ports s.fragments, s)
