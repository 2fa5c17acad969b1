-- ===== src/Reassembler/Fragment/Arrival.antt =====
-- The fragments of one datagram as they arrive in packets, and what the stream holds after them.
use native.Mathlib.Nat.{ℕ_set}
use mathlib.Core.Logic.Or
use mathlib.Core.List.{
  Mem, Pairwise, mem-cons, mem-cons_self, mem-append, not-mem-nil, mem-cons_of_mem,
}
use mathlib.Core.List.Pairwise
use https_github_com_open_li.Prelude.{
  ℕ, ◌+◌, ◌*◌, ◌≤◌, ◌<◌, ◌≡◌, ◌≢◌, refl, sym, ap, ◌∙◌, Bool, true, false, none, List, [], ◌∷◌, ◌++◌,
  map, append_assoc, append-nil, arith, length, take, Bool-cases, inl, inr,
}
use https_github_com_open_li.Uthash.{hash_find}
use https_github_com_open_li.Reassembler.Fragment.{
  IpFragment, IpStream, Ret, pending, Ipv4Packet, u16, payload_length, find_fragment, new_fragment,
  add_fragment, update_ipfrag_reassemble_stream,
}

-- A piece of a datagram: where it starts, the flag that more follow, and its bytes.
pub record Arrival : Type 0 where
  pub fragoff : ℕ
  pub more : Bool
  pub bytes : List ℕ

abbrev pub fragment : Arrival → IpFragment
fragment a = record { fragoff = a.fragoff; length = length a.bytes; content = a.bytes }

-- The packet is IPv4, is captured beyond its header, and carries the bytes.
pub record Carries (pkt : Ipv4Packet) (bytes : List ℕ) : Type 0 where
  pub header : pkt.has_header ≡ true
  pub captured : 20 ≤ pkt.rem
  pub beyond : 4 * pkt.ip_hl < pkt.rem
  pub ipv4 : pkt.ethertype ≢ 0x86dd
  pub sized : payload_length pkt ≡ length bytes
  pub held : take (length bytes) pkt.transport ≡ bytes

find_fragment-none :
    (off : ℕ) (frags : List IpFragment)
    → ((f : IpFragment) → Mem f frags → f.fragoff ≢ off)
    → find_fragment off frags ≡ none
unfolding find_fragment hash_find
find_fragment-none off [] h = refl
find_fragment-none off (f ∷ fs) h =
    ground (arith, h f mem-cons_self, find_fragment-none off fs (λ x m. h x (mem-cons_of_mem f m)))

-- What an update leaves of the stream, for a fragment that is not there yet.
abbrev pub after : IpStream → Arrival → IpStream
after stream a = record stream {
  fragments = stream.fragments ++ fragment a ∷ [];
  endfrag = elim a.more [ true ↦ stream.endfrag | false ↦ u16 (a.fragoff + length a.bytes) ];
  sorted = false;
}

update_new :
    (stream : IpStream) (pkt : Ipv4Packet) (a : Arrival)
    → Carries pkt a.bytes
    → (a.more ≡ false → 0 < a.fragoff)
    → find_fragment a.fragoff stream.fragments ≡ none
    → update_ipfrag_reassemble_stream stream pkt a.fragoff a.more ≡ (pending, after stream a)
unfolding update_ipfrag_reassemble_stream add_fragment new_fragment
update_new stream pkt a c pos fresh = ground (arith, c.sized, c.held, c.ipv4, pos)

-- The stream after the packets of the arrivals, one after the other.
pub deliver : (Arrival → Ipv4Packet) → IpStream → List Arrival → IpStream
deliver wrap stream [] = stream
deliver wrap stream (a ∷ l) =
    deliver wrap (update_ipfrag_reassemble_stream stream (wrap a) a.fragoff a.more).1 l

abbrev pub Distinct : List Arrival → Type 0
Distinct = Pairwise (λ a b. a.fragoff ≢ b.fragoff)

-- no arrival has the offset of a fragment that is already in the stream
abbrev pub Fresh : IpStream → List Arrival → Type 0
Fresh stream l =
    (a : Arrival) → Mem a l → (f : IpFragment) → Mem f stream.fragments → f.fragoff ≢ a.fragoff

Fresh-after :
    (stream : IpStream) (a : Arrival) (l : List Arrival)
    → Distinct (a ∷ l)
    → Fresh stream (a ∷ l)
    → Fresh (after stream a) l
Fresh-after stream a l (Pairwise.cons d _) fr b m f k =
    Or.elim (hlevel) (mem-append.0 k) (fr b (mem-cons_of_mem a m) f) (λ new.
      Or.elim (hlevel) (mem-cons.0 new)
        (λ e q. d b m (sym (ap (λ (x : IpFragment). x.fragoff) e) ∙ q))
        (λ bad. absurd (not-mem-nil bad)))

abbrev pub afters : IpStream → List Arrival → IpStream
afters stream [] = stream
afters stream (a ∷ l) = afters (after stream a) l

-- A packet with content, and one that starts past 0 if it is the last.
abbrev pub Delivers : (Arrival → Ipv4Packet) → List Arrival → Type 0
Delivers wrap l =
    (a : Arrival) → Mem a l → Carries (wrap a) a.bytes × (a.more ≡ false → 0 < a.fragoff)

-- With distinct offsets every packet adds its fragment.
pub deliver-afters :
    (wrap : Arrival → Ipv4Packet) (stream : IpStream) (l : List Arrival)
    → Delivers wrap l
    → Distinct l
    → Fresh stream l
    → deliver wrap stream l ≡ afters stream l
unfolding deliver
deliver-afters wrap stream [] c d fr = refl
deliver-afters wrap stream (a ∷ l) c d fr =
    let here = c a mem-cons_self in
    let e =
      update_new stream (wrap a) a here.0 here.1
        (find_fragment-none a.fragoff stream.fragments (fr a mem-cons_self)) in
    ap (λ (s : Ret × IpStream). deliver wrap s.1 l) e
    ∙ deliver-afters wrap (after stream a) l (λ b m. c b (mem-cons_of_mem a m)) (Pairwise.of_cons d)
        (Fresh-after stream a l d fr)

pub fragments-afters :
    (stream : IpStream) (l : List Arrival)
    → (afters stream l).fragments ≡ stream.fragments ++ map fragment l
fragments-afters stream [] = sym (append-nil stream.fragments)
fragments-afters stream (a ∷ l) =
    fragments-afters (after stream a) l
    ∙ append_assoc stream.fragments (fragment a ∷ []) (map fragment l)

pub sorted-afters :
    (stream : IpStream) (l : List Arrival)
    → stream.sorted ≡ false
    → (afters stream l).sorted ≡ false
sorted-afters stream [] h = h
sorted-afters stream (a ∷ l) h = sorted-afters (after stream a) l refl

pub subproto-afters :
    (stream : IpStream) (l : List Arrival) → (afters stream l).subproto ≡ stream.subproto
subproto-afters stream [] = refl
subproto-afters stream (a ∷ l) = subproto-afters (after stream a) l

-- every last piece ends at `n`
abbrev pub EndsAt : ℕ → List Arrival → Type 0
EndsAt n l = (a : Arrival) → Mem a l → a.more ≡ false → u16 (a.fragoff + length a.bytes) ≡ n

endfrag-kept :
    (n : ℕ) (stream : IpStream) (l : List Arrival)
    → EndsAt n l
    → stream.endfrag ≡ n
    → (afters stream l).endfrag ≡ n
endfrag-kept n stream [] h e = e
endfrag-kept n stream (a ∷ l) h e =
    endfrag-kept n (after stream a) l (λ b m. h b (mem-cons_of_mem a m))
      (elim (Bool-cases a.more) [ inl t ↦ rw t e | inr f ↦ rw f (h a mem-cons_self f) ])

-- Once a last piece has arrived, the end of the datagram is known.
pub endfrag-afters :
    (n : ℕ) (a : Arrival) (stream : IpStream) (l : List Arrival)
    → EndsAt n l
    → Mem a l
    → a.more ≡ false
    → (afters stream l).endfrag ≡ n
endfrag-afters n a stream [] h m last = absurd (not-mem-nil m)
endfrag-afters n a stream (b ∷ l) h m last =
    let rest : EndsAt n l = λ c k. h c (mem-cons_of_mem b k) in
    Or.elim (ℕ_set _ _) (mem-cons.0 m)
      (λ e.
        let f : b.more ≡ false = ap (λ (x : Arrival). x.more) (sym e) ∙ last in
        endfrag-kept n (after stream b) l rest (rw f (h b mem-cons_self f)))
      (λ k. endfrag-afters n a (after stream b) l rest k last)
