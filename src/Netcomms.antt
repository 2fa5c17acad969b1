-- ===== src/Netcomms.antt =====
-- The control protocol of the three programs, netcomms.c: the net buffer, message headers, TLV fields.
-- A buffer's memory is the list `content` between `actptr` and `appendptr`, behind `front` free bytes;
-- its sizes are ints in the code and taken to be below 2 ^ 31. `mem n` says whether a `realloc` to n
-- bytes succeeds. Strings are their bytes without the final zero.
pub mod Bytes
pub mod Buffer
pub mod Fields
pub mod Messages
mod Tests
use https_github_com_open_li.Prelude.{
  ℕ, zero, suc, ◌+◌, ◌-◌, ◌*◌, ◌/◌, ◌%◌, Bool, true, false, ◌&&◌, ◌||◌, Option, none, some, List,
  [], ◌∷◌, ◌++◌, if◌then◌else◌, ltb, leb, ◌==◌, Outcome, done, aborted, out_of_fuel, length, take,
  drop,
}

abbrev pub netbuf_alloc_size : ℕ
netbuf_alloc_size = 10485760

abbrev pub openli_proto_magic : ℕ
openli_proto_magic = 0x5c4c6c5c

-- net_buffer_t, for one direction and without the connection
pub record NetBuffer : Type 0 where
  pub front : ℕ
  pub content : List ℕ
  pub alloced : ℕ

unfoldable pub create_net_buffer : NetBuffer
create_net_buffer = record { front = 0; content = []; alloced = netbuf_alloc_size }

-- NETBUF_SPACE_REM
abbrev pub space_rem : NetBuffer → ℕ
space_rem nb = nb.alloced - (nb.front + length nb.content)

-- `none` is -1
pub extend_net_buffer : (ℕ → Bool) → NetBuffer → ℕ → Option NetBuffer × NetBuffer
extend_net_buffer mem nb musthave =
    let slides = leb (3 * nb.alloced) (4 * nb.front) in
    let slid = if slides then record nb { front = 0 } else nb in
    if slides && leb musthave (space_rem slid)
    then (some slid, slid)
    else if mem (nb.alloced + netbuf_alloc_size)
    then (some (record slid { alloced = nb.alloced + netbuf_alloc_size }), slid)
    else (none, slid)

module _ (mem : ℕ → Bool) where
  -- `while (NETBUF_SPACE_REM(nb) < len)`; false when the memory runs out
  pub make_space : ℕ → NetBuffer → ℕ → Outcome (Bool × NetBuffer)
  make_space zero nb len = out_of_fuel
  make_space (suc fuel) nb len = elim (ltb (space_rem nb) len) [
    | false ↦ done (true, nb)
    | true ↦ elim (extend_net_buffer mem nb len).0 [
      | none ↦ done (false, (extend_net_buffer mem nb len).1)
      | some nb' ↦ make_space fuel nb' len
    ]
  ]

abbrev pub append : List ℕ → Outcome (Bool × NetBuffer) → Outcome (Option ℕ × NetBuffer)
append pushed aborted = aborted
append pushed out_of_fuel = out_of_fuel
append pushed (done (false, nb)) = done (none, nb)
append pushed (done (true, nb)) =
    done (some (length pushed), record nb { content = nb.content ++ pushed })

-- the value returned (`none` is -1) and the buffer
pub push_generic_onto_net_buffer :
    (ℕ → Bool) → ℕ → NetBuffer → List ℕ → Outcome (Option ℕ × NetBuffer)
push_generic_onto_net_buffer mem fuel nb pushed =
    if length pushed == 0
    then done (some 0, nb)
    else append pushed (make_space mem fuel nb (length pushed))

-- htons, htonl and bswap_host_to_be64, as bytes
abbrev pub be16 : ℕ → List ℕ
be16 n = (n / 256) % 256 ∷ n % 256 ∷ []

abbrev pub be32 : ℕ → List ℕ
be32 n = be16 (n / 65536) ++ be16 n

abbrev pub be64 : ℕ → List ℕ
be64 n = be32 (n / 4294967296) ++ be32 n

-- ntohs, ntohl and bswap_be_to_host64
abbrev pub load16 : List ℕ → ℕ
load16 (a ∷ b ∷ _) = a * 256 + b
load16 _ = 0

abbrev pub load32 : List ℕ → ℕ
load32 l = load16 l * 65536 + load16 (drop 2 l)

abbrev pub load64 : List ℕ → ℕ
load64 l = load32 l * 4294967296 + load32 (drop 4 l)

-- the 16 bytes of an ii_header_t
pub populate_header : ℕ → ℕ → ℕ → List ℕ
populate_header msgtype len intid =
    be32 openli_proto_magic ++ be16 len ++ be16 msgtype ++ be64 intid

pub construct_netcomm_protocol_header : ℕ → ℕ → ℕ → Option (List ℕ)
unfolding populate_header
construct_netcomm_protocol_header contentlen msgtype internalid =
    if ltb 65535 contentlen
    then none
    else some (populate_header msgtype (contentlen % 65536) internalid)

-- what `parse_received_message` returns: OPENLI_PROTO_NO_MESSAGE, OPENLI_PROTO_INVALID_MESSAGE, or the
-- type of a message with `*msgbody` and `*intid`
pub data Parsed : Type 0 where
  no_message invalid_message : Parsed
  message : ℕ → List ℕ → ℕ → Parsed

pub parse_received_message : NetBuffer → Parsed × NetBuffer
parse_received_message nb =
    let bodylen = load16 (drop 4 nb.content) in
    if ltb (length nb.content) 16
    then (no_message, nb)
    else if load32 nb.content == openli_proto_magic
    then (if ltb (length nb.content) (16 + bodylen) then (no_message, nb) else (
      message (load16 (drop 6 nb.content)) (take bodylen (drop 16 nb.content))
          (load64 (drop 8 nb.content)),
      record nb { front = nb.front + (bodylen + 16); content = drop (bodylen + 16) nb.content },
    ))
    else (invalid_message, nb)

-- the bytes of a field, `none` for a value that is too long
pub tlv : ℕ → List ℕ → Option (List ℕ)
tlv type value =
    if ltb 4092 (length value) then none else some (be16 type ++ be16 (length value) ++ value)

-- the field at the front of the bytes up to the message's end; -1 is `none`
pub decode_tlv : List ℕ → Option (ℕ × List ℕ)
decode_tlv bytes =
    let vallen = load16 (drop 2 bytes) in
    if leb (length bytes) 2
    then none
    else if leb (length bytes) 4
    then none
    else if ltb (length bytes) (4 + vallen)
    then none
    else some (load16 bytes, take vallen (drop 4 bytes))

module _ (mem : ℕ → Bool) (fuel : ℕ) where
  pub push_tlv : NetBuffer → ℕ → List ℕ → Outcome (Option ℕ × NetBuffer)
  unfolding tlv push_generic_onto_net_buffer
  push_tlv nb type value = elim (tlv type value) [
    | none ↦ done (none, nb)
    | some field ↦ push_generic_onto_net_buffer mem fuel nb field
  ]

-- what `send` or `SSL_write` answers to the bytes that it is given
pub data Reply : Type 0 where
  sent : ℕ → Reply
  again : Reply
  broken : Reply

-- `actptr += ret`, and moving the content to the front
pub advance : NetBuffer → ℕ → NetBuffer
advance nb ret =
    if ltb netbuf_alloc_size (nb.front + ret)
    then record nb { front = 0; content = drop ret nb.content }
    else record nb { front = nb.front + ret; content = drop ret nb.content }

abbrev pub transmitted : NetBuffer → Reply → Option ℕ × List ℕ × NetBuffer
transmitted nb again = (some 1, [], nb)
transmitted nb broken = (none, [], nb)
transmitted nb (sent ret) =
    let nb' = advance nb ret in (some (length nb'.content), take ret nb.content, nb')

-- the value returned (`none` is -1, with OPENLI_PROTO_SEND_ERROR), the bytes that went out, the buffer
pub transmit_net_buffer : (List ℕ → Reply) → NetBuffer → Option ℕ × List ℕ × NetBuffer
unfolding advance
transmit_net_buffer reply nb =
    if length nb.content == 0 then (some 0, [], nb) else transmitted nb (reply nb.content)
