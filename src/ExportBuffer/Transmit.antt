-- ===== src/ExportBuffer/Transmit.antt =====
-- Sending from the export buffer: the transmit functions of export_buffer.c.
pub mod Send
mod Tests
use https_github_com_open_li.Prelude.{
  ℕ, zero, suc, ◌+◌, ◌-◌, ◌*◌, ◌/◌, ◌%◌, Bool, true, false, not, ◌&&◌, ◌||◌, Option, none, some,
  List, [], ◌∷◌, ◌++◌, if◌then◌else◌, ltb, leb, ◌==◌, Outcome, done, aborted, out_of_fuel, length,
  take, drop,
}
use https_github_com_open_li.Prelude.Int.{ℤ, pos, negsuc, to_int}
use https_github_com_open_li.ExportBuffer.{ExportBuffer, u32, u64, judy_prev, post_transmit}

-- What `send`, or the loop around `SSL_write`, answers to a length and the bytes from the pointer on
-- that it is given. The length is an int, so it may be negative; `sent` has a result of 0 or more.
pub data Reply : Type 0 where
  sent : ℕ → Reply
  again : Reply
  broken : Reply

-- the int returned, the bytes that went out, and the buffer
abbrev pub Transmitted : Type 0
Transmitted = ℤ × List ℕ × ExportBuffer

-- `sent`, from the limit and the record offsets when no partial send is under way; `none` when the
-- assertion fails
pub amount_to_send : ExportBuffer → ℕ → Option ℕ
unfolding judy_prev
amount_to_send buf bytelimit =
    if ltb 0 buf.partialrem
    then some buf.partialrem
    else (let all =
          u64 (length buf.bytes + 18446744073709551616 - (buf.deadfront + buf.partialfront)) in
        if ltb bytelimit all
        then elim (judy_prev (bytelimit + 1 + buf.deadfront) buf.record_offsets) [
          | none ↦ none
          | some index ↦ some (u64 (index + 18446744073709551616 - buf.deadfront))
        ]
        else some all)

-- `return sent`: an amount of 64 bits, returned as an int
pub after_send : ℕ → List ℕ → Outcome ExportBuffer → Outcome Transmitted
after_send n wire aborted = aborted
after_send n wire out_of_fuel = out_of_fuel
after_send n wire (done buf) = done (to_int (u32 n), wire, buf)

-- what follows the send of `n` bytes, those from the pointer on being `offered`
pub sent_some : ExportBuffer → ℕ → List ℕ → Reply → Outcome Transmitted
unfolding post_transmit after_send
sent_some buf n offered broken = done (negsuc 0, [], buf)
sent_some buf n offered again = done (pos 0, [], buf)
sent_some buf n offered (sent ret) =
    if ltb ret n
    then done (
      pos ret,
      take ret offered,
      record buf {
        partialfront = u32 (buf.partialfront + ret);
        partialrem = u32 (buf.partialrem + 4294967296 - u32 ret);
      },
    )
    else after_send n (take ret offered) (
        post_transmit
          (record buf { deadfront = u32 (buf.deadfront + u32 (u32 ret + buf.partialfront)) }))

-- The amount is converted to int for the connection, `(int)sent`.
pub transmit_buffered_records : (ℤ → List ℕ → Reply) → ExportBuffer → ℕ → Outcome Transmitted
unfolding amount_to_send sent_some
transmit_buffered_records reply buf bytelimit = elim (amount_to_send buf bytelimit) [
  | none ↦ aborted
  | some n ↦
      let sending = if ltb 0 buf.partialrem then buf else record buf { partialrem = u32 n } in
      let offered = drop (buf.deadfront + buf.partialfront) buf.bytes in
      if n == 0
      then after_send 0 [] (post_transmit sending)
      else sent_some sending n offered (reply (to_int (u32 n)) offered)
]

-- `published`: whether RabbitMQ took the message, whose length is not converted
pub transmit_buffered_records_rmq : (List ℕ → Bool) → ExportBuffer → ℕ → Outcome Transmitted
unfolding post_transmit after_send
transmit_buffered_records_rmq published buf bytelimit =
    let all = length buf.bytes - buf.deadfront in
    let n = if ltb bytelimit all then bytelimit else all in
    let offered = take n (drop buf.deadfront buf.bytes) in
    if not (n == 0) && published offered
    then after_send n offered
        (post_transmit (record buf { deadfront = u32 (buf.deadfront + u32 n) }))
    else after_send n [] (post_transmit buf)
