-- ===== src/Netcomms/Fields.antt =====
-- TLV fields: what is written is read back, except a field without a value at the end of a message.
use https_github_com_open_li.Prelude.{
  ℕ, suc, ◌+◌, ◌≤◌, ◌<◌, ◌≡◌, refl, sym, ap, ap₂, ◌∙◌, Bool, true, false, none, some, List, [],
  ◌++◌, arith, ltb, leb, done, length, take, drop, length-append, take-append, drop-append,
  drop-drop,
}
use https_github_com_open_li.Netcomms.{NetBuffer, be16, load16, tlv, push_tlv, decode_tlv}
use https_github_com_open_li.Netcomms.Bytes.{load16-be16}
use https_github_com_open_li.Netcomms.Buffer.{IsSound, push_generic-content}

-- type, length and value
abbrev pub field : ℕ → List ℕ → List ℕ
field type value = be16 type ++ be16 (length value) ++ value

-- A field with a value, or with anything behind it, is decoded to its type and value.
pub decode_tlv-field :
    (type : ℕ) (value rest : List ℕ)
    → type < 65536
    → length value < 65536
    → 0 < length value + length rest
    → decode_tlv (field type value ++ rest) ≡ some (type, value)
unfolding decode_tlv
decode_tlv-field type value rest small short more =
    let size = length value in
    let bytes = field type value ++ rest in
    let w = load16 (drop 2 bytes) in
    let same : w ≡ size = load16-be16 size [] ∙ omega arith in
    let t : load16 bytes ≡ type = load16-be16 type [] ∙ omega arith in
    let all = length-append value rest in
    let two : leb (length bytes) 2 ≡ false = ground arith in
    let four : leb (length bytes) 4 ≡ false = ground (arith, all) in
    let enough : ltb (length bytes) (4 + w) ≡ false = ground (arith, same, all) in
    let parsed : decode_tlv bytes ≡ some (load16 bytes, take w (drop 4 bytes)) =
      rw (two, four, enough) in
    parsed
    ∙ ap₂ (λ ty (v : List ℕ). some (ty, v)) t
        (ap (λ k. take k (value ++ rest)) same ∙ take-append value rest size refl)

-- A field without a value that ends a message is refused.
pub decode_tlv-empty_last : (type : ℕ) → decode_tlv (field type []) ≡ none
unfolding decode_tlv
decode_tlv-empty_last type = refl

-- the bytes behind a field
pub drop-field :
    (type : ℕ) (value rest : List ℕ) → drop (length value + 4) (field type value ++ rest) ≡ rest
drop-field type value rest =
    ap (λ k. drop k (field type value ++ rest))
      (let e : length value + 4 ≡ 4 + length value = omega arith in e)
    ∙ sym (drop-drop (length value) 4 (field type value ++ rest))
    ∙ drop-append value rest (length value) refl

module _ (mem : ℕ → Bool) (big : (n : ℕ) → mem n ≡ true) where
  -- A push of a value of at most 4092 bytes adds its field.
  pub push_tlv-content :
      (fuel : ℕ) (nb : NetBuffer) (type : ℕ) (value : List ℕ)
      → IsSound nb
      → length value ≤ 4092
      → (nb' : NetBuffer) × (push_tlv mem (suc (suc fuel)) nb type value
          ≡ done (some (length value + 4), nb'))
        × (nb'.content ≡ nb.content ++ field type value)
        × IsSound nb'
  unfolding push_tlv tlv
  push_tlv-content fuel nb type value h short =
      let fits : ltb 4092 (length value) ≡ false = ground arith in
      let (nb', pushed, content, sound) =
        push_generic-content mem big fuel nb (field type value) h (omega arith) in
      (
        nb',
        rw (fits, push_tlv) (pushed ∙ ap (λ n. done (some n, nb')) (omega arith)),
        content,
        sound,
      )
