-- ===== src/Radius/Sessions/Sound.antt =====
-- A message whose response was matched, and whose prefixes have their two bytes in front, is handled
-- without an invalid access.
use https_github_com_open_li.Prelude.{
  ℕ, ◌-◌, ◌≡◌, refl, sym, ap, ◌∙◌, Bool, true, false, ◌&&◌, Option, none, some, List, [], ◌∷◌,
  if◌then◌else◌, leb, ◌==◌, drop, get_or, subst, arith, Bool-cases, inl, inr,
}
use https_github_com_open_li.Prelude.Int.{pos, sub_ℕ}
use https_github_com_open_li.AccessSession.{
  SessionIp, AccessSession, AccessAction, attempt, accept, failed, reject, already_active,
  interim_update, modified, end, end_sudden, retry, no_action, af_inet, af_inet6,
  add_new_session_ip,
}
use https_github_com_open_li.Radius.{Attribute, RadiusParsed, SavedReq, OrphanedResp, is_request}
use https_github_com_open_li.Radius.Code
use https_github_com_open_li.Radius.Sessions.{
  is_prefix, is_nil, and_then, extract_address, extract_addresses, extract_assigned_ip_address,
  update_first_action, update_second_action, first_addresses, second_addresses, started_at,
}

-- every prefix has the two bytes in front of the address
abbrev pub all_wide : List Attribute → Bool
all_wide [] = true
all_wide (a ∷ attrs) = (if is_prefix a.att_type then leb 2 a.att_len else true) && all_wide attrs

abbrev pub req_wide : Option SavedReq → Bool
req_wide none = true
req_wide (some req) = all_wide req.attrs

abbrev pub resp_wide : Option OrphanedResp → Bool
resp_wide none = true
resp_wide (some r) = all_wide r.savedattrs

-- What holds of a message that comes to a session: only a request can have found an orphaned response,
-- and an accounting response has found its request.
pub record IsSound (m : RadiusParsed) : Type 0 where
  pub fresh : m.secondaction ≡ no_action
  pub orphan_of_request : is_request m.msgtype ≡ false → m.savedresp ≡ none
  pub answers : m.msgtype ≡ Code.account_response → (req : SavedReq) × (m.savedreq ≡ some req)
  pub wide : all_wide m.attrs ≡ true
  pub wide_request : req_wide m.savedreq ≡ true
  pub wide_response : resp_wide m.savedresp ≡ true

abbrev pub IsSome {ℓ} : {A : Type ℓ} → Option A → Type ℓ
IsSome {A} o = (a : A) × (o ≡ some a)

-- what a first action leaves: the message with other attributes for the first record
abbrev pub IsFirst : Option (RadiusParsed × AccessSession) → RadiusParsed → Type 0
IsFirst o m =
    (attrs : List Attribute) × (sess : AccessSession) × (o
      ≡ some (record m { firstattrs = attrs }, sess))

abbrev pub IsSecond : Option (RadiusParsed × AccessSession) → RadiusParsed → Type 0
IsSecond o m =
    (attrs : List Attribute) × (sess : AccessSession) × (o
      ≡ some (record m { secondattrs = attrs }, sess))

-- the actions that read the request that was found
abbrev pub needs_request : AccessAction → Bool
needs_request already_active = true
needs_request interim_update = true
needs_request end = true
needs_request _ = false

-- the actions that read the orphaned response
abbrev pub needs_response : AccessAction → Bool
needs_response accept = true
needs_response already_active = true
needs_response _ = false

if-IsSome {ℓ} :
    {A : Type ℓ} (b : Bool) {x y : Option A} → IsSome x → IsSome y → IsSome (if b then x else y)
if-IsSome true h k = h
if-IsSome false h k = k

module _ (junk : SessionIp) where
  add_new_session_ip-IsSome :
      (sess : AccessSession) (v : List ℕ) (family bits n : ℕ)
      → IsSome (add_new_session_ip junk sess v family bits (pos n))
  unfolding add_new_session_ip
  add_new_session_ip-IsSome sess v family bits n =
      if-IsSome (family == af_inet) (if-IsSome (n == 4) (_, refl) (_, refl))
        (if-IsSome (family == af_inet6) (_, refl) (_, refl))

  extract_address-IsSome :
      (a : Attribute) (sess : AccessSession) → IsSome (extract_address junk a sess)
  unfolding extract_address
  extract_address-IsSome a sess = elim (Bool-cases (a.att_type == 8)) [
    | inl e ↦ rw e (add_new_session_ip-IsSome sess a.att_val af_inet 32 a.att_len)
    | inr e ↦ elim (Bool-cases (a.att_type == 168)) [
      | inl f ↦ rw (e, f) (add_new_session_ip-IsSome sess a.att_val af_inet6 128 a.att_len)
      | inr f ↦ (sess, rw (e, f) refl)
    ]
  ]

  extract_addresses-IsSome :
      (attrs : List Attribute) (sess : AccessSession)
      → all_wide attrs ≡ true
      → IsSome (extract_addresses junk attrs sess)
  unfolding extract_addresses
  extract_addresses-IsSome [] sess h = (sess, refl)
  extract_addresses-IsSome (a ∷ attrs) sess h = elim (Bool-cases (is_prefix a.att_type)) [
    | inl e ↦
        let two : sub_ℕ a.att_len 2 ≡ pos (a.att_len - 2) = ground (arith, h, e) in
        rw (e, two)
          (add_new_session_ip-IsSome sess (drop 2 a.att_val) af_inet6 (get_or a.att_val 1 0)
            (a.att_len - 2))
    | inr e ↦
        let (s, q) = extract_address-IsSome a sess in
        rw (e, q) (extract_addresses-IsSome attrs s (ground (arith, h, e)))
  ]

  extract_assigned_ip_address-IsSome :
      (m : RadiusParsed) (attrs : List Attribute) (sess : AccessSession)
      → all_wide attrs ≡ true
      → IsSome (extract_assigned_ip_address junk m attrs sess)
  unfolding extract_assigned_ip_address
  extract_assigned_ip_address-IsSome m attrs sess h = elim (Bool-cases (is_nil m.matchedusers)) [
    | inl e ↦ (sess, rw e refl)
    | inr e ↦ rw e (extract_addresses-IsSome attrs sess h)
  ]

  if-IsFirst :
      (b : Bool) (m : RadiusParsed) {x y : Option (RadiusParsed × AccessSession)}
      → IsFirst x m
      → IsFirst y m
      → IsFirst (if b then x else y) m
  if-IsFirst true m h k = h
  if-IsFirst false m h k = k

  with_savedreq-IsFirst :
      (m : RadiusParsed) (f : SavedReq → Option (RadiusParsed × AccessSession))
      → ((req : SavedReq) → m.savedreq ≡ some req → IsFirst (f req) m)
      → IsSome m.savedreq
      → IsFirst (and_then m.savedreq f) m
  with_savedreq-IsFirst m f h (req, e) = subst (λ o. IsFirst (and_then o f) m) (sym e) (h req e)

  first_addresses-IsFirst :
      (m : RadiusParsed) (attrs : List Attribute) (f : AccessSession → AccessSession)
      (sess : AccessSession)
      → all_wide attrs ≡ true
      → IsFirst (first_addresses junk m attrs f sess) m
  first_addresses-IsFirst m attrs f sess w =
      let (s, q) = extract_assigned_ip_address-IsSome m attrs sess w in
      (attrs, f s, ap (λ o. and_then o (λ t. some (record m { firstattrs = attrs }, f t))) q)

  second_addresses-IsSecond :
      (m : RadiusParsed) (attrs : List Attribute) (tvsec : ℕ) (sess : AccessSession)
      → all_wide attrs ≡ true
      → IsSecond (second_addresses junk m attrs tvsec sess) m
  second_addresses-IsSecond m attrs tvsec sess w =
      let (s, q) = extract_assigned_ip_address-IsSome m attrs sess w in
      (
        attrs,
        started_at tvsec s,
        ap (λ o. and_then o (λ t. some (record m { secondattrs = attrs }, started_at tvsec t))) q,
      )

  pub update_first_action-IsFirst :
      (a : AccessAction) (m : RadiusParsed) (sess : AccessSession)
      → all_wide m.attrs ≡ true
      → req_wide m.savedreq ≡ true
      → (needs_request a ≡ true → IsSome m.savedreq)
      → IsFirst (update_first_action junk a m sess) m
  unfolding update_first_action
  update_first_action-IsFirst accept m sess w wr n =
      first_addresses-IsFirst m m.attrs (λ s. s) (started_at m.tvsec sess) w
  update_first_action-IsFirst already_active m sess w wr n =
      with_savedreq-IsFirst m _
        (λ req e.
          first_addresses-IsFirst m req.attrs (started_at req.tvsec) sess
            (ap req_wide (sym e) ∙ wr))
        (n refl)
  update_first_action-IsFirst attempt m sess w wr n =
      if-IsFirst (m.msgtype == Code.account_request) m
        (first_addresses-IsFirst m m.attrs (started_at m.tvsec) sess w) (m.attrs, sess, refl)
  update_first_action-IsFirst interim_update m sess w wr n =
      with_savedreq-IsFirst m _
        (λ req e.
          if-IsFirst _ m
            (first_addresses-IsFirst m req.attrs (λ s. s) sess (ap req_wide (sym e) ∙ wr))
            (req.attrs, sess, refl))
        (n refl)
  update_first_action-IsFirst end m sess w wr n =
      with_savedreq-IsFirst m _ (λ req e. (req.attrs, sess, refl)) (n refl)
  update_first_action-IsFirst failed m sess w wr n = ([], sess, refl)
  update_first_action-IsFirst reject m sess w wr n = ([], sess, refl)
  update_first_action-IsFirst modified m sess w wr n = ([], sess, refl)
  update_first_action-IsFirst end_sudden m sess w wr n = ([], sess, refl)
  update_first_action-IsFirst retry m sess w wr n = ([], sess, refl)
  update_first_action-IsFirst no_action m sess w wr n = ([], sess, refl)

  with_savedresp-IsSecond :
      (m : RadiusParsed) (f : OrphanedResp → Option (RadiusParsed × AccessSession))
      → ((r : OrphanedResp) → m.savedresp ≡ some r → IsSecond (f r) m)
      → IsSome m.savedresp
      → IsSecond (and_then m.savedresp f) m
  with_savedresp-IsSecond m f h (r, e) = subst (λ o. IsSecond (and_then o f) m) (sym e) (h r e)

  if-IsSecond :
      (b : Bool) (m : RadiusParsed) {x y : Option (RadiusParsed × AccessSession)}
      → IsSecond x m
      → IsSecond y m
      → IsSecond (if b then x else y) m
  if-IsSecond true m h k = h
  if-IsSecond false m h k = k

  pub update_second_action-IsSecond :
      (a : AccessAction) (m : RadiusParsed) (sess : AccessSession)
      → all_wide m.attrs ≡ true
      → resp_wide m.savedresp ≡ true
      → (needs_response a ≡ true → IsSome m.savedresp)
      → IsSecond (update_second_action junk a m sess) m
  unfolding update_second_action
  update_second_action-IsSecond accept m sess w wr n =
      with_savedresp-IsSecond m _
        (λ r e.
          if-IsSecond (r.resptype == Code.access_accept) m
            (second_addresses-IsSecond m r.savedattrs r.tvsec sess (ap resp_wide (sym e) ∙ wr))
            (if-IsSecond (r.resptype == Code.account_response) m
              (second_addresses-IsSecond m m.attrs r.tvsec sess w) ([], sess, refl)))
        (n refl)
  update_second_action-IsSecond already_active m sess w wr n =
      with_savedresp-IsSecond m _
        (λ r e.
          if-IsSecond (r.resptype == Code.account_response) m
            (second_addresses-IsSecond m m.attrs r.tvsec sess w) (m.attrs, sess, refl))
        (n refl)
  update_second_action-IsSecond interim_update m sess w wr n = (m.attrs, sess, refl)
  update_second_action-IsSecond end m sess w wr n = (m.attrs, sess, refl)
  update_second_action-IsSecond attempt m sess w wr n = ([], sess, refl)
  update_second_action-IsSecond failed m sess w wr n = ([], sess, refl)
  update_second_action-IsSecond reject m sess w wr n = ([], sess, refl)
  update_second_action-IsSecond modified m sess w wr n = ([], sess, refl)
  update_second_action-IsSecond end_sudden m sess w wr n = ([], sess, refl)
  update_second_action-IsSecond retry m sess w wr n = ([], sess, refl)
  update_second_action-IsSecond no_action m sess w wr n = ([], sess, refl)
