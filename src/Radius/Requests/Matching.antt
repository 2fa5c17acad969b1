-- ===== src/Radius/Requests/Matching.antt =====
-- A request is found by its response, and by no other.
use https_github_com_open_li.Prelude.{
  ℕ, ◌+◌, ◌*◌, ◌%◌, ◌<◌, ◌≡◌, refl, sym, ap, ◌∙◌, Bool, true, false, ◌&&◌, none, some, List, [],
  ◌∷◌, ◌++◌, if◌then◌else◌, ◌==◌, arith, Bool-cases, inl, inr,
}
use https_github_com_open_li.Uthash.{hash_find}
use https_github_com_open_li.Radius.{
  SavedReq, RadiusNas, RadiusParsed, derive_request_id, is_request,
}
use https_github_com_open_li.Radius.Orphans.{search_orphans}
use https_github_com_open_li.Radius.Requests.{
  has_reqid, new_request, insert_request, save_request, is_response, answered,
  find_matching_request,
}

-- The identifier, the port and the code, each of its size.
pub record IsSized (m : RadiusParsed) : Type 0 where
  pub ident_byte : m.msgident < 256
  pub port_16 : m.sourceport < 65536
  pub code_byte : m.msgtype < 256

-- whether a response has the identifier and port of a request, and answers its code
abbrev pub answers : RadiusParsed → RadiusParsed → Bool
answers n m =
    (answered n.msgtype == m.msgtype)
    && ((n.msgident == m.msgident) && (n.sourceport == m.sourceport))

ids_differ :
    (i p c i' p' c' : ℕ)
    → i < 256
    → p < 65536
    → c < 256
    → i' < 256
    → p' < 65536
    → c' < 256
    → (i * 65536 + p + c * 16777216) % 4294967296 ≡ (i' * 65536 + p' + c' * 16777216) % 4294967296
    → (i ≡ i') × (p ≡ p') × (c ≡ c')
ids_differ i p c i' p' c' hi hp hc hi' hp' hc' e = (omega arith, omega arith, omega arith)

answered-lt : (c : ℕ) → answered c < 256
answered-lt c = ground arith

answered_all :
    (n m : RadiusParsed)
    → m.msgident ≡ n.msgident
    → m.sourceport ≡ n.sourceport
    → m.msgtype ≡ answered n.msgtype
    → answers n m ≡ true
answered_all n m i p c = ground (arith, i, p, c)

same_id :
    (n m : RadiusParsed)
    → answers n m ≡ true
    → derive_request_id m m.msgtype ≡ derive_request_id n (answered n.msgtype)
same_id n m h =
    let (c, i, p) = equal_parts n m h in
    ap (λ k. (k * 65536 + m.sourceport + m.msgtype * 16777216) % 4294967296) i
    ∙ ap (λ k. (n.msgident * 65536 + k + m.msgtype * 16777216) % 4294967296) p
    ∙ ap (λ k. (n.msgident * 65536 + n.sourceport + k * 16777216) % 4294967296) c
  where
    equal_parts :
        (n m : RadiusParsed)
        → answers n m ≡ true
        → (m.msgtype ≡ answered n.msgtype)
          × (m.msgident ≡ n.msgident)
          × (m.sourceport ≡ n.sourceport)
    equal_parts n m h = (ground (arith, h), ground (arith, h), ground (arith, h))

-- in 32 bits the three fit side by side
derive_request_id-answers :
    (n m : RadiusParsed)
    → IsSized n
    → IsSized m
    → (derive_request_id m m.msgtype == derive_request_id n (answered n.msgtype)) ≡ answers n m
derive_request_id-answers n m hn hm =
    elim (Bool-cases (derive_request_id m m.msgtype == derive_request_id n (answered n.msgtype))) [
      | inl e ↦
          let (i, p, c) =
            ids_differ m.msgident m.sourceport m.msgtype n.msgident n.sourceport
              (answered n.msgtype) hm.ident_byte hm.port_16 hm.code_byte hn.ident_byte hn.port_16
              (answered-lt n.msgtype) (ground (arith, e)) in
          e ∙ sym (answered_all n m i p c)
      | inr e ↦ elim (Bool-cases (answers n m)) [
        | inl a ↦ absurd (
            let q : derive_request_id m m.msgtype ≡ derive_request_id n (answered n.msgtype) =
              same_id n m a in
            let t : false ≡ true = sym e ∙ ground (arith, q) in cc)
        | inr a ↦ e ∙ sym a
      ]
    ]

find-snoc :
    (reqid : ℕ) (reqs : List SavedReq) (req : SavedReq)
    → hash_find (has_reqid reqid) reqs ≡ none
    → hash_find (has_reqid reqid) (reqs ++ req ∷ [])
      ≡ (if req.reqid == reqid then some req else none)
unfolding hash_find
find-snoc reqid [] req h = refl
find-snoc reqid (r ∷ reqs) req h = ground (arith, h, find-snoc reqid reqs req)

-- the request is put behind the others
saved_map :
    (nas : RadiusNas) (m : RadiusParsed)
    → is_request m.msgtype ≡ true
    → m.savedresp ≡ none
    → (search_orphans nas.orphaned (derive_request_id m m.msgtype) m.tvsec).0 ≡ none
    → hash_find (has_reqid (derive_request_id m m.msgtype)) nas.request_map ≡ none
    → (save_request nas m).0.request_map
      ≡ nas.request_map ++ new_request m (derive_request_id m m.msgtype) ∷ []
unfolding save_request insert_request
saved_map nas m req resp orphan unknown = rw (req, orphan, resp) (rw (unknown, insert_request) refl)

-- what a found request says of its response
abbrev pub with_request : RadiusParsed → SavedReq → RadiusParsed
with_request n req = record n {
  savedreq = some req;
  accttype = req.statustype;
  acctsess = req.acctsess;
  matchedusers = req.targetusers;
}

found_in :
    (address : ℕ) (nas : RadiusNas) (n : RadiusParsed) (req : SavedReq) (b : Bool)
    → is_response n.msgtype ≡ true
    → hash_find (has_reqid (derive_request_id n (answered n.msgtype))) nas.request_map
      ≡ (if b then some req else none)
    → (find_matching_request address nas n).1 ≡ (if b then with_request n req else n)
unfolding find_matching_request
found_in address nas n req true r h = rw (r, h) refl
found_in address nas n req false r h = rw (r, h) refl

-- A request that is saved, because no orphan has its number and no request has it, is found by a response
-- exactly if that has the request's identifier and port and a code that answers the request's; the
-- response then has the request's status type, session and users, and is as it was otherwise. The
-- response's number must not be that of an older request, and the fields must be of their sizes.
pub find_matching_request-save_request :
    (address : ℕ) (nas : RadiusNas) (m n : RadiusParsed)
    → IsSized m
    → IsSized n
    → is_request m.msgtype ≡ true
    → m.savedresp ≡ none
    → (search_orphans nas.orphaned (derive_request_id m m.msgtype) m.tvsec).0 ≡ none
    → hash_find (has_reqid (derive_request_id m m.msgtype)) nas.request_map ≡ none
    → is_response n.msgtype ≡ true
    → hash_find (has_reqid (derive_request_id n (answered n.msgtype))) nas.request_map ≡ none
    → (find_matching_request address (save_request nas m).0 n).1
      ≡ (if answers n m then with_request n (new_request m (derive_request_id m m.msgtype)) else n)
find_matching_request-save_request address nas m n hm hn req resp orphan unknown r older =
    let reqid = derive_request_id m m.msgtype in
    found_in address (save_request nas m).0 n (new_request m reqid) (answers n m) r (
      ap (hash_find (has_reqid (derive_request_id n (answered n.msgtype))))
        (saved_map nas m req resp orphan unknown)
      ∙ find-snoc (derive_request_id n (answered n.msgtype)) nas.request_map (new_request m reqid)
          older
      ∙ ap (λ b. if b then some (new_request m reqid) else none)
          (derive_request_id-answers n m hn hm))
