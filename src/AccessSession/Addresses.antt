-- ===== src/AccessSession/Addresses.antt =====
-- Adding an address to a session: the new address comes last, and the version says which families
-- there are.
use https_github_com_open_li.Prelude.{
  ℕ, zero, suc, ◌+◌, ◌-◌, ◌%◌, ◌<◌, ◌≡◌, refl, sym, ap, ◌∙◌, Bool, true, false, ◌||◌, ◌&&◌, inl,
  inr, Option, some, List, [], ◌∷◌, ◌++◌, ltb, ◌==◌, length, take, set, min, arith, Bool-cases,
  length-take, replicate, if◌then◌else◌, take-append_le, take-take, subst, append-nil,
}
use https_github_com_open_li.Prelude.Int.{ℤ, pos, negsuc}
use https_github_com_open_li.AccessSession.{
  SessionIp, AccessSession, IpVersion, ip_none, ip_v4, ip_v6, ip_dual, af_inet, af_inet6,
  session_ip_incr, with_v4, with_v6, v6_bytes, grown, store_ip, add_new_session_ip,
}
use https_github_com_open_li.AccessSession.Room.{IsRoomy, grown-room}

-- the addresses of a session, in the order in which they were added
abbrev pub addresses : AccessSession → List SessionIp
addresses sess = take sess.sessipcount sess.sessionips

-- what is added: nothing, if the family is another one or an IPv4 address has not four bytes
abbrev pub accepted : List ℕ → ℕ → ℕ → ℤ → List SessionIp
accepted att_val family pfxbits (pos n) =
    if family == af_inet
    then (if n == 4
        then (record { ipfamily = family; assignedip = take 4 att_val; prefixbits = pfxbits }) ∷ []
        else [])
    else if family == af_inet6
    then (record {
      ipfamily = family;
      assignedip = v6_bytes (min n 16) att_val;
      prefixbits = pfxbits;
    })
      ∷ []
    else []
accepted att_val family pfxbits (negsuc n) = []

abbrev pub any_of : ℕ → List SessionIp → Bool
any_of family [] = false
any_of family (ip ∷ ips) = (ip.ipfamily == family) || any_of family ips

-- the version that an IPv4 address, an IPv6 address, both or neither make
abbrev pub version_of : Bool → Bool → IpVersion
version_of false false = ip_none
version_of true false = ip_v4
version_of false true = ip_v6
version_of true true = ip_dual

abbrev pub version_for : List SessionIp → IpVersion
version_for ips = version_of (any_of af_inet ips) (any_of af_inet6 ips)

any_of-append :
    (family : ℕ) (xs ys : List SessionIp)
    → any_of family (xs ++ ys) ≡ (any_of family xs || any_of family ys)
any_of-append family [] ys = refl
any_of-append family (x ∷ xs) ys = ground (arith, any_of-append family xs ys)

with_v4_lem : (a b : Bool) → with_v4 (version_of a b) ≡ version_of (a || true) (b || false)
with_v4_lem true true = refl
with_v4_lem true false = refl
with_v4_lem false true = refl
with_v4_lem false false = refl

with_v6_lem : (a b : Bool) → with_v6 (version_of a b) ≡ version_of (a || false) (b || true)
with_v6_lem true true = refl
with_v6_lem true false = refl
with_v6_lem false true = refl
with_v6_lem false false = refl

take-set :
    (xs : List SessionIp) (c : ℕ) (x : SessionIp)
    → c < length xs
    → take (suc c) (set xs c x) ≡ take c xs ++ x ∷ []
take-set [] c x h = elim h [ ]
take-set (y ∷ xs) zero x h = refl
take-set (y ∷ xs) (suc c) x h = ap (λ t. y ∷ t) (take-set xs c x (omega arith))

take-grown :
    (junk : SessionIp) (sess : AccessSession)
    → IsRoomy sess
    → take sess.sessipcount (grown junk sess) ≡ addresses sess
unfolding grown
take-grown junk sess r =
    elim (Bool-cases (ltb 0 sess.sessipcount && (sess.sessipcount % session_ip_incr == 0))) [
      | inl e ↦ rw e (
          take-append_le (take (sess.sessipcount + session_ip_incr) sess.sessionips)
            (replicate (sess.sessipcount + session_ip_incr - length sess.sessionips) junk)
            sess.sessipcount
            (omega
              (arith, length-take (sess.sessipcount + session_ip_incr) sess.sessionips, r.inside))
          ∙ take-take sess.sessipcount (sess.sessipcount + session_ip_incr) sess.sessionips
              (omega arith))
      | inr e ↦ rw e
    ]

-- a stored address comes last
addresses-store_ip :
    (junk : SessionIp) (sess : AccessSession) (version : IpVersion) (ip : SessionIp)
    → IsRoomy sess
    → sess.sessipcount < 255
    → addresses (store_ip (grown junk sess) version ip sess) ≡ addresses sess ++ ip ∷ []
addresses-store_ip junk sess version ip r h =
    ap (λ n. take n (set (grown junk sess) sess.sessipcount ip))
      (let e : (sess.sessipcount + 1) % 256 ≡ suc sess.sessipcount = omega arith in e)
    ∙ take-set (grown junk sess) sess.sessipcount ip (grown-room junk sess r).0
    ∙ ap (λ l. l ++ ip ∷ []) (take-grown junk sess r)

-- the addresses are those before and `extra`, and the version says which families they have
abbrev pub IsExtended : AccessSession → List SessionIp → AccessSession → Type 0
IsExtended sess extra sess' =
    (addresses sess' ≡ addresses sess ++ extra)
    × (sess'.sessipversion ≡ version_for (addresses sess ++ extra))

of_some {ℓ} :
    {A : Type 0} (P : A → Type ℓ) (x y : A) → ◌≡◌ {A = Option A} (some x) (some y) → P x → P y
of_some P x y e h = subst P (let q : x ≡ y = cc in q) h

module _ (junk : SessionIp) (sess : AccessSession) (r : IsRoomy sess) (c : sess.sessipcount < 255)
    (v : sess.sessipversion ≡ version_for (addresses sess)) where
  stored_v4 :
      (ip : SessionIp)
      → ip.ipfamily ≡ 2
      → IsExtended sess (ip ∷ []) (store_ip (grown junk sess) (with_v4 sess.sessipversion) ip sess)
  stored_v4 ip e = (
    addresses-store_ip junk sess (with_v4 sess.sessipversion) ip r c,
    ap with_v4 v
        ∙ with_v4_lem (any_of af_inet (addresses sess)) (any_of af_inet6 (addresses sess))
        ∙ ground (
          arith,
          any_of-append af_inet (addresses sess) (ip ∷ []),
          any_of-append af_inet6 (addresses sess) (ip ∷ []),
        ),
  )

  stored_v6 :
      (ip : SessionIp)
      → ip.ipfamily ≡ 10
      → IsExtended sess (ip ∷ []) (store_ip (grown junk sess) (with_v6 sess.sessipversion) ip sess)
  stored_v6 ip e = (
    addresses-store_ip junk sess (with_v6 sess.sessipversion) ip r c,
    ap with_v6 v
        ∙ with_v6_lem (any_of af_inet (addresses sess)) (any_of af_inet6 (addresses sess))
        ∙ ground (
          arith,
          any_of-append af_inet (addresses sess) (ip ∷ []),
          any_of-append af_inet6 (addresses sess) (ip ∷ []),
        ),
  )

  unstored : IsExtended sess [] (record sess { sessionips = grown junk sess })
  unstored = (
    take-grown junk sess r ∙ sym (append-nil (addresses sess)),
    v ∙ ap version_for (sym (append-nil (addresses sess))),
  )

  -- Below 255 addresses, adding one puts the accepted address behind the others, or changes none of them,
  -- and the version goes on saying which families there are.
  pub add_new_session_ip-IsExtended :
      (att_val : List ℕ) (family pfxbits : ℕ) (att_len : ℤ) {sess' : AccessSession}
      → add_new_session_ip junk sess att_val family pfxbits att_len ≡ some sess'
      → IsExtended sess (accepted att_val family pfxbits att_len) sess'
  unfolding add_new_session_ip
  add_new_session_ip-IsExtended att_val family pfxbits (negsuc n) {sess'} h =
      elim (Bool-cases (family == af_inet)) [
        | inl e ↦ of_some (IsExtended sess []) _ sess' (rw e at h) unstored
        | inr e ↦ elim (Bool-cases (family == af_inet6)) [
          | inl e6 ↦ absurd (let q = rw (e, e6) at h in cc)
          | inr e6 ↦ of_some (IsExtended sess []) _ sess' (rw (e, e6) at h) unstored
        ]
      ]
  add_new_session_ip-IsExtended att_val family pfxbits (pos n) {sess'} h =
      let four : SessionIp = record {
        ipfamily = family;
        assignedip = take 4 att_val;
        prefixbits = pfxbits;
      } in
      let long : SessionIp = record {
        ipfamily = family;
        assignedip = v6_bytes (min n 16) att_val;
        prefixbits = pfxbits;
      } in
      elim (Bool-cases (family == af_inet)) [
        | inl e ↦ elim (Bool-cases (n == 4)) [
          | inl e4 ↦
              rw (e, e4)
                (of_some (IsExtended sess (four ∷ [])) _ sess' (rw (e, e4) at h)
                  (stored_v4 four (ground (arith, e))))
          | inr e4 ↦ rw (e, e4) (of_some (IsExtended sess []) _ sess' (rw (e, e4) at h) unstored)
        ]
        | inr e ↦ elim (Bool-cases (family == af_inet6)) [
          | inl e6 ↦
              rw (e, e6)
                (of_some (IsExtended sess (long ∷ [])) _ sess' (rw (e, e6) at h)
                  (stored_v6 long (ground (arith, e6))))
          | inr e6 ↦ rw (e, e6) (of_some (IsExtended sess []) _ sess' (rw (e, e6) at h) unstored)
        ]
      ]
