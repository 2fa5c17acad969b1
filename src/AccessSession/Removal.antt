-- ===== src/AccessSession/Removal.antt =====
-- Taking an address from a session.
use https_github_com_open_li.Prelude.{
  ℕ, zero, suc, ◌+◌, ◌≤◌, ◌≡◌, refl, sym, ap, ◌∙◌, Bool, true, false, ◌&&◌, List, [], ◌∷◌, ◌==◌,
  length, take, drop, arith, if◌then◌else◌, Bool-cases, inl, inr, ◌⊎◌,
}
use https_github_com_open_li.Uthash.{bytes_eq}
use https_github_com_open_li.AccessSession.{
  SessionIp, AccessSession, af_inet, af_inet6, same_ip, clear_ips, remove_session_ip,
}
use https_github_com_open_li.AccessSession.Addresses.{addresses}

-- the addresses that have not been taken away
abbrev pub live : List SessionIp → List SessionIp
live [] = []
live (ip ∷ ips) = let rest = live ips in if ip.ipfamily == 0 then rest else ip ∷ rest

-- equality of addresses
abbrev pub ip_eq : SessionIp → SessionIp → Bool
ip_eq a b =
    (a.ipfamily == b.ipfamily)
    && ((a.prefixbits == b.prefixbits) && bytes_eq a.assignedip b.assignedip)

-- the list without an address, wherever that stands
abbrev pub without : SessionIp → List SessionIp → List SessionIp
without sessip [] = []
without sessip (ip ∷ ips) =
    let rest = without sessip ips in if ip_eq ip sessip then rest else ip ∷ rest

same_ip_lem :
    (sessip ip : SessionIp)
    → (sessip.ipfamily ≡ af_inet) ⊎ (sessip.ipfamily ≡ af_inet6)
    → same_ip sessip ip ≡ ip_eq ip sessip
same_ip_lem sessip ip (inl e) = ground (arith, e)
same_ip_lem sessip ip (inr e) = ground (arith, e)

abbrev pub is_empty : List SessionIp → Bool
is_empty [] = true
is_empty (_ ∷ _) = false

clear_ips-live :
    (sessip : SessionIp) (n : ℕ) (ips : List SessionIp)
    → (sessip.ipfamily ≡ af_inet) ⊎ (sessip.ipfamily ≡ af_inet6)
    → live (take n (clear_ips sessip n ips).0) ≡ without sessip (live (take n ips))
unfolding clear_ips
clear_ips-live sessip zero ips f = refl
clear_ips-live sessip (suc n) [] f = refl
clear_ips-live sessip (suc n) (ip ∷ ips) f = elim (Bool-cases (ip.ipfamily == 0)) [
  | inl e ↦ rw (e, e) (clear_ips-live sessip n ips f)
  | inr e ↦ elim (Bool-cases (same_ip sessip ip)) [
    | inl s ↦ rw (e, s, sym (same_ip_lem sessip ip f) ∙ s) (clear_ips-live sessip n ips f)
    | inr s ↦
        rw (e, s, sym (same_ip_lem sessip ip f) ∙ s)
          (rw e (ap (λ l. ip ∷ l) (clear_ips-live sessip n ips f)))
  ]
]

clear_ips-count :
    (sessip : SessionIp) (n : ℕ) (ips : List SessionIp)
    → n ≤ length ips
    → (clear_ips sessip n ips).1 + length (live (take n (clear_ips sessip n ips).0)) ≡ n
unfolding clear_ips
clear_ips-count sessip zero ips h = omega arith
clear_ips-count sessip (suc n) [] h = absurd (omega arith)
clear_ips-count sessip (suc n) (ip ∷ ips) h = ground (arith, clear_ips-count sessip n ips)

clear_ips-drop :
    (sessip : SessionIp) (n : ℕ) (ips : List SessionIp)
    → drop n (clear_ips sessip n ips).0 ≡ drop n ips
unfolding clear_ips
clear_ips-drop sessip zero ips = refl
clear_ips-drop sessip (suc n) [] = refl
clear_ips-drop sessip (suc n) (ip ∷ ips) = ground (arith, clear_ips-drop sessip n ips)

is_empty-length : (l : List SessionIp) (k n : ℕ) → k + length l ≡ n → (k == n) ≡ is_empty l
is_empty-length [] k n h = ground arith
is_empty-length (x ∷ l) k n h = ground arith

-- Taking an IPv4 or IPv6 address from a session leaves, of the addresses that were not taken before, those
-- with another family, prefix length or address, in their order, and says whether none is left; the counter and the
-- array behind the addresses stay as they are. The array must hold as many addresses as are counted.
pub remove_session_ip-without :
    (sess : AccessSession) (sessip : SessionIp)
    → (sessip.ipfamily ≡ af_inet) ⊎ (sessip.ipfamily ≡ af_inet6)
    → sess.sessipcount ≤ length sess.sessionips
    → let (last, sess') = remove_session_ip sess sessip in
      (live (addresses sess') ≡ without sessip (live (addresses sess)))
      × (last ≡ is_empty (live (addresses sess')))
      × (sess'.sessipcount ≡ sess.sessipcount)
      × (drop sess.sessipcount sess'.sessionips ≡ drop sess.sessipcount sess.sessionips)
unfolding remove_session_ip
remove_session_ip-without sess sessip f h = (
  clear_ips-live sessip sess.sessipcount sess.sessionips f,
  is_empty-length _ _ _ (clear_ips-count sessip sess.sessipcount sess.sessionips h),
  refl,
  clear_ips-drop sessip sess.sessipcount sess.sessionips,
)
