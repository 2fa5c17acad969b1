-- ===== src/Intercept/Refinement.antt =====
-- The tables of intercepts over any sequence of announcements and ends of intercepts, as the collector gets
-- them from the provisioner, against a plain description of what they must hold. The events are listed
-- with the latest first, and there is memory for every new user.
use https_github_com_open_li.Prelude.{
  ℕ, ◌≡◌, refl, sym, ap, ◌∙◌, Bool, true, false, ◌&&◌, Option, none, some, List, [], ◌∷◌,
  if◌then◌else◌, subst,
}
use https_github_com_open_li.Uthash.{bytes_eq, hash_find}
use https_github_com_open_li.Intercept.{
  new_only, known_too, UserList, IpIntercept, EmailIntercept, EmailInterceptRef, EmailTarget,
  liid_of, ref_liid, add_item, add_for, remove_for, add_intercept_to_user_intercept_list,
  remove_intercept_from_user_intercept_list, add_intercept_to_email_user_intercept_list,
  remove_intercept_from_email_user_intercept_list,
}
use https_github_com_open_li.Intercept.Table.{or_option}
use https_github_com_open_li.Intercept.Users.{lookup, IsTable}
use https_github_com_open_li.Intercept.Adding.{or_option-none, added, add_item-IsAdded}
use https_github_com_open_li.Intercept.Removing.{remove_item-IsRemoved}

pub data IpEvent : Type 0 where
  announced ended : IpIntercept → IpEvent

pub handle : List (UserList IpIntercept) → IpEvent → List (UserList IpIntercept)
unfolding add_intercept_to_user_intercept_list remove_intercept_from_user_intercept_list
handle ulist (announced ipint) = (add_intercept_to_user_intercept_list true ulist ipint).1
handle ulist (ended ipint) = (remove_intercept_from_user_intercept_list ulist ipint).1

pub after : List IpEvent → List (UserList IpIntercept)
unfolding handle
after [] = []
after (e ∷ es) = handle (after es) e

-- whether a name, which may be NULL, and an LIID are those of a user and an LIID
abbrev pub is_for : Option (List ℕ) → List ℕ → List ℕ → List ℕ → Bool
is_for none liid j i = false
is_for (some name) liid j i = bytes_eq name j && bytes_eq liid i

-- what the table must hold for a user and an LIID: the first announced since the last end
abbrev pub expected : List IpEvent → List ℕ → List ℕ → Option IpIntercept
expected [] j i = none
expected (announced ipint ∷ es) j i =
    or_option (expected es j i) (if is_for ipint.username ipint.liid j i then some ipint else none)
expected (ended ipint ∷ es) j i =
    if is_for ipint.username ipint.liid j i then none else expected es j i

module _ {A : Type 0} (key : A → List ℕ) where
  abbrev Becomes : List (UserList A) → (List ℕ → List ℕ → Option A) → Type 0
  Becomes ulist m = ((j i : List ℕ) → lookup key j i ulist ≡ m j i) × IsTable key ulist

  -- the table that an addition leaves, as a function `f` of its result
  add_for-Becomes :
      (name : Option (List ℕ)) (a : A) (ulist : List (UserList A))
      (f : Option (Bool × List (UserList A)) → List (UserList A)) {m : List ℕ → List ℕ → Option A}
      → f none ≡ ulist
      → ((r : Bool × List (UserList A)) → f (some r) ≡ r.1)
      → Becomes ulist m
      → Becomes
          (f (add_for key true name a ulist))
          (λ j i. or_option (m j i) (if is_for name (key a) j i then some a else none))
  add_for-Becomes none a ulist f {m} f_none f_some (h, t) = (
    (λ j i. ap (lookup key j i) f_none ∙ h j i ∙ sym (or_option-none (m j i))),
    subst (IsTable key) (sym f_none) t,
  )
  add_for-Becomes (some name) a ulist f f_none f_some (h, t) =
      let (r, e, (found, t')) = add_item-IsAdded key name a ulist t in
      let q : f (add_item key true name a ulist) ≡ r.1 = ap f e ∙ f_some r in
      (
        (λ j i.
            ap (lookup key j i) q
            ∙ found j i
            ∙ ap (λ o. or_option o (added key name a j i)) (h j i)),
        subst (IsTable key) (sym q) t',
      )

  remove_for-Becomes :
      (name : Option (List ℕ)) (liid : List ℕ) (ulist : List (UserList A))
      {m : List ℕ → List ℕ → Option A}
      → Becomes ulist m
      → Becomes
          (remove_for key name liid ulist).1
          (λ j i. if is_for name liid j i then none else m j i)
  remove_for-Becomes none liid ulist b = b
  remove_for-Becomes (some name) liid ulist (h, t) =
      let (found, t') = remove_item-IsRemoved key name liid ulist t in
      ((λ j i. found j i ∙ ap (λ o. if is_for (some name) liid j i then none else o) (h j i)), t')

  nothing-Becomes : Becomes [] (λ j i. none)
  unfolding hash_find
  nothing-Becomes = ((λ j i. refl), record { names = tt; users = tt })

-- Whatever announcements and ends of intercepts came, with memory for every new user, the table of
-- users holds for a user and an LIID exactly the intercept that was announced first since that LIID
-- last ended for the user, and it has no user twice, none without an intercept, and none with an
-- LIID twice.
pub after-expected :
    (es : List IpEvent)
    → ((j i : List ℕ) → lookup liid_of j i (after es) ≡ expected es j i)
      × IsTable liid_of (after es)
unfolding after
after-expected [] = nothing-Becomes liid_of
after-expected (announced ipint ∷ es) =
    add_for-Becomes liid_of ipint.username ipint (after es) (λ x. (new_only (after es) x).1) refl
      (λ r. refl) (after-expected es)
after-expected (ended ipint ∷ es) =
    remove_for-Becomes liid_of ipint.username ipint.liid (after es) (after-expected es)

pub data EmailEvent : Type 0 where
  target_added target_removed : EmailIntercept → EmailTarget → EmailEvent

pub handle_email :
    List (UserList EmailInterceptRef) → EmailEvent → List (UserList EmailInterceptRef)
unfolding add_intercept_to_email_user_intercept_list remove_intercept_from_email_user_intercept_list
handle_email ulist (target_added em tgt) =
    (add_intercept_to_email_user_intercept_list true ulist em tgt).1
handle_email ulist (target_removed em tgt) =
    (remove_intercept_from_email_user_intercept_list ulist em tgt).1

pub after_email : List EmailEvent → List (UserList EmailInterceptRef)
unfolding handle_email
after_email [] = []
after_email (e ∷ es) = handle_email (after_email es) e

-- the same for a mail address and an LIID
abbrev pub expected_email : List EmailEvent → List ℕ → List ℕ → Option EmailInterceptRef
expected_email [] j i = none
expected_email (target_added em tgt ∷ es) j i =
    or_option (expected_email es j i)
      (if is_for tgt.address em.liid j i then some (record { em = em }) else none)
expected_email (target_removed em tgt ∷ es) j i =
    if is_for tgt.address em.liid j i then none else expected_email es j i

-- Whatever targets of mail intercepts were added and removed, with memory for every new address,
-- the table of addresses holds for an address and an LIID exactly the intercept that was added
-- first since that LIID was last removed from the address, and it has no address twice, none
-- without an intercept, and none with an LIID twice.
pub after_email-expected :
    (es : List EmailEvent)
    → ((j i : List ℕ) → lookup ref_liid j i (after_email es) ≡ expected_email es j i)
      × IsTable ref_liid (after_email es)
unfolding after_email
after_email-expected [] = nothing-Becomes ref_liid
after_email-expected (target_added em tgt ∷ es) =
    add_for-Becomes ref_liid tgt.address (record { em = em }) (after_email es)
      (λ x. (known_too (after_email es) x).1) refl (λ r. refl) (after_email-expected es)
after_email-expected (target_removed em tgt ∷ es) =
    remove_for-Becomes ref_liid tgt.address em.liid (after_email es) (after_email-expected es)
