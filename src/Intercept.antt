-- ===== src/Intercept.antt =====
-- The intercepts of each user and of each mail address, intercept.c: the tables in which the collector
-- looks for the intercepts that a user's session or a mail is for. Of the intercepts only the fields
-- that these tables use are there. A result of 0 is true and one of -1 false.
pub mod Table
pub mod Users
pub mod Adding
pub mod Removing
pub mod Refinement
mod Tests
use https_github_com_open_li.Prelude.{
  ℕ, Bool, true, false, Option, none, some, List, [], ◌∷◌, if◌then◌else◌,
}
use https_github_com_open_li.Uthash.{bytes_eq, hash_find, hash_add, hash_delete}

-- ipintercept_t; `username` is NULL where the intercept is not for a user
pub record IpIntercept : Type 0 where
  pub liid : List ℕ
  pub username : Option (List ℕ)

-- emailintercept_t
pub record EmailIntercept : Type 0 where
  pub liid : List ℕ

-- email_intercept_ref_t
pub record EmailInterceptRef : Type 0 where
  pub em : EmailIntercept

-- email_target_t
pub record EmailTarget : Type 0 where
  pub address : Option (List ℕ)

-- user_intercept_list_t and email_user_intercept_list_t
pub record UserList (A : Type 0) : Type 0 where
  pub name : List ℕ
  pub intlist : List A

abbrev pub has_name : {A : Type 0} → List ℕ → UserList A → Bool
has_name name u = bytes_eq u.name name

abbrev pub has_liid : {A : Type 0} → (A → List ℕ) → List ℕ → A → Bool
has_liid liid_of liid a = bytes_eq (liid_of a) liid

-- a change of the list of the user that HASH_FIND gives
unfoldable pub change_list :
    {A : Type 0} → List ℕ → (List A → List A) → List (UserList A) → List (UserList A)
change_list name f [] = []
change_list name f (u ∷ ulist) =
    let rest = change_list name f ulist in
    if has_name name u then record u { intlist = f u.intlist } ∷ ulist else u ∷ rest

-- the table with the user, as HASH_FIND gives it, if there is memory for a new one
abbrev pub with_user :
    {A : Type 0}
    → Bool
    → List ℕ
    → List (UserList A)
    → Option (UserList A)
    → Option (List (UserList A))
with_user memory name ulist (some _) = some ulist
with_user true name ulist none = some (hash_add (record { name = name; intlist = [] }) ulist)
with_user false name ulist none = none

-- the intercept with an LIID of a user that HASH_FIND gives
abbrev pub found_in : {A : Type 0} → (A → List ℕ) → List ℕ → Option (UserList A) → Option A
found_in liid_of liid none = none
found_in liid_of liid (some found) = hash_find (has_liid liid_of liid) found.intlist

-- an item that is not there yet, as `check` says, is added to its user; whether it was new
abbrev pub store_item :
    {A : Type 0} → List ℕ → A → List (UserList A) → Option A → Bool × List (UserList A)
store_item name a ulist none = (true, change_list name (hash_add a) ulist)
store_item name a ulist (some check) = (false, ulist)

-- `none` without memory
unfoldable pub add_item :
    {A : Type 0}
    → (A → List ℕ)
    → Bool
    → List ℕ
    → A
    → List (UserList A)
    → Option (Bool × List (UserList A))
unfolding hash_find change_list
add_item liid_of memory name a ulist =
    elim (with_user memory name ulist (hash_find (has_name name) ulist)) [
      | none ↦ none
      | some ulist' ↦ some (
          store_item name a ulist'
            (found_in liid_of (liid_of a) (hash_find (has_name name) ulist')))
    ]

abbrev pub is_nil : {A : Type 0} → List A → Bool
is_nil [] = true
is_nil (_ ∷ _) = false

-- the table where the user's items are `left`: a user without intercepts goes too
abbrev pub with_left : {A : Type 0} → List ℕ → List (UserList A) → List A → List (UserList A)
with_left name ulist [] = hash_delete (has_name name) ulist
with_left name ulist (a ∷ left) = change_list name (λ _. a ∷ left) ulist

-- the removal of an LIID, which HASH_FIND looks for, from the items of a user
abbrev pub remove_existing :
    {A : Type 0}
    → (A → List ℕ)
    → List ℕ
    → List ℕ
    → List (UserList A)
    → List A
    → Option A
    → List (UserList A)
remove_existing liid_of name liid ulist intlist none = ulist
remove_existing liid_of name liid ulist intlist (some existing) =
    with_left name ulist (hash_delete (has_liid liid_of liid) intlist)

-- the same for the user that HASH_FIND gives
abbrev pub remove_from :
    {A : Type 0}
    → (A → List ℕ)
    → List ℕ
    → List ℕ
    → List (UserList A)
    → Option (UserList A)
    → List (UserList A)
remove_from liid_of name liid ulist none = ulist
remove_from liid_of name liid ulist (some found) =
    remove_existing liid_of name liid ulist found.intlist
      (hash_find (has_liid liid_of liid) found.intlist)

unfoldable pub remove_item :
    {A : Type 0} → (A → List ℕ) → List ℕ → List ℕ → List (UserList A) → List (UserList A)
unfolding hash_find hash_delete change_list
remove_item liid_of name liid ulist =
    remove_from liid_of name liid ulist (hash_find (has_name name) ulist)

-- the same behind the test of the name, which may be NULL; `none` is -1 with nothing changed
abbrev pub add_for :
    {A : Type 0}
    → (A → List ℕ)
    → Bool
    → Option (List ℕ)
    → A
    → List (UserList A)
    → Option (Bool × List (UserList A))
add_for liid_of memory none a ulist = none
add_for liid_of memory (some name) a ulist = add_item liid_of memory name a ulist

abbrev pub remove_for :
    {A : Type 0}
    → (A → List ℕ)
    → Option (List ℕ)
    → List ℕ
    → List (UserList A)
    → Bool × List (UserList A)
remove_for liid_of none liid ulist = (false, ulist)
remove_for liid_of (some name) liid ulist = (true, remove_item liid_of name liid ulist)

abbrev pub liid_of : IpIntercept → List ℕ
liid_of ipint = ipint.liid

-- a known LIID is an error
abbrev pub new_only :
    {A : Type 0} → List (UserList A) → Option (Bool × List (UserList A)) → Bool × List (UserList A)
new_only ulist none = (false, ulist)
new_only ulist (some r) = r

pub add_intercept_to_user_intercept_list :
    Bool → List (UserList IpIntercept) → IpIntercept → Bool × List (UserList IpIntercept)
unfolding add_item
add_intercept_to_user_intercept_list memory ulist ipint =
    elim (add_for liid_of memory ipint.username ipint ulist) [ none ↦ (false, ulist) | some r ↦ r ]

pub remove_intercept_from_user_intercept_list :
    List (UserList IpIntercept) → IpIntercept → Bool × List (UserList IpIntercept)
unfolding remove_item
remove_intercept_from_user_intercept_list ulist ipint =
    remove_for liid_of ipint.username ipint.liid ulist

abbrev pub ref_liid : EmailInterceptRef → List ℕ
ref_liid intref = intref.em.liid

-- a known LIID is no error
abbrev pub known_too :
    {A : Type 0} → List (UserList A) → Option (Bool × List (UserList A)) → Bool × List (UserList A)
known_too ulist none = (false, ulist)
known_too ulist (some r) = (true, r.1)

-- the reference is taken to be allocated
pub add_intercept_to_email_user_intercept_list :
    Bool
    → List (UserList EmailInterceptRef)
    → EmailIntercept
    → EmailTarget
    → Bool × List (UserList EmailInterceptRef)
unfolding add_item
add_intercept_to_email_user_intercept_list memory ulist em tgt =
    known_too ulist (add_for ref_liid memory tgt.address (record { em = em }) ulist)

pub remove_intercept_from_email_user_intercept_list :
    List (UserList EmailInterceptRef)
    → EmailIntercept
    → EmailTarget
    → Bool × List (UserList EmailInterceptRef)
unfolding remove_item
remove_intercept_from_email_user_intercept_list ulist em tgt =
    remove_for ref_liid tgt.address em.liid ulist
