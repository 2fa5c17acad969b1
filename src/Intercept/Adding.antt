-- ===== src/Intercept/Adding.antt =====
-- Adding an intercept to the table of users.
use https_github_com_open_li.Prelude.{
  ℕ, ◌≡◌, refl, sym, ap, ◌∙◌, Bool, true, false, ◌&&◌, Option, none, some, List, [], ◌∷◌, ◌++◌,
  if◌then◌else◌, Bool-cases, Option-cases, inl, inr, subst,
}
use https_github_com_open_li.Uthash.{bytes_eq, hash_find, hash_add}
use https_github_com_open_li.Uthash.Keys.{bytes_eq-eq, bytes_eq_refl}
use https_github_com_open_li.Intercept.{
  UserList, has_name, has_liid, change_list, add_item, found_in, is_nil, store_item,
}
use https_github_com_open_li.Intercept.Table.{or_option, find-snoc, IsDistinct-snoc}
use https_github_com_open_li.Intercept.Users.{
  name_of, lookup, IsTable, change_list-own, change_list-other, change_list-names,
  change_list-users, change_list-new_user, AllUsers-find,
}

pub or_option-none : {A : Type 0} (o : Option A) → or_option o none ≡ o
or_option-none none = refl
or_option-none (some a) = refl

is_nil-snoc : {A : Type 0} (l : List A) (a : A) → is_nil (l ++ a ∷ []) ≡ false
is_nil-snoc [] a = refl
is_nil-snoc (x ∷ l) a = refl

-- whether an item is the one of a user with an LIID
abbrev pub is_for : {A : Type 0} → (A → List ℕ) → List ℕ → A → List ℕ → List ℕ → Bool
is_for key name a j i = bytes_eq name j && bytes_eq (key a) i

pub lookup-found :
    {A : Type 0} (key : A → List ℕ) (j i : List ℕ) (ulist : List (UserList A)) {u : UserList A}
    → hash_find (has_name j) ulist ≡ some u
    → lookup key j i ulist ≡ hash_find (has_liid key i) u.intlist
lookup-found key j i ulist h = ap (found_in key i) h

module _ {A : Type 0} (key : A → List ℕ) (name : List ℕ) (a : A) where
  abbrev pub added : List ℕ → List ℕ → Option A
  added j i = if is_for key name a j i then some a else none

  -- the user's list with the item
  change_list-lookup :
      (j i : List ℕ) (ulist : List (UserList A)) {u : UserList A}
      → hash_find (has_name name) ulist ≡ some u
      → lookup key j i (change_list name (hash_add a) ulist)
        ≡ or_option (lookup key j i ulist) (added j i)
  change_list-lookup j i ulist {u} h = elim (Bool-cases (bytes_eq name j)) [
    | inl e ↦
        let q = bytes_eq-eq name j e in
        rw e (
          subst
            (λ n.
              lookup key n i (change_list name (hash_add a) ulist)
              ≡ or_option (lookup key n i ulist) (if bytes_eq (key a) i then some a else none))
            q
            (lookup-found key name i (change_list name (hash_add a) ulist)
                (change_list-own name (hash_add a) ulist h)
              ∙ find-snoc (has_liid key i) u.intlist a
              ∙ ap (λ o. or_option o (if bytes_eq (key a) i then some a else none))
                  (sym (lookup-found key name i ulist h))))
    | inr e ↦ rw e (
        ap (λ o. found_in key i o) (change_list-other name (hash_add a) j ulist e)
        ∙ sym (or_option-none (lookup key j i ulist)))
  ]

  -- a user without intercepts changes no lookup
  new_user-lookup :
      (j i : List ℕ) (ulist : List (UserList A))
      → lookup key j i (hash_add (record { name = name; intlist = [] }) ulist)
        ≡ lookup key j i ulist
  unfolding hash_find
  new_user-lookup j i ulist =
      ap (λ o. found_in key i o)
        (find-snoc (has_name j) ulist (record { name = name; intlist = [] }))
      ∙ empty (hash_find (has_name j) ulist) (bytes_eq name j)
    where
      empty :
          (o : Option (UserList A)) (b : Bool)
          → found_in key i
              (or_option o (if b then some (record { name = name; intlist = [] }) else none))
            ≡ found_in key i o
      empty none true = refl
      empty none false = refl
      empty (some v) b = refl

  -- a known item
  known-lookup :
      (j i : List ℕ) (ulist : List (UserList A)) {b : A}
      → lookup key name (key a) ulist ≡ some b
      → lookup key j i ulist ≡ or_option (lookup key j i ulist) (added j i)
  known-lookup j i ulist {b} h = elim (Bool-cases (bytes_eq name j)) [
    | inl e ↦ elim (Bool-cases (bytes_eq (key a) i)) [
      | inl f ↦
          let q : lookup key j i ulist ≡ some b =
            ap (λ n. lookup key n i ulist) (sym (bytes_eq-eq name j e))
            ∙ ap (λ k. lookup key name k ulist) (sym (bytes_eq-eq (key a) i f))
            ∙ h in
          q ∙ ap (λ o. or_option o (added j i)) (sym q)
      | inr f ↦ rw (e, f) (sym (or_option-none (lookup key j i ulist)))
    ]
    | inr e ↦ rw e (sym (or_option-none (lookup key j i ulist)))
  ]

  -- the item in a table that has its user
  abbrev pub IsAdded : List (UserList A) → Bool × List (UserList A) → Type 0
  IsAdded ulist r =
      ((j i : List ℕ) → lookup key j i r.1 ≡ or_option (lookup key j i ulist) (added j i))
      × IsTable key r.1

  add_item-known :
      (ulist : List (UserList A)) {u : UserList A}
      → hash_find (has_name name) ulist ≡ some u
      → IsTable key ulist
      → IsAdded ulist
          (store_item name a ulist (found_in key (key a) (hash_find (has_name name) ulist)))
  add_item-known ulist {u} e t = elim (Option-cases (hash_find (has_liid key (key a)) u.intlist)) [
    | inl f ↦
        subst (λ o. IsAdded ulist (store_item name a ulist o))
          (sym (ap (found_in key (key a)) e ∙ f))
          (
            (λ j i. change_list-lookup j i ulist e),
            record {
              names = change_list-names name (hash_add a) ulist t.names;
              users =
                  change_list-users name (hash_add a) key ulist e (is_nil-snoc u.intlist a)
                    (IsDistinct-snoc key u.intlist a (AllUsers-find key name ulist e t.users) f)
                    t.users;
            },
          )
    | inr (b, f) ↦
        let q = ap (found_in key (key a)) e ∙ f in
        subst (λ o. IsAdded ulist (store_item name a ulist o)) (sym q)
          ((λ j i. known-lookup j i ulist q), t)
  ]

  added_user :
      (ulist : List (UserList A))
      → hash_find (has_name name) ulist ≡ none
      → hash_find (has_name name) (hash_add (record { name = name; intlist = [] }) ulist)
        ≡ some (record { name = name; intlist = [] })
  added_user ulist e =
      find-snoc (has_name name) ulist (record { name = name; intlist = [] })
      ∙ rw (e, bytes_eq_refl name) refl

  add_item-new :
      (ulist : List (UserList A))
      → hash_find (has_name name) ulist ≡ none
      → IsTable key ulist
      → IsAdded ulist
          (store_item name a (hash_add (record { name = name; intlist = [] }) ulist) none)
  unfolding hash_find
  add_item-new ulist e t =
      let u : UserList A = record { name = name; intlist = [] } in
      (
        (λ j i.
            change_list-lookup j i (hash_add u ulist) (added_user ulist e)
            ∙ ap (λ o. or_option o (added j i)) (new_user-lookup j i ulist)),
        record {
          names =
              change_list-names name (hash_add a) (hash_add u ulist)
                (IsDistinct-snoc name_of ulist u t.names e);
          users = change_list-new_user name (hash_add a) key ulist [] e refl (refl, tt) t.users;
        },
      )

  -- What adding an item does, with enough memory.
  pub add_item-IsAdded :
      (ulist : List (UserList A))
      → IsTable key ulist
      → (r : Bool × List (UserList A)) × (add_item key true name a ulist ≡ some r) × IsAdded ulist r
  unfolding add_item
  add_item-IsAdded ulist t = elim (Option-cases (hash_find (has_name name) ulist)) [
    | inl e ↦ (
      store_item name a (hash_add (record { name = name; intlist = [] }) ulist) none,
      rw (e, add_item) (rw (added_user ulist e) refl),
      add_item-new ulist e t,
    )
    | inr (u, e) ↦ (
      store_item name a ulist (found_in key (key a) (hash_find (has_name name) ulist)),
      rw (e, add_item) (ap (λ o. some (store_item name a ulist (found_in key (key a) o))) e),
      add_item-known ulist e t,
    )
  ]
