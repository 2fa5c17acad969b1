-- ===== src/Intercept/Removing.antt =====
-- Removing an intercept from the table of users.
use https_github_com_open_li.Prelude.{
  ℕ, ◌≡◌, refl, sym, ap, ◌∙◌, false, ◌&&◌, none, some, List, [], ◌∷◌, if◌then◌else◌, Bool-cases,
  Option-cases, inl, inr, subst,
}
use https_github_com_open_li.Uthash.{bytes_eq, hash_find, hash_delete}
use https_github_com_open_li.Uthash.Keys.{bytes_eq-eq}
use https_github_com_open_li.Intercept.{
  UserList, has_name, has_liid, change_list, remove_item, found_in, with_left, remove_from,
  remove_existing,
}
use https_github_com_open_li.Intercept.Table.{
  IsDistinct, find-delete, find-delete_ne, IsDistinct-delete,
}
use https_github_com_open_li.Intercept.Users.{
  name_of, lookup, IsTable, change_list-own, change_list-other, change_list-names,
  change_list-users, AllUsers-find, AllUsers-delete,
}
use https_github_com_open_li.Intercept.Adding.{lookup-found}

module _ {A : Type 0} (key : A → List ℕ) (name liid : List ℕ) where
  abbrev pub IsRemoved : List (UserList A) → List (UserList A) → Type 0
  IsRemoved ulist r =
      ((j i : List ℕ)
        → lookup key j i r
          ≡ (if bytes_eq name j && bytes_eq liid i then none else lookup key j i ulist))
      × IsTable key r

  -- nothing is there to be removed
  lookup-absent :
      (ulist : List (UserList A))
      → lookup key name liid ulist ≡ none
      → (j i : List ℕ)
      → lookup key j i ulist
        ≡ (if bytes_eq name j && bytes_eq liid i then none else lookup key j i ulist)
  lookup-absent ulist h j i = elim (Bool-cases (bytes_eq name j)) [
    | inl e ↦ elim (Bool-cases (bytes_eq liid i)) [
      | inl f ↦
          rw (e, f)
            (ap (λ n. lookup key n i ulist) (sym (bytes_eq-eq name j e))
              ∙ ap (λ k. lookup key name k ulist) (sym (bytes_eq-eq liid i f))
              ∙ h)
      | inr f ↦ rw (e, f) refl
    ]
    | inr e ↦ rw e refl
  ]

  -- a table in which the user's list is the one without the item, or the user is gone with it
  lookup-left :
      (ulist r : List (UserList A)) {u : UserList A}
      → hash_find (has_name name) ulist ≡ some u
      → IsDistinct key u.intlist
      → ((i : List ℕ)
          → lookup key name i r
            ≡ hash_find (has_liid key i) (hash_delete (has_liid key liid) u.intlist))
      → ((j : List ℕ)
          → bytes_eq name j ≡ false
          → hash_find (has_name j) r ≡ hash_find (has_name j) ulist)
      → (j i : List ℕ)
      → lookup key j i r
        ≡ (if bytes_eq name j && bytes_eq liid i then none else lookup key j i ulist)
  lookup-left ulist r {u} found d own other j i = elim (Bool-cases (bytes_eq name j)) [
    | inl e ↦
        let q = sym (bytes_eq-eq name j e) in
        elim (Bool-cases (bytes_eq liid i)) [
          | inl f ↦
              rw (e, f)
                (ap (λ n. lookup key n i r) q
                  ∙ own i
                  ∙ ap (λ k. hash_find (has_liid key k) (hash_delete (has_liid key liid) u.intlist))
                      (sym (bytes_eq-eq liid i f))
                  ∙ find-delete key liid u.intlist d)
          | inr f ↦
              rw (e, f)
                (ap (λ n. lookup key n i r) q
                  ∙ own i
                  ∙ find-delete_ne key liid i u.intlist f
                  ∙ sym (lookup-found key name i ulist found)
                  ∙ sym (ap (λ n. lookup key n i ulist) q))
        ]
    | inr e ↦ rw e (ap (found_in key i) (other j e))
  ]

  with_left-IsRemoved :
      (ulist : List (UserList A)) {u : UserList A} (left : List A)
      → hash_find (has_name name) ulist ≡ some u
      → IsTable key ulist
      → left ≡ hash_delete (has_liid key liid) u.intlist
      → IsRemoved ulist (with_left name ulist left)
  unfolding hash_find
  with_left-IsRemoved ulist {u} [] found t q = (
    lookup-left ulist (hash_delete (has_name name) ulist) found
        (AllUsers-find key name ulist found t.users)
        (λ i.
          ap (found_in key i) (find-delete name_of name ulist t.names)
          ∙ ap (λ l. hash_find (has_liid key i) l) q)
        (λ j ne. find-delete_ne name_of name j ulist ne),
    record {
      names = IsDistinct-delete name_of name ulist t.names;
      users = AllUsers-delete key name ulist t.users;
    },
  )
  with_left-IsRemoved ulist {u} (a ∷ left) found t q =
      let d = AllUsers-find key name ulist found t.users in
      (
        lookup-left ulist (change_list name (λ _. a ∷ left) ulist) found d
            (λ i.
              ap (found_in key i) (change_list-own name (λ _. a ∷ left) ulist found)
              ∙ ap (λ l. hash_find (has_liid key i) l) q)
            (λ j ne. change_list-other name (λ _. a ∷ left) j ulist ne),
        record {
          names = change_list-names name (λ _. a ∷ left) ulist t.names;
          users =
              change_list-users name (λ _. a ∷ left) key ulist found refl
                (subst (IsDistinct key) (sym q) (IsDistinct-delete key liid u.intlist d)) t.users;
        },
      )

  -- What removing an item does.
  pub remove_item-IsRemoved :
      (ulist : List (UserList A))
      → IsTable key ulist
      → IsRemoved ulist (remove_item key name liid ulist)
  unfolding remove_item
  remove_item-IsRemoved ulist t = elim (Option-cases (hash_find (has_name name) ulist)) [
    | inl e ↦
        subst (λ o. IsRemoved ulist (remove_from key name liid ulist o)) (sym e)
          (lookup-absent ulist (ap (found_in key liid) e), t)
    | inr (u, e) ↦
        subst (λ o. IsRemoved ulist (remove_from key name liid ulist o)) (sym e)
          (elim (Option-cases (hash_find (has_liid key liid) u.intlist)) [
            | inl f ↦
                subst (λ o. IsRemoved ulist (remove_existing key name liid ulist u.intlist o))
                  (sym f) (lookup-absent ulist (ap (found_in key liid) e ∙ f), t)
            | inr (b, f) ↦
                subst (λ o. IsRemoved ulist (remove_existing key name liid ulist u.intlist o))
                  (sym f)
                  (with_left-IsRemoved ulist (hash_delete (has_liid key liid) u.intlist) e t refl)
          ])
  ]
