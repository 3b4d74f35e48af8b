-- ===== src/ManageUsers/Sorted.antt =====
-- `sorted(users.items())` has the items of the dictionary.
use custom_network_proxy_ser.Base.{
  ◌≡◌, refl, sym, ap, ◌∙◌, ◌≢◌, none, some, [], ◌∷◌, arith, if_elim, Bool-cases, inl, inr, if_pos,
  if_neg, ite,
}
use custom_network_proxy_ser.Dict.{lookup}
use custom_network_proxy_ser.Dict.Laws.{Distinct}
use custom_network_proxy_ser.Text.{Text, text_dec}
use custom_network_proxy_ser.Auth.{Users}
use custom_network_proxy_ser.ManageUsers.{item_before, insert_item, sorted_items}
use custom_network_proxy_ser.ManageUsers.Entries.{AreEntries, IsEntry}

-- Two items with different names can stand in either order.
lookup_swap :
    (q n m : Text) (c d : Text) (users : Users)
    → m ≢ n
    → lookup text_dec q ((m, d) ∷ (n, c) ∷ users) ≡ lookup text_dec q ((n, c) ∷ (m, d) ∷ users)
unfolding lookup
lookup_swap q n m c d users h = ground arith

lookup_cons :
    (q m : Text) (d : Text) (us vs : Users)
    → lookup text_dec q us ≡ lookup text_dec q vs
    → lookup text_dec q ((m, d) ∷ us) ≡ lookup text_dec q ((m, d) ∷ vs)
unfolding lookup
lookup_cons q m d us vs h = ap (ite (text_dec q m) (some d)) h

absent_cons :
    (n m : Text) (d : Text) (users : Users)
    → lookup text_dec n ((m, d) ∷ users) ≡ none
    → (m ≢ n) × (lookup text_dec n users ≡ none)
unfolding lookup
absent_cons n m d users h = elim (text_dec n m) [
  | yes e ↦ absurd (cc (sym (if_pos (text_dec n m) e _ _) ∙ h))
  | no e ↦ (λ k. e (sym k), sym (if_neg (text_dec n m) e _ _) ∙ h)
]

lookup-insert_item :
    (q n c : Text) (users : Users)
    → lookup text_dec n users ≡ none
    → lookup text_dec q (insert_item (n, c) users) ≡ lookup text_dec q ((n, c) ∷ users)
unfolding insert_item
lookup-insert_item q n c [] h = refl
lookup-insert_item q n c ((m, d) ∷ users) h =
    let (ne, absent) = absent_cons n m d users h in
    if_elim (λ us. lookup text_dec q us ≡ lookup text_dec q ((n, c) ∷ (m, d) ∷ users)) _
      (λ e.
        lookup_cons q m d _ _ (lookup-insert_item q n c users absent)
        ∙ lookup_swap q n m c d users ne)
      (λ e. refl)

pub lookup-sorted_items :
    (q : Text) (users : Users)
    → Distinct text_dec users
    → lookup text_dec q (sorted_items users) ≡ lookup text_dec q users
unfolding sorted_items
lookup-sorted_items q [] h = refl
lookup-sorted_items q ((n, c) ∷ users) (fresh, h) =
    lookup-insert_item q n c (sorted_items users) (lookup-sorted_items n users h ∙ fresh)
    ∙ lookup_cons q n c _ _ (lookup-sorted_items q users h)

insert_item-Distinct :
    (n c : Text) (users : Users)
    → lookup text_dec n users ≡ none
    → Distinct text_dec users
    → Distinct text_dec (insert_item (n, c) users)
unfolding insert_item
insert_item-Distinct n c [] h s = (unfold lookup in refl, tt)
insert_item-Distinct n c ((m, d) ∷ users) h (fresh, s) =
    let (ne, absent) = absent_cons n m d users h in
    let apart : lookup text_dec m ((n, c) ∷ users) ≡ lookup text_dec m users =
      unfold lookup in if_neg (text_dec m n) ne _ _ in
    elim (Bool-cases (item_before (m, d) (n, c))) [
      | inl e ↦ rw e (
        lookup-insert_item m n c users absent ∙ apart ∙ fresh,
        insert_item-Distinct n c users absent s,
      )
      | inr e ↦ rw e (h, (fresh, s))
    ]

pub sorted_items-Distinct :
    (users : Users) → Distinct text_dec users → Distinct text_dec (sorted_items users)
unfolding sorted_items
sorted_items-Distinct [] h = tt
sorted_items-Distinct ((n, c) ∷ users) (fresh, h) =
    insert_item-Distinct n c (sorted_items users) (lookup-sorted_items n users h ∙ fresh)
      (sorted_items-Distinct users h)

insert_item-AreEntries :
    (e : Text × Text) (users : Users)
    → IsEntry e
    → AreEntries users
    → AreEntries (insert_item e users)
unfolding insert_item
insert_item-AreEntries e [] h us = (h, tt)
insert_item-AreEntries e (u ∷ users) h (k, us) = elim (Bool-cases (item_before u e)) [
  | inl t ↦ rw t (k, insert_item-AreEntries e users h us)
  | inr t ↦ rw t (h, (k, us))
]

pub sorted_items-AreEntries : (users : Users) → AreEntries users → AreEntries (sorted_items users)
unfolding sorted_items
sorted_items-AreEntries [] h = tt
sorted_items-AreEntries (u ∷ users) (h, us) =
    insert_item-AreEntries u (sorted_items users) h (sorted_items-AreEntries users us)
