-- ===== src/Cli/Tui/Selection.antt =====
-- What a snapshot of the model guarantees to the rest of the interface.
use openmesh_messenger.Base.{
  ℕ, suc, ◌-◌, ◌≡◌, refl, sym, ap, subst, ◌∙◌, inl, inr, true, false, some, List, [], ◌∷◌, ◌++◌,
  map, arith, All, length, is_some, ltb, leb, ◌==◌, if◌then◌else◌, Bool-cases,
}
use openmesh_messenger.Base.Int.{ℤ, ltb_ℤ}
use openmesh_messenger.Cli.Tui.{Item, Tui}
use openmesh_messenger.Cli.Tui.Snapshot.{
  Libc, chat_item, chats, insert_item, sort_items, request_item, item_at, clamp, build_snapshot,
}
use openmesh_messenger.Storage.Disk.{Disk}
use openmesh_messenger.Storage.Records.{Contact, Request}
use openmesh_messenger.Storage.Store.{Store}
use mathlib.Core.List.{Perm}
use mathlib.Core.List.Perm

-- Each item's key is no less than that of any behind it.
abbrev pub Falling : List Item → Type 0
Falling [] = Unit
Falling (a ∷ items) = All (λ (b : Item). ltb_ℤ a.sort_key b.sort_key ≡ false) items × Falling items

below :
    (a b : Item) (items : List Item)
    → ltb_ℤ a.sort_key b.sort_key ≡ false
    → All (λ (c : Item). ltb_ℤ b.sort_key c.sort_key ≡ false) items
    → All (λ (c : Item). ltb_ℤ a.sort_key c.sort_key ≡ false) items
below a b [] h all = tt
below a b (c ∷ items) h all = (ground (arith, h, all.0), below a b items h all.1)

insert-all :
    (b a : Item) (items : List Item)
    → ltb_ℤ b.sort_key a.sort_key ≡ false
    → All (λ (c : Item). ltb_ℤ b.sort_key c.sort_key ≡ false) items
    → All (λ (c : Item). ltb_ℤ b.sort_key c.sort_key ≡ false) (insert_item a items)
unfolding insert_item
insert-all b a [] h all = (h, tt)
insert-all b a (c ∷ items) h all = ground (arith, h, all, insert-all b a items h all.1)

insert-Falling : (a : Item) (items : List Item) → Falling items → Falling (insert_item a items)
unfolding insert_item
insert-Falling a [] f = (tt, tt)
insert-Falling a (b ∷ items) f = elim (Bool-cases (ltb_ℤ a.sort_key b.sort_key)) [
  | inl less ↦ rw less (insert-all b a items (ground (arith, less)) f.0, insert-Falling a items f.1)
  | inr no_less ↦ rw no_less ((no_less, below a b items no_less f.0), f)
]

sort-Falling : (items : List Item) → Falling (sort_items items)
unfolding sort_items
sort-Falling [] = tt
sort-Falling (a ∷ items) = insert-Falling a (sort_items items) (sort-Falling items)

length-insert : (a : Item) (items : List Item) → length (insert_item a items) ≡ suc (length items)
unfolding insert_item
length-insert a [] = refl
length-insert a (b ∷ items) = ground (arith, length-insert a items)

length-sort : (items : List Item) → length (sort_items items) ≡ length items
unfolding sort_items
length-sort [] = refl
length-sort (a ∷ items) = length-insert a (sort_items items) ∙ ap suc (length-sort items)

-- A predicate of every item is one of every sorted item.
insert-All :
    (P : Item → Type 0) (a : Item) (items : List Item)
    → P a
    → All P items
    → All P (insert_item a items)
unfolding insert_item
insert-All P a [] h all = (h, tt)
insert-All P a (b ∷ items) h all = ground (arith, h, all, insert-All P a items h all.1)

sort-All : (P : Item → Type 0) (items : List Item) → All P items → All P (sort_items items)
unfolding sort_items
sort-All P [] all = tt
sort-All P (a ∷ items) all = insert-All P a (sort_items items) all.0 (sort-All P items all.1)

insert-Perm : (a : Item) (items : List Item) → Perm (a ∷ items) (insert_item a items)
unfolding insert_item
insert-Perm a [] = Perm.refl (a ∷ [])
insert-Perm a (b ∷ items) = elim (Bool-cases (ltb_ℤ a.sort_key b.sort_key)) [
  | inl less ↦ rw less (Perm.trans (Perm.swap b a items) (Perm.cons b (insert-Perm a items)))
  | inr no_less ↦ rw no_less (Perm.refl (a ∷ b ∷ items))
]

sort-Perm : (items : List Item) → Perm items (sort_items items)
unfolding sort_items
sort-Perm [] = Perm.refl []
sort-Perm (a ∷ items) =
    Perm.trans (Perm.cons a (sort-Perm items)) (insert-Perm a (sort_items items))

-- The chats of a snapshot are those of the accepted contacts, each once, the one with the latest
-- message first.
pub chats_are_latest_first :
    (contacts : List Contact) (s : Store)
    → Perm (chats contacts s) (sort_items (chats contacts s))
      × Falling (sort_items (chats contacts s))
chats_are_latest_first contacts s = (sort-Perm (chats contacts s), sort-Falling (chats contacts s))

found_before :
    (xs ys : List Item) (i : ℕ)
    → item_at (xs ++ ys) i
      ≡ (if ltb i (length xs) then item_at xs i else item_at ys (i - length xs))
unfolding item_at
found_before [] ys i =
    let same : i - 0 ≡ i = omega arith in
    let none_before : ltb i 0 ≡ false = ground arith in rw (none_before, same) refl
found_before (x ∷ xs) ys i = elim (Bool-cases (i == 0)) [
  | inl first ↦
      let inside : ltb i (suc (length xs)) ≡ true = ground (arith, first) in rw (inside, first) refl
  | inr later ↦
      let step : ltb i (suc (length xs)) ≡ ltb (i - 1) (length xs) = ground (arith, later) in
      let rest : i - suc (length xs) ≡ i - 1 - length xs = omega arith in
      rw (step, later, rest) (found_before xs ys (i - 1))
]

found-All :
    (P : Item → Type 0) (xs : List Item) (i : ℕ) (it : Item)
    → All P xs
    → item_at xs i ≡ some it
    → P it
unfolding item_at
found-All P [] i it all e = cc
found-All P (x ∷ xs) i it all e = elim (Bool-cases (i == 0)) [
  | inl first ↦
      let here : some x ≡ some it = rw first at e in let same : x ≡ it = cc in subst P same all.0
  | inr later ↦ found-All P xs (i - 1) it all.1 (rw later at e)
]

found-inside : (xs : List Item) (i : ℕ) → is_some (item_at xs i) ≡ ltb i (length xs)
unfolding item_at
found-inside [] i = ground arith
found-inside (x ∷ xs) i = ground (arith, found-inside xs (i - 1))

chats-are_chats :
    (contacts : List Contact) (s : Store)
    → All (λ (it : Item). it.is_request ≡ false) (chats contacts s)
unfolding chats chat_item
chats-are_chats [] s = tt
chats-are_chats (c ∷ contacts) s = ground (arith, chats-are_chats contacts s)

requests-are_requests :
    (contacts : List Contact) (qs : List Request)
    → All (λ (it : Item). it.is_request ≡ true) (map (request_item contacts) qs)
unfolding request_item
requests-are_requests contacts [] = tt
requests-are_requests contacts (q ∷ qs) = (refl, requests-are_requests contacts qs)

-- The sidebar that a snapshot leaves, whatever the state: the selection lies on an item unless
-- there is none, and an item is a request exactly if it stands at `n_chats` or behind.
pub snapshot_selects :
    (disk : Disk) (libc : Libc) (now : ℤ) (t : Tui disk)
    → let t' = build_snapshot disk libc now t in
      (is_some (item_at t'.items t'.selected) ≡ ltb 0 (length t'.items))
      × ((i : ℕ) (it : Item) → item_at t'.items i ≡ some it → it.is_request ≡ leb t'.n_chats i)
unfolding build_snapshot clamp
snapshot_selects disk libc now t =
    let e = t.host.engine in
    let sorted = sort_items (chats e.contacts.contacts e.contacts) in
    let requests = map (request_item e.contacts.contacts) e.contacts.requests in
    let items = sorted ++ requests in
    let are_chats =
      sort-All (λ (a : Item). a.is_request ≡ false) (chats e.contacts.contacts e.contacts)
        (chats-are_chats e.contacts.contacts e.contacts) in
    (
      ground (arith, found-inside items (clamp (length items) t.selected)),
      λ i it f. elim (Bool-cases (ltb i (length sorted))) [
        | inl before ↦
            let g : item_at sorted i ≡ some it =
              sym (found_before sorted requests i ∙ rw before refl) ∙ f in
            ground (
              arith,
              before,
              found-All (λ (a : Item). a.is_request ≡ false) sorted i it are_chats g,
            )
        | inr behind ↦
            let g : item_at requests (i - length sorted) ≡ some it =
              sym (found_before sorted requests i ∙ rw behind refl) ∙ f in
            ground (
              arith,
              behind,
              found-All (λ (a : Item). a.is_request ≡ true) requests (i - length sorted) it
                  (requests-are_requests e.contacts.contacts e.contacts.requests) g,
            )
      ],
    )
