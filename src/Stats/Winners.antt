-- ===== src/Stats/Winners.antt =====
-- internal/stats/stats.go: which contact lists RefreshFollowers counts, and whom they name.
use archive_relay.Prelude.{
  ◌<◌, ◌≡◌, ◌⊎◌, inl, inr, refl, sym, ap, subst, ◌∙◌, Bool, true, false, not, ◌&&◌, ◌||◌, List, [],
  ◌∷◌, All, All-lookup, Memᴰ, Bytes, bytes, Before, bytes_lt-total, eq_bytes, contains,
  contains-nil, insert, contains-insert, insert_sorted, sort_by, nat_eq, nat_eq_iff, ◌==◌, ==_iff,
  ==_self, if◌then◌else◌, if-cases, Bool-cases, arith,
}
use archive_relay.Rows.{Row}
use archive_relay.FilterSql.{tag_column, any_in}
use archive_relay.FilterSql.Matches.{has_tag, any_in-tag_column}
use archive_relay.Rolling.{ids_of}
use archive_relay.Stats.{newer, contact_lists, first_by_pubkey, each_tag, follows}
use archive_relay.Stats.Newest.{outdoes, All-map, All-sort_by, first_by_pubkey-outdoes}

-- A contact list that is not tombstoned.
abbrev pub IsLive : (Bytes → Bool) → Row → Type 0
IsLive dead row = (row.kind ≡ 3) × (dead row.id ≡ false)

-- Later, or of the same time and not with a higher id.
abbrev pub IsAsNew : Row → Row → Type 0
IsAsNew x y =
    (y.created_at < x.created_at)
    ⊎ ((x.created_at ≡ y.created_at) × ((x.id ≡ y.id) ⊎ Before x.id y.id))

-- `selected` are live contact lists of `rows`, each the newest of its author, and each author of a live
-- contact list has one among them.
abbrev pub AreWinners : (Bytes → Bool) → List Row → List Row → Type 0
AreWinners dead rows selected =
    All
      (λ x.
        Memᴰ x rows
        × IsLive dead x
        × ((y : Row) → Memᴰ y rows → IsLive dead y → y.pubkey ≡ x.pubkey → IsAsNew x y))
      selected
    × ((y : Row)
        → Memᴰ y rows
        → IsLive dead y
        → (x : Row) × Memᴰ x selected × (x.pubkey ≡ y.pubkey))

-- The different authors of the lists that name a pubkey in a p-tag.
unfoldable pub authors_naming : Bytes → List Row → List Bytes
authors_naming pk [] = []
authors_naming pk (row ∷ rows) =
    let rest = authors_naming pk rows in
    if has_tag (bytes "p") (pk ∷ []) row.tags then insert row.pubkey rest else rest

newer-IsAsNew : (x y : Row) → newer x y ≡ true → IsAsNew x y
newer-IsAsNew x y h = elim (Bool-cases (nat_eq x.created_at y.created_at)) [
  | inl e ↦ inr (
    (nat_eq_iff x.created_at y.created_at).0 e,
    flip (bytes_lt-total y.id x.id (ground (arith, e, h))),
  )
  | inr n ↦ inl (ground (arith, n, h))
]
  where
    flip : (y.id ≡ x.id) ⊎ Before x.id y.id → (x.id ≡ y.id) ⊎ Before x.id y.id
    flip (inl e) = inl (sym e)
    flip (inr b) = inr b

All-self : (xs ys : List Row) → ((z : Row) → Memᴰ z xs → Memᴰ z ys) → All (λ z. Memᴰ z ys) xs
All-self [] ys f = tt
All-self (x ∷ xs) ys f = (f x (Memᴰ.head refl), All-self xs ys (λ z m. f z (Memᴰ.tail m)))

sort_by-All : (P : Row → Type 0) (xs : List Row) → All P xs → All P (sort_by newer xs)
unfolding sort_by insert_sorted
sort_by-All P [] h = tt
sort_by-All P (x ∷ xs) h = placed (sort_by newer xs) (sort_by-All P xs h.1)
  where
    placed : (ys : List Row) → All P ys → All P (insert_sorted newer x ys)
    placed [] k = (h.0, tt)
    placed (y ∷ ys) k = if-cases (All P) (newer x y) (λ _. (h.0, k)) (λ _. (k.0, placed ys k.1))

first_by_pubkey-All :
    (P : Row → Type 0) (seen : List Bytes) (xs : List Row)
    → All P xs
    → All P (first_by_pubkey seen xs)
unfolding first_by_pubkey
first_by_pubkey-All P seen [] h = tt
first_by_pubkey-All P seen (x ∷ xs) h =
    let ih = first_by_pubkey-All P (insert x.pubkey seen) xs h.1 in
    if-cases (All P) (contains x.pubkey seen) (λ _. ih) (λ _. (h.0, ih))

contact_lists-All :
    (dead : Bytes → Bool) (rows : List Row)
    → All (λ x. Memᴰ x rows × IsLive dead x) (contact_lists dead rows)
unfolding contact_lists
contact_lists-All dead [] = tt
contact_lists-All dead (row ∷ rows) =
    let ih =
      All-map (λ x. Memᴰ x rows × IsLive dead x) (λ x. Memᴰ x (row ∷ rows) × IsLive dead x)
        (contact_lists dead rows) (λ x h. (Memᴰ.tail h.0, h.1)) (contact_lists-All dead rows) in
    if-cases (All (λ x. Memᴰ x (row ∷ rows) × IsLive dead x))
      (nat_eq row.kind 3 && not (dead row.id))
      (λ h. ((Memᴰ.head refl, (ground (arith, h), ground (arith, h))), ih)) (λ _. ih)

Memᴰ-contact_lists :
    (dead : Bytes → Bool) (rows : List Row) (y : Row)
    → Memᴰ y rows
    → IsLive dead y
    → Memᴰ y (contact_lists dead rows)
unfolding contact_lists
Memᴰ-contact_lists dead [] y m l = elim m [ ]
Memᴰ-contact_lists dead (row ∷ rows) y (Memᴰ.head e) l =
    let kept : (nat_eq row.kind 3 && not (dead row.id)) ≡ true =
      subst (λ (z : Row). (nat_eq z.kind 3 && not (dead z.id)) ≡ true) e (ground (arith, l)) in
    rw kept (Memᴰ.head e)
Memᴰ-contact_lists dead (row ∷ rows) y (Memᴰ.tail m) l =
    let ih = Memᴰ-contact_lists dead rows y m l in
    if-cases (Memᴰ y) (nat_eq row.kind 3 && not (dead row.id)) (λ _. Memᴰ.tail ih) (λ _. ih)

-- An author that was not seen before has a row among the first ones.
first_by_pubkey-Memᴰ :
    (seen : List Bytes) (xs : List Row) (y : Row)
    → Memᴰ y xs
    → (contains y.pubkey seen ≡ true)
      ⊎ ((x : Row) × Memᴰ x (first_by_pubkey seen xs) × (x.pubkey ≡ y.pubkey))
unfolding first_by_pubkey
first_by_pubkey-Memᴰ seen [] y m = elim m [ ]
first_by_pubkey-Memᴰ seen (x ∷ xs) y (Memᴰ.head e) =
    let rest = first_by_pubkey (insert x.pubkey seen) xs in
    let Q : List Row → Type 0 =
      λ l. (contains y.pubkey seen ≡ true) ⊎ ((z : Row) × Memᴰ z l × (z.pubkey ≡ y.pubkey)) in
    if-cases Q (contains x.pubkey seen)
      (λ h. inl (subst (λ (z : Row). contains z.pubkey seen ≡ true) (sym e) h))
      (λ _. inr (x, Memᴰ.head refl, ap (λ (z : Row). z.pubkey) (sym e)))
first_by_pubkey-Memᴰ seen (x ∷ xs) y (Memᴰ.tail m) =
    let rest = first_by_pubkey (insert x.pubkey seen) xs in
    let Q : List Row → Type 0 =
      λ l. (contains y.pubkey seen ≡ true) ⊎ ((z : Row) × Memᴰ z l × (z.pubkey ≡ y.pubkey)) in
    elim (first_by_pubkey-Memᴰ (insert x.pubkey seen) xs y m) [
      | inl c ↦
          if-cases Q (contains x.pubkey seen) (λ h. inl (seen_before h c))
            (λ h. elim (Bool-cases (x.pubkey == y.pubkey)) [
              | inl e ↦ inr (x, Memᴰ.head refl, (==_iff x.pubkey y.pubkey).0 e)
              | inr n ↦ inl (ground (arith, c, n, contains-insert x.pubkey y.pubkey seen))
            ])
      | inr (z, mz, e) ↦
          if-cases Q (contains x.pubkey seen) (λ _. inr (z, mz, e)) (λ _. inr (z, Memᴰ.tail mz, e))
    ]
  where
    seen_before :
        contains x.pubkey seen ≡ true
        → contains y.pubkey (insert x.pubkey seen) ≡ true
        → contains y.pubkey seen ≡ true
    seen_before h c = unfold insert in rw h at c

All-both : (P Q : Row → Type 0) (xs : List Row) → All P xs → All Q xs → All (λ x. P x × Q x) xs
All-both P Q [] h k = tt
All-both P Q (x ∷ xs) h k = ((h.0, k.0), All-both P Q xs h.1 k.1)

surpassed : (x y : Row) → y.pubkey ≡ x.pubkey → outdoes x y ≡ true → newer x y ≡ true
surpassed x y e h = ground (arith, h, (==_iff y.pubkey x.pubkey).1 e)

pub selected-AreWinners :
    (dead : Bytes → Bool) (rows : List Row)
    → AreWinners dead rows (first_by_pubkey [] (sort_by newer (contact_lists dead rows)))
selected-AreWinners dead rows =
    let lists = contact_lists dead rows in
    let sorted = sort_by newer lists in
    let selected = first_by_pubkey [] sorted in
    let live =
      first_by_pubkey-All (λ x. Memᴰ x rows × IsLive dead x) [] sorted
        (sort_by-All (λ x. Memᴰ x rows × IsLive dead x) lists (contact_lists-All dead rows)) in
    let first = first_by_pubkey-outdoes lists in
    let Live : Row → Type 0 = λ x. Memᴰ x rows × IsLive dead x in
    let First : Row → Type 0 = λ x. All (λ y. outdoes x y ≡ true) lists in
    (
      All-map (λ x. Live x × First x) _ selected
          (λ x h. (
            h.0.0,
            h.0.1,
            λ y m l e. newer-IsAsNew x y (
                surpassed x y e (
                  All-lookup (λ z. outdoes x z ≡ true) lists h.1
                    (Memᴰ-contact_lists dead rows y m l))),
          ))
          (All-both Live First selected live first),
      λ y m l.
          let m' = Memᴰ-contact_lists dead rows y m l in
          let m'' =
            All-lookup (λ z. Memᴰ z sorted) lists
              (All-sort_by (λ z. Memᴰ z sorted) lists (All-self sorted sorted (λ z k. k))) m' in
          elim (first_by_pubkey-Memᴰ [] sorted y m'') [
            | inl c ↦ absurd (cc (c, contains-nil y.pubkey))
            | inr r ↦ r
          ],
    )

insert_again : (a : Bytes) (xs : List Bytes) → insert a (insert a xs) ≡ insert a xs
unfolding insert
insert_again a xs =
    let kept : contains a (insert a xs) ≡ true =
      ground (arith, contains-insert a a xs, ==_self a) in
    unfold insert in rw kept refl

insert_either :
    (a : Bytes) (base : List Bytes) (b : Bool) (l : List Bytes)
    → l ≡ (if b then insert a base else base)
    → insert a l ≡ insert a base
insert_either a base true l e = ap (insert a) e ∙ insert_again a base
insert_either a base false l e = ap (insert a) e

contains-any_in : (pk : Bytes) (column : List Bytes) → any_in (pk ∷ []) column ≡ contains pk column
unfolding contains
contains-any_in pk [] = refl
contains-any_in pk (v ∷ column) =
    ground (arith, contains-any_in pk column, ==_iff pk v, ==_iff v pk)

-- The authors whose p-tags in the lists name a pubkey.
pub ids_of-follows :
    (pk : Bytes) (rows : List Row) → ids_of pk (follows rows) ≡ authors_naming pk rows
unfolding ids_of follows authors_naming contains
ids_of-follows pk [] = refl
ids_of-follows pk (row ∷ rows) =
    joined (tag_column (bytes "p") row.tags) (ids_of-follows pk rows)
    ∙ ap (λ b. if b then insert row.pubkey (authors_naming pk rows) else authors_naming pk rows)
        (sym (contains-any_in pk (tag_column (bytes "p") row.tags))
          ∙ any_in-tag_column (bytes "p") (pk ∷ []) row.tags)
  where
    joined :
        (ps : List Bytes)
        → ids_of pk (follows rows) ≡ authors_naming pk rows
        → ids_of pk (each_tag row.pubkey ps (follows rows)) ≡ (
            if contains pk ps
            then insert row.pubkey (authors_naming pk rows)
            else authors_naming pk rows)
    joined [] ih = ih
    joined (p ∷ ps) ih =
        let names = contains pk ps in
        let base = authors_naming pk rows in
        let before = joined ps ih in
        if-cases
          (λ (l : List Bytes). l ≡ (if p == pk || names then insert row.pubkey base else base))
          (p == pk) (λ h. rw h (insert_either row.pubkey base names _ before)) (λ h. rw h before)
