-- ===== src/Albums/Maps.antt =====
-- A map as the list of its entries, whose order does not count.
use rsplayer.Prelude.{
  ◌≡◌, refl, sym, ap, ◌∙◌, Option, none, some, List, [], ◌∷◌, Bool, false, if◌then◌else◌,
  filter_map, and_then, map_option, unwrap_or, bytes_eq, bytes_eq-eq, arith, Bool-cases,
  Option-cases, inl, inr,
}
use rsplayer.Store.Texts.{lookup, Distinct, bytes_eq_sym}
use rsplayer.Song.{Text}
use rsplayer.Albums.Queries.{insert_desc, sort_desc}
use rsplayer.Albums.Shelves.{entry}

module _ {V : Type 0} where
  -- A list of entries in another order is the same map.
  pub lookup-insert_desc :
      (lt : Text × V → Text × V → Bool) (k j : Text) (v : V) (l : List (Text × V))
      → lookup j l ≡ none
      → lookup k (insert_desc lt (j, v) l) ≡ (if bytes_eq j k then some v else lookup k l)
  lookup-insert_desc lt k j v [] h = refl
  lookup-insert_desc lt k j v ((i, w) ∷ l) h = elim (Bool-cases (bytes_eq i j)) [
    | inl e ↦ absurd (ground (arith, e, h))
    | inr e ↦ elim (Bool-cases (lt (j, v) (i, w))) [
      | inr f ↦ rw f refl
      | inl f ↦ elim (Bool-cases (bytes_eq j k)) [
        | inl g ↦
            let other : bytes_eq i k ≡ false = rw (← bytes_eq-eq j k g) e in
            ground (arith, e, f, g, other, h, lookup-insert_desc lt k j v l)
        | inr g ↦ ground (arith, e, f, g, h, lookup-insert_desc lt k j v l)
      ]
    ]
  ]

  pub lookup-sort_desc :
      (lt : Text × V → Text × V → Bool) (k : Text) (l : List (Text × V))
      → Distinct l
      → lookup k (sort_desc lt l) ≡ lookup k l
  lookup-sort_desc lt k [] d = refl
  lookup-sort_desc lt k ((j, v) ∷ l) d =
      lookup-insert_desc lt k j v (sort_desc lt l) (lookup-sort_desc lt j l d.1 ∙ d.0)
      ∙ rw (lookup-sort_desc lt k l d.1) refl

module _ {V W : Type 0} (f : V → Option W) where
  abbrev pub kept : List (Text × V) → List (Text × W)
  kept l = filter_map (λ e. map_option (λ w. (e.0, w)) (f e.1)) l

  -- Entries that are dropped or changed by their value.
  pub lookup-kept :
      (k : Text) (l : List (Text × V)) → Distinct l → lookup k (kept l) ≡ and_then (lookup k l) f
  lookup-kept k [] d = refl
  lookup-kept k ((j, v) ∷ l) d = elim (Bool-cases (bytes_eq j k)) [
    | inl e ↦
        let gone : lookup k (kept l) ≡ none =
          rw (← bytes_eq-eq j k e) (lookup-kept j l d.1 ∙ ap (λ o. and_then o f) d.0) in
        elim (Option-cases (f v)) [
          | inl n ↦ rw (filter_map, n, e, gone) (sym n)
          | inr (w, n) ↦ rw (filter_map, n, e) (sym n)
        ]
    | inr e ↦ elim (Option-cases (f v)) [
      | inl n ↦ rw (filter_map, n, e) (lookup-kept k l d.1)
      | inr (w, n) ↦ rw (filter_map, n, e) (lookup-kept k l d.1)
    ]
  ]

  pub Distinct-kept : (l : List (Text × V)) → Distinct l → Distinct (kept l)
  Distinct-kept [] d = tt
  Distinct-kept ((j, v) ∷ l) d = elim (Option-cases (f v)) [
    | inl n ↦ rw (filter_map, n) (Distinct-kept l d.1)
    | inr (w, n) ↦
        rw (filter_map, n) (lookup-kept j l d.1 ∙ ap (λ o. and_then o f) d.0, Distinct-kept l d.1)
  ]

module _ {V : Type 0} (change : V → V) where
  pub lookup-entry :
      (j : Text) (v : V) (k : Text) (m : List (Text × V))
      → lookup k (entry change j v m)
        ≡ (if bytes_eq j k then some (change (unwrap_or (lookup j m) v)) else lookup k m)
  lookup-entry j v k [] = refl
  lookup-entry j v k ((i, w) ∷ m) = elim (Bool-cases (bytes_eq i j)) [
    | inl e ↦
        let same = bytes_eq-eq i j e in
        elim (Bool-cases (bytes_eq j k)) [
          | inl f ↦ rw (e, same, f) refl
          | inr f ↦ rw (e, same, f) refl
        ]
    | inr e ↦ elim (Bool-cases (bytes_eq j k)) [
      | inl f ↦
          let other : bytes_eq i k ≡ false = rw (← bytes_eq-eq j k f) e in
          ground (arith, e, f, other, lookup-entry j v k m)
      | inr f ↦ ground (arith, e, f, lookup-entry j v k m)
    ]
  ]

  pub entry-Distinct :
      (j : Text) (v : V) (m : List (Text × V)) → Distinct m → Distinct (entry change j v m)
  entry-Distinct j v [] d = (refl, tt)
  entry-Distinct j v ((i, w) ∷ m) d = elim (Bool-cases (bytes_eq i j)) [
    | inl e ↦ rw e d
    | inr e ↦ rw e (rw (lookup-entry j v i m, bytes_eq_sym j i, e) (d.0), entry-Distinct j v m d.1)
  ]
