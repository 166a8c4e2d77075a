-- ===== src/Store/Texts/Prefix.antt =====
-- Entries under a prefix.
use rsplayer.Prelude.{
  ◌≡◌, refl, List, [], ◌∷◌, true, false, arith, bytes_eq, bytes_eq_refl, bytes_eq-eq, Bool-cases,
  inl, inr,
}
use rsplayer.Song.{Text, starts_with}
use rsplayer.Store.Texts.{text_lt-ne, insert, with_prefix, Above, IsSorted, Above-weaken}

module _ {V : Type 0} where
  -- Entries under a prefix, before and behind a write or a removal.
  pub with_prefix-insert_other :
      (p k : Text) (v : V) (l : List (Text × V))
      → starts_with p k ≡ false
      → with_prefix p (insert k v l) ≡ with_prefix p l
  with_prefix-insert_other p k v [] h = ground arith
  with_prefix-insert_other p k v ((j, w) ∷ l) h = elim (Bool-cases (bytes_eq j k)) [
    | inl e ↦ let same = bytes_eq-eq j k e in rw (e, same, h) refl
    | inr e ↦ ground (arith, e, h, with_prefix-insert_other p k v l h)
  ]

  pub insert-Above_front :
      (k : Text) (v : V) (l : List (Text × V)) → Above k l → insert k v l ≡ (k, v) ∷ l
  insert-Above_front k v [] h = refl
  insert-Above_front k v ((j, w) ∷ l) h = ground (arith, text_lt-ne k j h.0)

  pub with_prefix-Above : (b p : Text) (l : List (Text × V)) → Above b l → Above b (with_prefix p l)
  with_prefix-Above b p [] h = tt
  with_prefix-Above b p ((j, w) ∷ l) h = ground (arith, with_prefix-Above b p l h.1)

  pub with_prefix-insert :
      (p k : Text) (v : V) (l : List (Text × V))
      → IsSorted l
      → starts_with p k ≡ true
      → with_prefix p (insert k v l) ≡ insert k v (with_prefix p l)
  with_prefix-insert p k v [] s h = ground arith
  with_prefix-insert p k v ((j, w) ∷ l) s h = elim (Bool-cases (bytes_eq j k)) [
    | inl e ↦ let same = bytes_eq-eq j k e in rw (e, same, h) (rw (bytes_eq_refl k) refl)
    | inr e ↦ ground (
      arith,
      e,
      h,
      with_prefix-insert p k v l s.1 h,
      Above-weaken k j (with_prefix p l),
      with_prefix-Above j p l s.0,
      insert-Above_front k v (with_prefix p l),
    )
  ]
