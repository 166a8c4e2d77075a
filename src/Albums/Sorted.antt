-- ===== src/Albums/Sorted.antt =====
-- What the sorting of the albums by their release gives.
use mathlib.Core.List.{Perm}
use mathlib.Core.List.Perm
use rsplayer.Prelude.{
  ℕ, ◌≡◌, ◌≤◌, Option, none, some, List, [], ◌∷◌, Bool, true, false, arith, Bool-cases, inl, inr,
}
use rsplayer.Commands.{Album}
use rsplayer.Albums.Queries.{insert_desc, sort_desc, option_lt}

-- The first date is not after the second one; without a date an album counts as older than all.
abbrev NotAfter : Option ℕ → Option ℕ → Type 0
NotAfter none b = Unit
NotAfter (some a) none = ⊥
NotAfter (some a) (some b) = a ≤ b

abbrev NoneAfter : Album → List Album → Type 0
NoneAfter x [] = Unit
NoneAfter x (y ∷ l) = NotAfter y.released x.released × NoneAfter x l

-- No album was released after one that stands before it.
abbrev pub NewestFirst : List Album → Type 0
NewestFirst [] = Unit
NewestFirst (x ∷ l) = NoneAfter x l × NewestFirst l

NotAfter-trans : (a b c : Option ℕ) → NotAfter a b → NotAfter b c → NotAfter a c
NotAfter-trans none b c h k = tt
NotAfter-trans (some a) none c h k = absurd h
NotAfter-trans (some a) (some b) none h k = absurd k
NotAfter-trans (some a) (some b) (some c) h k = omega arith

NotAfter-lt : (a b : Option ℕ) → option_lt a b ≡ true → NotAfter a b
NotAfter-lt none b h = tt
NotAfter-lt (some a) none h = absurd (ground arith)
NotAfter-lt (some a) (some b) h = ground arith

NotAfter-not_lt : (a b : Option ℕ) → option_lt a b ≡ false → NotAfter b a
NotAfter-not_lt a none h = tt
NotAfter-not_lt none (some b) h = absurd (ground arith)
NotAfter-not_lt (some a) (some b) h = ground arith

NoneAfter-trans :
    (x y : Album) (l : List Album) → NotAfter y.released x.released → NoneAfter y l → NoneAfter x l
NoneAfter-trans x y [] h k = tt
NoneAfter-trans x y (z ∷ l) h k =
    (NotAfter-trans z.released y.released x.released k.0 h, NoneAfter-trans x y l h k.1)

abbrev by_released : Album → Album → Bool
by_released a b = option_lt a.released b.released

NoneAfter-insert :
    (z x : Album) (l : List Album)
    → NotAfter x.released z.released
    → NoneAfter z l
    → NoneAfter z (insert_desc by_released x l)
NoneAfter-insert z x [] h k = (h, tt)
NoneAfter-insert z x (y ∷ l) h k = elim (Bool-cases (option_lt x.released y.released)) [
  | inl e ↦ rw e (k.0, NoneAfter-insert z x l h k.1)
  | inr e ↦ rw e (h, k)
]

NewestFirst-insert :
    (x : Album) (l : List Album) → NewestFirst l → NewestFirst (insert_desc by_released x l)
NewestFirst-insert x [] s = (tt, tt)
NewestFirst-insert x (y ∷ l) s = elim (Bool-cases (option_lt x.released y.released)) [
  | inl e ↦
      rw e (
        NoneAfter-insert y x l (NotAfter-lt x.released y.released e) s.0,
        NewestFirst-insert x l s.1,
      )
  | inr e ↦
      let older = NotAfter-not_lt x.released y.released e in
      rw e ((older, NoneAfter-trans x y l older s.0), s)
]

pub sort_desc-NewestFirst : (l : List Album) → NewestFirst (sort_desc by_released l)
sort_desc-NewestFirst [] = tt
sort_desc-NewestFirst (x ∷ l) = NewestFirst-insert x _ (sort_desc-NewestFirst l)

insert_desc-Perm : (x : Album) (l : List Album) → Perm (insert_desc by_released x l) (x ∷ l)
insert_desc-Perm x [] = Perm.refl _
insert_desc-Perm x (y ∷ l) = elim (Bool-cases (option_lt x.released y.released)) [
  | inl e ↦ rw e (Perm.trans (Perm.cons y (insert_desc-Perm x l)) (Perm.swap x y l))
  | inr e ↦ rw e (Perm.refl _)
]

pub sort_desc-Perm : (l : List Album) → Perm (sort_desc by_released l) l
sort_desc-Perm [] = Perm.refl _
sort_desc-Perm (x ∷ l) =
    Perm.trans (insert_desc-Perm x (sort_desc by_released l)) (Perm.cons x (sort_desc-Perm l))
