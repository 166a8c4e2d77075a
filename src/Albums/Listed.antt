-- ===== src/Albums/Listed.antt =====
-- The songs that an album lists, through the steps of an update.
use rsplayer.Prelude.{
  ℕ, ◌≡◌, refl, ◌∙◌, Option, none, some, List, [], ◌∷◌, ◌++◌, Bool, true, false, not, ◌==◌, arith,
  filter, bytes_eq, bytes_eq_refl, Bool-cases, inl, inr, length,
}
use rsplayer.Store.Texts.{bytes_eq_sym}
use rsplayer.Song.{Text, Song, codes}
use rsplayer.Commands.{Album}
use rsplayer.Albums.{
  AlbumEnv, is_empty, contains_text, or_text, nonblank, push_key, tag, or_title, Place, place_key,
  nowhere, titled, singles, set_released, released_from, set_image, set_artist, set_genre,
  set_label, updated, year_start,
}

-- No text twice.
abbrev pub NoDup : List Text → Type 0
NoDup [] = Unit
NoDup (k ∷ ks) = (contains_text k ks ≡ false) × NoDup ks

contains_text-push :
    (t file : Text) (ks : List Text)
    → contains_text t ks ≡ false
    → bytes_eq file t ≡ false
    → contains_text t (ks ++ file ∷ []) ≡ false
contains_text-push t file [] h ne = ground (arith, ne)
contains_text-push t file (k ∷ ks) h ne = ground (arith, contains_text-push t file ks)

NoDup-push :
    (file : Text) (ks : List Text)
    → NoDup ks
    → contains_text file ks ≡ false
    → NoDup (ks ++ file ∷ [])
NoDup-push file [] h n = (refl, tt)
NoDup-push file (k ∷ ks) h n =
    let apart : bytes_eq k file ≡ false = ground arith in
    let later : contains_text file ks ≡ false = ground arith in
    (contains_text-push k file ks h.0 (bytes_eq_sym file k ∙ apart), NoDup-push file ks h.1 later)

pub contains_text-pushed :
    (file : Text) (ks : List Text) → contains_text file (ks ++ file ∷ []) ≡ true
contains_text-pushed file [] = rw (bytes_eq_refl file) refl
contains_text-pushed file (k ∷ ks) = ground (arith, contains_text-pushed file ks)

contains_text-filter :
    (p : Text → Bool) (t : Text) (ks : List Text)
    → contains_text t ks ≡ false
    → contains_text t (filter p ks) ≡ false
contains_text-filter p t [] h = refl
contains_text-filter p t (k ∷ ks) h = ground (arith, contains_text-filter p t ks)

pub NoDup-filter : (p : Text → Bool) (ks : List Text) → NoDup ks → NoDup (filter p ks)
NoDup-filter p [] h = tt
NoDup-filter p (k ∷ ks) h = elim (Bool-cases (p k)) [
  | inl e ↦ rw e (contains_text-filter p k ks h.0, NoDup-filter p ks h.1)
  | inr e ↦ rw e (NoDup-filter p ks h.1)
]

pub filter-absent :
    (file : Text) (ks : List Text)
    → contains_text file ks ≡ false
    → filter (λ k. not (bytes_eq k file)) ks ≡ ks
filter-absent file [] h = refl
filter-absent file (k ∷ ks) h = ground (arith, filter-absent file ks)

pub filter-pushed :
    (file : Text) (ks : List Text)
    → contains_text file ks ≡ false
    → filter (λ k. not (bytes_eq k file)) (ks ++ file ∷ []) ≡ ks
filter-pushed file [] h = rw (bytes_eq_refl file) refl
filter-pushed file (k ∷ ks) h = ground (arith, filter-pushed file ks)

is_empty-push : (file : Text) (ks : List Text) → is_empty (ks ++ file ∷ []) ≡ false
is_empty-push file [] = refl
is_empty-push file (k ∷ ks) = refl

-- An album that may be stored: it lists a song, and none twice.
abbrev pub Lists : List Text → Type 0
Lists ks = (is_empty ks ≡ false) × NoDup ks

pub push_key-Lists :
    (file : Text) (album : Album) → NoDup album.song_keys → Lists (push_key file album).song_keys
push_key-Lists file album h = elim (Bool-cases (contains_text file album.song_keys)) [
  | inl e ↦ rw e (nonempty album.song_keys e, h)
  | inr e ↦ rw e (is_empty-push file album.song_keys, NoDup-push file album.song_keys h e)
]
  where
    nonempty : (ks : List Text) → contains_text file ks ≡ true → is_empty ks ≡ false
    nonempty [] e = absurd (cc)
    nonempty (k ∷ ks) e = refl

keys-or_title : (title : Text) (a : Album) → (or_title title a).song_keys ≡ a.song_keys
keys-or_title title a = ground arith

module _ (env : AlbumEnv) where
  keys-set_image : (o : Option Text) (a : Album) → (set_image env o a).song_keys ≡ a.song_keys
  keys-set_image none a = refl
  keys-set_image (some t) a = refl

  keys-set_artist : (o : Option Text) (a : Album) → (set_artist env o a).song_keys ≡ a.song_keys
  keys-set_artist none a = refl
  keys-set_artist (some t) a = refl

  keys-set_genre : (o : Option Text) (a : Album) → (set_genre env o a).song_keys ≡ a.song_keys
  keys-set_genre none a = refl
  keys-set_genre (some t) a = refl

  keys-set_label : (o : Option Text) (a : Album) → (set_label env o a).song_keys ≡ a.song_keys
  keys-set_label none a = refl
  keys-set_label (some t) a = refl

  keys-set_released : (o : Option ℕ) (a : Album) → (set_released env o a).song_keys ≡ a.song_keys
  keys-set_released none a = refl
  keys-set_released (some t) a = refl

  keys-released_from :
      (date year : Option Text) (a : Album)
      → (released_from env date year a).song_keys ≡ a.song_keys
  keys-released_from none none a = refl
  keys-released_from none (some year) a = keys-set_released (year_start env year) a
  keys-released_from (some date) year a = elim (Bool-cases (length date == 4)) [
    | inl e ↦ rw e (
        keys-set_released (env.parse_from_rfc3339 date) (set_released env (year_start env date) a)
        ∙ keys-set_released (year_start env date) a)
    | inr e ↦ rw e (keys-set_released (env.parse_from_rfc3339 date) a)
  ]

  -- An update changes nothing of the list but for the song that it puts there.
  pub keys-updated :
      (place : Place env) (song : Song) (album : Album)
      → is_empty (place_key env place song) ≡ false
      → (updated env place song album).song_keys ≡ (push_key song.file album).song_keys
  unfolding updated
  keys-updated nowhere song album h = absurd (cc)
  keys-updated (singles artist) song album h =
      keys-or_title (b'[' ∷ (artist ++ b']' ∷ []))
        (set_artist env (some artist) (set_image env song.image_id (push_key song.file album)))
      ∙ keys-set_image song.image_id (push_key song.file album)
  keys-updated (titled raw_album) song album h =
      let artist = or_text (nonblank song.album_artist) (nonblank song.artist) in
      let year = tag (codes "year") song.tags in
      let a0 = push_key song.file album in
      let a1 = set_image env song.image_id a0 in
      let a2 = set_artist env artist a1 in
      let a3 = released_from env song.date year a2 in
      let a4 = set_genre env song.genre a3 in
      let a5 = set_label env song.label a4 in
      keys-or_title raw_album a5
      ∙ keys-set_label song.label a4
      ∙ keys-set_genre song.genre a3
      ∙ keys-released_from song.date year a2
      ∙ keys-set_artist artist a1
      ∙ keys-set_image song.image_id a0
