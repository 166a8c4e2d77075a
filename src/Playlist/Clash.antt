-- ===== src/Playlist/Clash.antt =====
-- What saving a playlist does to the entries of the others.
use rsplayer.Prelude.{
  ℕ, suc, ◌≡◌, ◌≢◌, ◌⊎◌, inl, inr, refl, ap, sym, ◌∙◌, List, [], ◌∷◌, ◌++◌, true, false, arith,
  ◌==◌, Bool-cases, bytes_eq, bytes_eq-eq,
}
use rsplayer.Store.Texts.{remove, with_prefix, keys, starts_with-append}
use rsplayer.Store.Texts.Prefix.{with_prefix-insert_other}
use rsplayer.Song.{Bytes, Text, Song, SongCodec, starts_with}
use rsplayer.Playlist.{
  PlaylistEnv, PlaylistService, entry_key, remove_keys, save_new_playlist,
  get_playlist_page_by_name,
}
use rsplayer.Playlist.Entries.{remove_all, with_prefix-none, insert_all}
use rsplayer.Playlist.Saved.{iter-remove_keys, iter-insert_songs, emptied}

-- Two beginnings of one text: the shorter begins the longer.
starts_with_both :
    (p q s : Text)
    → starts_with p s ≡ true
    → starts_with q s ≡ true
    → (starts_with p q ≡ true) ⊎ (starts_with q p ≡ true)
starts_with_both [] q s h k = inl refl
starts_with_both (c ∷ p) [] s h k = inr refl
starts_with_both (c ∷ p) (d ∷ q) [] h k = absurd (ground arith)
starts_with_both (c ∷ p) (d ∷ q) (e ∷ s) h k = ground (arith, starts_with_both p q s)

-- Neither name begins the other.
abbrev pub Apart : Text → Text → Type 0
Apart p q = (starts_with p q ≡ false) × (starts_with q p ≡ false)

Apart-key : (p q s : Text) → Apart p q → starts_with p s ≡ true → starts_with q s ≡ false
Apart-key p q s a h = elim (Bool-cases (starts_with q s)) [
  | inl e ↦ absurd (ground (arith, starts_with_both p q s h e))
  | inr e ↦ e
]

with_prefix-remove_other :
    (p k : Text) (l : List (Text × Bytes))
    → starts_with p k ≡ false
    → with_prefix p (remove k l) ≡ with_prefix p l
with_prefix-remove_other p k [] h = refl
with_prefix-remove_other p k ((j, w) ∷ l) h = elim (Bool-cases (bytes_eq j k)) [
  | inl e ↦ let same = bytes_eq-eq j k e in rw (e, same, h) (with_prefix-remove_other p k l h)
  | inr e ↦ ground (arith, e, with_prefix-remove_other p k l h)
]

-- Every key of a list starts with a text.
abbrev Under : Text → List Text → Type 0
Under p [] = Unit
Under p (k ∷ ks) = (starts_with p k ≡ true) × Under p ks

Under-keys : (p : Text) (l : List (Text × Bytes)) → Under p (keys (with_prefix p l))
Under-keys p [] = tt
Under-keys p ((j, w) ∷ l) = ground (arith, Under-keys p l)

with_prefix-remove-Apart :
    (p q : Text) (ks : List Text) (l : List (Text × Bytes))
    → Apart p q
    → Under p ks
    → with_prefix q (remove_all ks l) ≡ with_prefix q l
with_prefix-remove-Apart p q [] l a u = refl
with_prefix-remove-Apart p q (k ∷ ks) l a u =
    with_prefix-remove-Apart p q ks (remove k l) a u.1
    ∙ with_prefix-remove_other q k l (Apart-key p q k a u.0)

-- Keys that do not start with a text.
module _ (codec : SongCodec) (name q : Text)
    (h : (idx : ℕ) → starts_with q (entry_key name idx) ≡ false) where
  with_prefix-insert_all_other :
      (idx : ℕ) (songs : List Song) (l : List (Text × Bytes))
      → with_prefix q (insert_all codec name idx songs l) ≡ with_prefix q l
  with_prefix-insert_all_other idx [] l = refl
  with_prefix-insert_all_other idx (song ∷ songs) l =
      with_prefix-insert_all_other (suc idx) songs _
      ∙ with_prefix-insert_other q (entry_key name idx) (codec.to_json_string_bytes song) l (h idx)

starts_with-longer_key :
    (name rest s : Text) (c : ℕ)
    → (c == b'_') ≡ false
    → starts_with (name ++ (c ∷ rest)) (name ++ (b'_' ∷ s)) ≡ false
starts_with-longer_key [] rest s c h = ground arith
starts_with-longer_key (d ∷ name) rest s c h =
    ground (arith, starts_with-longer_key name rest s c h)

module _ {env : PlaylistEnv} where
  open env use {main, codec}

  -- The entries under a text that no key of the saved playlist starts with.
  entries_elsewhere :
      (name q : Text) (song : Song) (songs : List Song) (service : PlaylistService env)
      → ((idx : ℕ) → starts_with q (entry_key name idx) ≡ false)
      → main.prefix (save_new_playlist name (song ∷ songs) service).main_db q
        ≡ with_prefix q
            (main.iter (remove_keys env (keys (main.prefix service.main_db name)) service.main_db))
  unfolding save_new_playlist
  entries_elsewhere name q song songs service h =
      main.prefix_lem _ q
      ∙ ap (with_prefix q) (iter-insert_songs env name 0 (song ∷ songs) _)
      ∙ with_prefix-insert_all_other codec name q h 0 (song ∷ songs) _

  entries-Apart :
      (name q : Text) (songs : List Song) (service : PlaylistService env)
      → Apart name q
      → main.prefix (save_new_playlist name songs service).main_db q ≡ main.prefix service.main_db q
  unfolding save_new_playlist
  entries-Apart name q [] service a = refl
  entries-Apart name q (song ∷ songs) service a =
      entries_elsewhere name q song songs service
        (λ idx. Apart-key name q (entry_key name idx) a (starts_with-append name _))
      ∙ ap (with_prefix q) (iter-remove_keys env _ service.main_db)
      ∙ with_prefix-remove-Apart name q (keys (main.prefix service.main_db name))
          (main.iter service.main_db) a
          (rw (main.prefix_lem service.main_db name) (Under-keys name (main.iter service.main_db)))
      ∙ sym (main.prefix_lem service.main_db q)

  -- Saving a playlist changes no page of a playlist when neither of the two names begins the other.
  pub save_new_playlist-others :
      (name other : Text) (songs : List Song) (service : PlaylistService env) (offset limit : ℕ)
      → Apart name other
      → get_playlist_page_by_name other offset limit (save_new_playlist name songs service)
        ≡ get_playlist_page_by_name other offset limit service
  unfolding get_playlist_page_by_name
  save_new_playlist-others name other songs service offset limit a =
      rw (entries-Apart name other songs service a) refl

  -- Saving a playlist from at least one song empties every playlist whose name goes on behind the
  -- saved name with another character than `_`.
  pub save_new_playlist-clash :
      (name rest : Text) (c : ℕ) (songs : List Song) (service : PlaylistService env) (limit : ℕ)
      → (c == b'_') ≡ false
      → songs ≢ []
      → (get_playlist_page_by_name
          (name ++ (c ∷ rest))
          0
          limit
          (save_new_playlist name songs service)).total
        ≡ 0
  unfolding get_playlist_page_by_name
  save_new_playlist-clash name rest c [] service limit e h = absurd (h refl)
  save_new_playlist-clash name rest c (song ∷ songs) service limit e h =
      rw
        (
          entries_elsewhere name (name ++ (c ∷ rest)) song songs service
              (λ idx. starts_with-longer_key name rest _ c e),
          with_prefix-none name (c ∷ rest) _ (emptied env name service.main_db),
        )
        refl
