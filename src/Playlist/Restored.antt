-- ===== src/Playlist/Restored.antt =====
-- A queue that is saved as a playlist and loaded again: the playlist and the queue commands together.
use rsplayer.Prelude.{ℕ, ◌≡◌, ◌≢◌, ◌≤◌, ◌∙◌, refl, ap, List, [], ◌∷◌, length, arith, take_all}
use rsplayer.Song.{Text, Song}
use rsplayer.Queue.State.{Env, QueueService}
use rsplayer.Queue.State.Ids.{IsValid, HasRoom}
use rsplayer.Queue.Edit.Append.{replace_all_lem}
use rsplayer.Queue.Pages.{get_all_songs}
use rsplayer.Commands.{Library, Context, load_playlist_in_queue}
use rsplayer.Commands.Handle.{handle_queue_command}
use rsplayer.Playlist.{PlaylistEnv, PlaylistService, save_new_playlist, get_playlist_page_by_name}
use rsplayer.Playlist.Clash.{Apart, save_new_playlist-others}
use rsplayer.Playlist.Saved.{save_new_playlist-order}
use rsplayer.Playlist.Handle.{Catalogue, handle_playlist_command, save_queue_as_playlist}

-- The queue commands read playlists from the playlist service.
abbrev pub with_playlists : {penv : PlaylistEnv} → PlaylistService penv → Library → Library
with_playlists service library = record library {
  playlist_items = λ name offset limit. (get_playlist_page_by_name name offset limit service).items;
}

-- No name of the saved playlists begins a name, or begins with it.
abbrev pub AllApart : Text → List (Text × List Song) → Type 0
AllApart name [] = Unit
AllApart name ((other, songs) ∷ saves) = Apart other name × AllApart name saves

module _ {penv : PlaylistEnv} where
  -- Playlists saved one after the other.
  abbrev pub save_all : List (Text × List Song) → PlaylistService penv → PlaylistService penv
  save_all [] service = service
  save_all ((name, songs) ∷ saves) service = save_all saves (save_new_playlist name songs service)

  page-save_all :
      (name : Text) (saves : List (Text × List Song)) (service : PlaylistService penv)
      (offset limit : ℕ)
      → AllApart name saves
      → get_playlist_page_by_name name offset limit (save_all saves service)
        ≡ get_playlist_page_by_name name offset limit service
  page-save_all name [] service offset limit apart = refl
  page-save_all name ((other, songs) ∷ saves) service offset limit apart =
      page-save_all name saves (save_new_playlist other songs service) offset limit apart.1
      ∙ save_new_playlist-others other name songs service offset limit apart.0

module _ {env : Env} {penv : PlaylistEnv} where
  -- A queue of at least one and at most ten songs that is saved as a playlist is the queue again when
  -- that playlist is loaded: into any valid queue with unused ids left for the songs, and whatever
  -- playlists were saved in between whose names neither begin this playlist's name nor begin with it.
  pub load-save_queue :
      (catalogue : Catalogue) (library : Library) (name : Text) (queue : QueueService env)
      (service : PlaylistService penv) (between : List (Text × List Song)) (ctx : Context env)
      → get_all_songs queue ≢ []
      → length (get_all_songs queue) ≤ 10
      → AllApart name between
      → HasRoom (length (get_all_songs queue)) ctx.queue
      → IsValid ctx.queue
      → let saved =
          (handle_playlist_command catalogue (save_queue_as_playlist name) queue service).0 in
        get_all_songs
          (handle_queue_command
            (with_playlists (save_all between saved) library)
            (load_playlist_in_queue name)
            ctx).queue
        ≡ get_all_songs queue
  unfolding handle_playlist_command handle_queue_command
  load-save_queue catalogue library name queue service between ctx some_song ten apart room valid =
      let songs = get_all_songs queue in
      let items =
        ap (λ pl. pl.items)
          (page-save_all name between (save_new_playlist name songs service) 0 20000 apart)
        ∙ save_new_playlist-order name songs service 0 20000 some_song ten
        ∙ take_all 20000 songs (omega arith) in
      rw items (replace_all_lem songs ctx.queue room valid).0
