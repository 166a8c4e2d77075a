-- ===== src/Queue/Mode.antt =====
-- The playback modes (crates/wire/src/lib.rs, crates/api_models/src/common.rs) and their cycle.
use rsplayer.Prelude.{
  ℕ, suc, ◌+◌, ◌%◌, Option, none, some, List, [], ◌∷◌, Bool, true, false, if◌then◌else◌, get_elem?,
  length, unwrap_or,
}

pub data PlaybackMode : Type 0 where
  sequential random loop_single loop_queue : PlaybackMode

-- `PlaybackMode::iter()`, in the order of the declaration.
abbrev pub all_playback_modes : List PlaybackMode
all_playback_modes = sequential ∷ random ∷ loop_single ∷ loop_queue ∷ []

abbrev pub mode_eq : PlaybackMode → PlaybackMode → Bool
mode_eq sequential sequential = true
mode_eq random random = true
mode_eq loop_single loop_single = true
mode_eq loop_queue loop_queue = true
mode_eq _ _ = false

abbrev pub mode_position : PlaybackMode → List PlaybackMode → Option ℕ
mode_position m [] = none
mode_position m (x ∷ xs) =
    let rest = mode_position m xs in
    if mode_eq x m then some 0 else elim rest [ none ↦ none | some i ↦ some (suc i) ]

-- `modes[(current_index + 1) % modes.len()]`
unfoldable pub next_mode : PlaybackMode → PlaybackMode
next_mode m =
    let current_index = unwrap_or (mode_position m all_playback_modes) 0 in
    unwrap_or (get_elem? all_playback_modes ((current_index + 1) % length all_playback_modes))
      sequential
