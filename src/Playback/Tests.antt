-- ===== src/Playback/Tests.antt =====
-- Runs of the model of presets, and its theorem at one of them.
use curator_rs.Prelude.{
  sqlite, false, ℕ, ◌≡◌, refl, true, false, Option, some, none, List, [], ◌∷◌, arith, ok, err,
}
use curator_rs.Ascii.{codes, same, is_one_of, trimmed, drop_spaces, byte_length}
use curator_rs.Text.{is_whitespace}
use curator_rs.Session.Samples.{thousandths}
use curator_rs.Playback.Presets.{
  PlaybackPreset, PresetRow, Host, conflict, revision_of, update_preset, is_bad_preset, refused,
  write_new, write_over, write_preset, save_checked, save, delete,
}
use curator_rs.Playback.Spec.{
  Request, saving as to_save, deleting as to_delete, saved, deleted, failed, Answers,
}
use curator_rs.Playback.Table.{book_of, HasKeys}
use curator_rs.Playback.Refines.{serve, serve_all, serve_all-Answers}
use curator_rs.Playback.Stale.{
  Command, saving, deleting, is_sparing, run_one, run_commands, IsRefused, save_stale,
}

model : Unit {0}
unfolding same is_one_of trimmed drop_spaces byte_length is_whitespace revision_of update_preset
    is_bad_preset refused write_new write_over write_preset save_checked save delete is_sparing
    run_one run_commands book_of serve serve_all
model = tt

abbrev preset : Option ℕ → ℕ → PlaybackPreset ℕ
preset id revision = record {
  version = 1;
  id = id;
  revision = revision;
  name = codes " Evening ";
  media_ids = [];
  collection_id = none;
  tags = [];
  media_types = codes "image" ∷ [];
  order = codes "shuffled";
  display_fit = codes "contain";
  captions = true;
  music_source = codes "none";
  playlist_id = none;
  music_volume = 500;
}

abbrev working : Host
working = record { owns_library = true; is_shutting_down = false; has_lease = true }

abbrev saved_preset : ℕ → PlaybackPreset ℕ
saved_preset revision = record (preset (some 1) revision) { name = codes "Evening" }

abbrev saved_rows : ℕ → List (PresetRow ℕ)
saved_rows revision = record { id = 1; revision = revision; body = saved_preset revision } ∷ []

created_test : save working 1 (preset none 0) [] ≡ (ok (saved_preset 1), saved_rows 1)
unfolding model
created_test = refl

saved_test : save working 2 (preset (some 1) 1) (saved_rows 1) ≡ (ok (saved_preset 2), saved_rows 2)
unfolding model
saved_test = refl

-- The other page had read the first revision.
conflict_test : save working 2 (preset (some 1) 1) (saved_rows 2) ≡ (err conflict, saved_rows 2)
unfolding model
conflict_test = refl

-- A new preset that is given the id of a deleted one is overwritten by a page that read the old one.
reused_test :
    (save working 2
      (preset (some 1) 1)
      (save working 1 (preset none 0) (delete working 1 1 (saved_rows 1)).1).1).0
    ≡ ok (saved_preset 2)
unfolding model
reused_test = refl

abbrev between : List (Command ℕ)
between = saving working 2 (preset (some 1) 2) ∷ deleting working 1 3 ∷ []

save_stale_example :
    IsRefused
      (run_commands between (saved_rows 2))
      (save working 2 (preset (some 1) 1) (run_commands between (saved_rows 2)))
unfolding model
save_stale_example =
    save_stale working working 2 2 1 (preset (some 1) 1) (saved_preset 2) (preset (some 1) 1)
      (saved_rows 1) (saved_rows 2) between saved_test refl (refl, (refl, tt)) refl (omega arith)

abbrev requests : List (Request ℕ)
requests =
    to_save working (preset none 0)
    ∷ to_save working (preset (some 1) 1)
    ∷ to_save working (preset (some 1) 1)
    ∷ to_delete working 1 2
    ∷ []

served_test :
    serve_all sqlite requests []
    ≡ (saved (saved_preset 1) ∷ saved (saved_preset 2) ∷ failed conflict ∷ deleted ∷ [], [])
unfolding model
served_test = refl

serve_all-Answers_example :
    HasKeys (serve_all sqlite requests []).1
    × Answers
        (book_of {F = ℕ} [])
        requests
        (serve_all sqlite requests []).0
        (book_of (serve_all sqlite requests []).1)
serve_all-Answers_example = serve_all-Answers sqlite requests [] tt
