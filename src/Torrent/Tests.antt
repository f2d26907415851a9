-- ===== src/Torrent/Tests.antt =====
-- Witnesses for internal/adapters/torrent.
use mi_ster_groovy_relay.Prelude.{◌≡◌, refl, List, [], ◌∷◌}
use mi_ster_groovy_relay.Prelude.Result.{ok}
use mi_ster_groovy_relay.Hls.Text.{codes, ext}
use mi_ster_groovy_relay.Torrent.Select.{
  FileCandidate, pick_largest_playable, Picked, pick_largest_playable-Picked,
}

abbrev files : List FileCandidate
files =
    record { display_path = codes "a/readme.txt"; length = 900; index = 0 }
    ∷ record { display_path = codes "a/one.MKV"; length = 500; index = 1 }
    ∷ record { display_path = codes "a/two.mp4"; length = 700; index = 2 }
    ∷ []

picks_two :
    pick_largest_playable ext files
    ≡ ok (record { display_path = codes "a/two.mp4"; length = 700; index = 2 })
unfolding pick_largest_playable ext
picks_two = refl

pick_largest_playable-Picked_example : Picked ext files (pick_largest_playable ext files)
pick_largest_playable-Picked_example = pick_largest_playable-Picked ext files
