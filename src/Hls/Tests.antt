-- ===== src/Hls/Tests.antt =====
-- internal/hlsbuffer: the theorems at small values.
use Prim.Native.String.{String}
use mi_ster_groovy_relay.Prelude.{ℕ, ◌-◌, ◌≡◌, refl, true, false, Option, none, some, List, [], ◌∷◌}
use mi_ster_groovy_relay.Hls.Text.{codes, strip}
use mi_ster_groovy_relay.Hls.Cache.{
  SegmentCache, Filepath, Disk, put, safe_cache_path, cache_name_matches, remove_entry,
  enforce_limits,
}
use mi_ster_groovy_relay.Hls.Cache.Limits.{IsCache}
use mi_ster_groovy_relay.Hls.Cache.Put.{put-IsCache, put-Stored, Stored}
use mi_ster_groovy_relay.Hls.Playlist.{Playlist, playlist_media, parse_playlist, set_or}
use mi_ster_groovy_relay.Hls.Playlist.Accepted.{Accepted, parse_playlist-Accepted}
use mi_ster_groovy_relay.Prelude.Int.{ℤ, pos}
use mi_ster_groovy_relay.Prelude.Result.{ok}
use mi_ster_groovy_relay.Hls.Variant.{Variant}
use mi_ster_groovy_relay.Hls.Validator.{Ip, Url, World, generic_public, validate}
use mi_ster_groovy_relay.Hls.Validator.Hops.{Safe, validate-Safe}

-- A path/filepath that is good for these names.
abbrev files : Filepath
files = record { base = λ n. n; clean = λ p. p; join = λ a b. "/c/segment-000002.ts" }

abbrev disk : Disk
disk = record { makes_root = true; writes = true; removes = λ n. true }

abbrev full_cache : SegmentCache
full_cache = record {
  root = "/c";
  max_segments = 1;
  max_bytes = 9;
  entries = record { name = "segment-000001.ts"; size = 4 } ∷ [];
  total_bytes = 4;
}

full_cache-IsCache : IsCache full_cache
full_cache-IsCache = record { total = refl; distinct = (tt, tt) }

put_done : (put files disk full_cache "segment-000002.ts" (1 ∷ 2 ∷ [])).1 ≡ none
unfolding put safe_cache_path cache_name_matches remove_entry enforce_limits strip
put_done = refl

put-IsCache_example : IsCache (put files disk full_cache "segment-000002.ts" (1 ∷ 2 ∷ [])).0
put-IsCache_example =
    put-IsCache files disk full_cache "segment-000002.ts" (1 ∷ 2 ∷ []) full_cache-IsCache

put-Stored_example :
    Stored files disk full_cache "segment-000002.ts"
      (1 ∷ 2 ∷ [])
      (put files disk full_cache "segment-000002.ts" (1 ∷ 2 ∷ [])).0
put-Stored_example =
    put-Stored files disk full_cache "segment-000002.ts" (1 ∷ 2 ∷ []) full_cache-IsCache put_done

abbrev variant : ℕ → Variant
variant h = record { uri = []; bandwidth = 5; width = 0; height = h; codecs = codes "mp4a, avc1" }

abbrev variants : List Variant
variants = variant 720 ∷ variant 480 ∷ variant 240 ∷ []

abbrev public_ip : Ip
public_ip = record {
  valid = true;
  unspecified = false;
  loopback = false;
  link_local_unicast = false;
  link_local_multicast = false;
  multicast = false;
  is_private = false;
  is_four = true;
  in_cgnat = false;
}

abbrev parsed : String → Option Url
parsed text = some (record {
  text = text;
  absolute = true;
  scheme = codes "https";
  host = codes "h";
  hostname = codes "h";
  has_user = false;
  has_fragment = false;
  has_query = false;
  query_keys = [];
  escaped_path = codes "/a";
})

-- Every server redirects to "https://h/b".
abbrev circular : World
circular = record {
  parse = parsed;
  resolve = λ host. some (public_ip ∷ []);
  resolve_again = λ host. some (public_ip ∷ []);
  head = λ url. some (302, some "b");
  against = λ url place. some "https://h/b";
}

validate-Safe_example :
    Safe circular generic_public 4 (validate circular generic_public 0 "https://h/a")
validate-Safe_example = validate-Safe circular generic_public 0 "https://h/a"

-- One segment of four seconds.
abbrev media_body : List ℕ
media_body = codes "#EXTM3U\n#EXT-X-MEDIA-SEQUENCE:7\n#EXTINF:4,\nv.ts\n"

-- A duration is left as text here, and a number is its first digit.
abbrev seconds : List ℕ → Option (List ℕ)
seconds text = some text

abbrev one_digit : List ℕ → Option ℤ
one_digit [] = none
one_digit (c ∷ cs) = some (pos (c - b'0'))

abbrev media_playlist : Playlist (List ℕ)
media_playlist = record {
  kind = playlist_media;
  target = none;
  media_seq = pos 7;
  segments =
      record { uri = codes "v.ts"; duration = codes "4"; sequence = pos 7; discontinuity = false }
      ∷ [];
  variants = [];
}

media_body_read : parse_playlist seconds one_digit one_digit media_body ≡ ok media_playlist
unfolding parse_playlist set_or
media_body_read = refl

parse_playlist-Accepted_example : Accepted seconds one_digit one_digit media_body media_playlist
parse_playlist-Accepted_example =
    parse_playlist-Accepted seconds one_digit one_digit media_body media_playlist media_body_read
