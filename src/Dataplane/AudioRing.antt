-- ===== src/Dataplane/AudioRing.antt =====
-- internal/dataplane/audioring.go: the audio delay ring. A slot without a chunk is `none` (nil).
pub mod Window
pub mod Queue
use mi_ster_groovy_relay.Prelude.{
  ℕ, ◌+◌, ◌-◌, ◌%◌, ◌^◌, Bool, true, false, Option, none, some, List, leb, ◌==◌, if◌then◌else◌,
  length, set, get_or, replicate,
}

pub record AudioDelayRing (A : Type 0) : Type 0 where
  pub buf : List (Option A)
  pub head : ℕ
  pub n : ℕ
  pub drops : ℕ

module _ {A : Type 0} where
  -- The source also takes a negative `delay_fields`, as 0.
  unfoldable pub new_audio_delay_ring : ℕ → AudioDelayRing A
  new_audio_delay_ring delay_fields = record {
    buf = replicate (delay_fields + 1) none;
    head = 0;
    n = 0;
    drops = 0;
  }

  -- What `Push` does first where the ring is full.
  unfoldable pub shed : AudioDelayRing A → AudioDelayRing A
  shed r = record {
    buf = set r.buf r.head none;
    head = (r.head + 1) % length r.buf;
    n = r.n - 1;
    drops = (r.drops + 1) % 2 ^ 64;
  }

  unfoldable pub store_tail : AudioDelayRing A → A → AudioDelayRing A
  store_tail r pcm = record r {
    buf = set r.buf ((r.head + r.n) % length r.buf) (some pcm);
    n = r.n + 1;
  }

  -- The ring afterwards, and whether the oldest chunk was dropped.
  unfoldable pub push : AudioDelayRing A → A → AudioDelayRing A × Bool
  unfolding shed store_tail
  push r pcm =
      if r.n == length r.buf then (store_tail (shed r) pcm, true) else (store_tail r pcm, false)

  unfoldable pub pop_if_beyond : AudioDelayRing A → ℕ → AudioDelayRing A × Option A
  pop_if_beyond r delay_n = if leb r.n delay_n then (r, none) else (
    record r { buf = set r.buf r.head none; head = (r.head + 1) % length r.buf; n = r.n - 1 },
    get_or r.buf r.head none,
  )
